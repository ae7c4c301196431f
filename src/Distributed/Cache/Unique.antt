-- ===== src/Distributed/Cache/Unique.antt =====
-- GUIDs that nodes reserve on each other are never handed out twice (`reserve_guid` of
-- include/distributed/object_cache.h).
use ocr_vx.Prelude.{
  ℕ, ◌^◌, ◌≤◌, ◌<◌, ◌≡◌, ◌≢◌, sym, subst, inl, refl, arith, List, [], true, false, some, length,
  ==_refl, count, lt→ltb,
}
use ocr_vx.Distributed.Guid.{is_mapped, get_node_id}
use ocr_vx.Distributed.Packing.{make_guid-roundtrip}
use ocr_vx.Distributed.Repository.{Repository, validate, in_data}
use ocr_vx.Distributed.Cache.{Cluster, new_cluster, ClusterEvent, run}
use ocr_vx.Distributed.Cache.Ledger.{word}
use ocr_vx.Distributed.Cache.Words.{make_guid-word, get_object_id-word}
use ocr_vx.Distributed.Cache.Invariant.{Inv}
use ocr_vx.Distributed.Cache.Steps.{run-Inv}

pub new_cluster-Inv : {A : Type 0} → Inv {A = A} new_cluster []
unfolding count
new_cluster-Inv = record {
  lo = λ a n. 0;
  hi = λ a n. 0;
  ledger = record {
    low = λ n. omega arith;
    within = λ a n x p q. absurd (omega arith);
    apart = λ a b n x p q. absurd (omega arith);
    fresh = λ a n x p q r. refl;
    future = λ n x p q. refl;
    once = λ g. omega arith;
    known = λ g h. absurd (h refl);
  };
  pending = λ a n. (refl, inl (refl, refl));
}

-- `g` is the GUID of an object of a node, which is not null and which that node accepts.
pub record OfSomeNode {A : Type 0} (nodes : ℕ) (s : Cluster A) (g : ℕ) : Type 0 where
  pub node : ℕ
  pub unmapped : is_mapped 32 g ≡ false
  pub on_node : get_node_id 32 nodes g ≡ some node
  pub valid : validate nodes node g (s.repositories node) ≡ some true
  pub not_null : g ≢ 0

pub word-on_node :
    (nodes n x : ℕ)
    → n < 2 ^ 32
    → x < 2 ^ 31
    → (is_mapped 32 (word n x) ≡ false) × (get_node_id 32 nodes (word n x) ≡ some n)
word-on_node nodes n x p q =
    let (g, made, unmapped, node, _) = make_guid-roundtrip 32 (omega arith) nodes n x p q in
    let same = (make_guid-word n x g made).0 in
    (
      subst (λ w. is_mapped 32 w ≡ false) same unmapped,
      subst (λ w. get_node_id 32 nodes w ≡ some n) same node,
    )

word-valid :
    {A : Type 0} (nodes n x : ℕ) (r : Repository A)
    → n < 2 ^ 32
    → x < 2 ^ 31
    → x < length r.data_
    → validate nodes n (word n x) r ≡ some true
unfolding validate in_data
word-valid nodes n x r p q h =
    rw
      (
        (word-on_node nodes n x p q).1,
        ==_refl n,
        get_object_id-word n x p q,
        lt→ltb x (length r.data_) h,
      )
      refl

pub record AllReserved {A : Type 0} (nodes : ℕ) (gs : List ℕ) (s : Cluster A) : Type 0 where
  pub once : (g : ℕ) → count g gs ≤ 1
  pub known : (g : ℕ) → count g gs ≢ 0 → OfSomeNode nodes s g

-- Whatever nodes reserve, add, serve and receive in whatever order: no GUID is handed out twice, and
-- each is that of an object of a node that this node accepts, and is not null. (Steps at which an
-- assertion on the width of a field fails are not in such a run.)
pub run-AllReserved :
    {A : Type 0} (nodes : ℕ) (es : List (ClusterEvent A)) (gs : List ℕ) (s : Cluster A)
    → run es [] new_cluster ≡ some (gs, s)
    → AllReserved nodes gs s
run-AllReserved nodes es gs s h =
    let v = run-Inv es new_cluster [] (gs, s) new_cluster-Inv h in
    record {
      once = v.ledger.once;
      known = λ g used.
          let (n, x, same, small, fits, above, below) = v.ledger.known g used in
          let (unmapped, on_node) = word-on_node nodes n x small fits in
          record {
            node = n;
            unmapped = subst (λ w. is_mapped 32 w ≡ false) (sym same) unmapped;
            on_node = subst (λ w. get_node_id 32 nodes w ≡ some n) (sym same) on_node;
            valid =
                subst (λ w. validate nodes n w (s.repositories n) ≡ some true) (sym same)
                  (word-valid nodes n x (s.repositories n) small fits below);
            not_null = λ null. omega (arith, null, same, above);
          };
    }

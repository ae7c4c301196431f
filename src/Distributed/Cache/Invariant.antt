-- ===== src/Distributed/Cache/Invariant.antt =====
-- What holds between all steps: the containers and the messages are the ledger's numbers.
use ocr_vx.Prelude.{
  ℕ, ◌+◌, ◌^◌, ◌≤◌, ◌<◌, ◌≡◌, sym, ap, subst, inl, inr, arith, List, [], ◌∷◌, ◌++◌, ◌==◌,
  if◌then◌else◌, true, false, Bool-cases, ◌&&◌, Option, none, some, length, ==_refl,
}
use ocr_vx.Prelude.Options.{>>=-eq-some, some-inj}
use ocr_vx.Distributed.Repository.{Repository, add_object, preallocate_object, push_objects}
use ocr_vx.Distributed.Cache.{
  NodeDataContainer, Message, no_message, allocate_guid, allocated_guid, Cluster, preallocate_count,
  update, update₂, at_node, local_add, local_reserve,
}
use ocr_vx.Distributed.Cache.Ledger.{word, Ledger, Ledger-issue, Ledger-grow}
use ocr_vx.Distributed.Cache.Words.{push_objects-Pushes, Left}

abbrev pub Pending : ℕ → NodeDataContainer → Message → ℕ → ℕ → Type 0
Pending n c no_message lo hi = (c.preallocations_mutex ≡ false) × Left n c lo hi
Pending n c allocate_guid lo hi = (c.preallocations_mutex ≡ true) × (lo ≡ hi)
Pending n c (allocated_guid g) lo hi =
    (c.preallocations_mutex ≡ true)
    × (g ≡ word n lo)
    × (hi ≡ lo + preallocate_count)
    × (n < 2 ^ 32)
    × (lo < 2 ^ 31)

abbrev pub size : {A : Type 0} → Cluster A → ℕ → ℕ
size s n = length (s.repositories n).data_

pub record Inv {A : Type 0} (s : Cluster A) (gs : List ℕ) : Type 0 where
  pub lo : ℕ → ℕ → ℕ
  pub hi : ℕ → ℕ → ℕ
  pub ledger : Ledger (size s) lo hi gs
  pub pending : (a n : ℕ) → Pending n (s.data_ a n) (s.messages a n) (lo a n) (hi a n)

-- `f'` is `f` with the value `v` for `a` and `n`.
pub record Sets {X : Type 0} (a n : ℕ) (v : X) (f f' : ℕ → ℕ → X) : Type 0 where
  pub value : (b m : ℕ) → f' b m ≡ (if a == b && n == m then v else f b m)

pub Sets-update₂ : {X : Type 0} (a n : ℕ) (v : X) (f : ℕ → ℕ → X) → Sets a n v f (update₂ a n v f)
Sets-update₂ a n v f = record { value = λ b m. ground arith }

pub Sets-same : {X : Type 0} (a n : ℕ) (f : ℕ → ℕ → X) → Sets a n (f a n) f f
Sets-same a n f = record { value = λ b m. grind arith }

pub Pending-Sets :
    (a n : ℕ) {c : NodeDataContainer} {x : Message} {l h : ℕ} {d d' : ℕ → ℕ → NodeDataContainer}
    {ms ms' : ℕ → ℕ → Message} {lo lo' hi hi' : ℕ → ℕ → ℕ}
    → Sets a n c d d'
    → Sets a n x ms ms'
    → Sets a n l lo lo'
    → Sets a n h hi hi'
    → Pending n c x l h
    → ((b m : ℕ) → Pending m (d b m) (ms b m) (lo b m) (hi b m))
    → (b m : ℕ) → Pending m (d' b m) (ms' b m) (lo' b m) (hi' b m)
Pending-Sets a n {c} {x} {l} {h} s₁ s₂ s₃ s₄ here there b m =
    rw (s₁.value b m, s₂.value b m, s₃.value b m, s₄.value b m)
      (elim (Bool-cases (a == b && n == m)) [
        | inl hit ↦
            (let e : n ≡ m = ground (arith, hit) in rw hit (subst (λ k. Pending k c x l h) e here))
        | inr miss ↦ rw miss (there b m)
      ])

-- How the sizes change when a node pushes objects.
module _ {A : Type 0} (s : Cluster A) (n : ℕ) (r : Repository A) (k : ℕ)
    (longer : length r.data_ ≡ size s n + k) where
  abbrev pub sizes : ℕ → ℕ
  sizes m = length (update n r s.repositories m).data_

  pub sizes-grow : (m : ℕ) → size s m ≤ sizes m
  sizes-grow m = elim (Bool-cases (n == m)) [
    | inl hit ↦
        (let e : n ≡ m = ground (arith, hit) in rw hit (omega (arith, longer, ap (size s) e)))
    | inr miss ↦ rw miss (omega arith)
  ]

  pub sizes-at : sizes n ≡ size s n + k
  sizes-at = rw (==_refl n) longer

module _ {A : Type 0} (s : Cluster A) (gs : List ℕ) (v : Inv s gs) where
  -- A node has pushed one object and gives its GUID.
  pushed-Inv :
      (n : ℕ) (ptr : Option A) (p : ℕ × Repository A)
      → push_objects n (ptr ∷ []) (s.repositories n) ≡ some p
      → Inv (at_node n s p).1 ((at_node n s p).0 ++ gs)
  unfolding at_node
  pushed-Inv n ptr p h =
      let (same, longer, small, fits) = push_objects-Pushes n (ptr ∷ []) (s.repositories n) p h in
      let grown = Ledger-grow (size s) v.lo v.hi gs v.ledger _ (sizes-grow s n p.1 1 longer) in
      record {
        lo = v.lo;
        hi = v.hi;
        ledger =
            subst (λ g. Ledger (sizes s n p.1 1 longer) v.lo v.hi (g ∷ gs)) (sym same)
              (Ledger-issue _ v.lo v.hi gs grown n (size s n) small fits (v.ledger.low n)
                (omega (arith, sizes-at s n p.1 1 longer))
                (v.ledger.future n (size s n) (omega arith) fits)
                (λ a p q. omega (arith, (v.ledger.within a n (size s n) p q).1)));
        pending = v.pending;
      }

  pub local_add-Inv :
      (n : ℕ) (ptr : Option A) (o : List ℕ × Cluster A)
      → local_add n ptr s ≡ some o
      → Inv o.1 (o.0 ++ gs)
  unfolding local_add add_object
  local_add-Inv n ptr o h =
      let (p, pushed, given) = >>=-eq-some (add_object n ptr (s.repositories n)) _ h in
      subst (λ o. Inv o.1 (o.0 ++ gs)) (some-inj given) (pushed-Inv n ptr p pushed)

  pub local_reserve-Inv :
      (n : ℕ) (o : List ℕ × Cluster A) → local_reserve n s ≡ some o → Inv o.1 (o.0 ++ gs)
  unfolding local_reserve preallocate_object
  local_reserve-Inv n o h =
      let (p, pushed, given) = >>=-eq-some (preallocate_object n (s.repositories n)) _ h in
      subst (λ o. Inv o.1 (o.0 ++ gs)) (some-inj given) (pushed-Inv n none p pushed)

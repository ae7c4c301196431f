-- ===== src/Distributed/Cache/Served.antt =====
-- A reservation is served (`reserve_guid` of include/distributed/object_cache.h and the handler of
-- `CMD_allocate_guid`).
use ocr_vx.Prelude.{
  ℕ, ◌+◌, ◌^◌, ◌<◌, ◌≡◌, ◌∙◌, sym, ap, subst, inl, inr, refl, arith, List, [], ◌∷◌, true, false,
  Option, none, some, ==_refl, ==_iff, count, ◌==◌, Bool-cases, replicate,
}
use ocr_vx.Distributed.Guid.{get_node_id}
use ocr_vx.Distributed.Repository.{Repository, preallocate_object, preallocate_objects}
use ocr_vx.Distributed.Cache.{
  Cluster, new_cluster, ClusterEvent, reserve, serve, receive, run, cluster_step, no_message,
  allocate_guid, allocated_guid, NodeDataContainer, preallocate_count, local_reserve, at_node,
  take_or_ask, with_container, guid_lt, reserve_guid, serve_request, receive_reply, update, update₂,
}
use ocr_vx.Distributed.Cache.Ledger.{word, count-head}
use ocr_vx.Distributed.Cache.Words.{Block, guid_lt-word, guid_lt_irrefl}
use ocr_vx.Distributed.Cache.Invariant.{Inv, size, Pending}
use ocr_vx.Distributed.Cache.Steps.{run-Inv}
use ocr_vx.Distributed.Cache.Cases.{update₂-at}
use ocr_vx.Distributed.Cache.Unique.{new_cluster-Inv, word-on_node}
use ocr_vx.Distributed.Cache.Returns.{push_objects-some, take_next-some, refill-some}

-- A reservation, and the owner's answer if it is asked.
abbrev pub exchange : {A : Type 0} → ℕ → ℕ → List (ClusterEvent A)
exchange a n = reserve a n ∷ serve a n ∷ receive a n ∷ []

module _ {A : Type 0} (a n : ℕ) (small : n < 2 ^ 32) where
  -- One GUID of `n` is handed out, and no request is pending.
  abbrev pub GivesOne : List ℕ → Option (List ℕ × Cluster A) → Type 0
  GivesOne gs o =
      (x : ℕ) × (s : Cluster A) × (o ≡ some (word n x ∷ gs, s))
      × (x < 2 ^ 31)
      × (s.messages a n ≡ no_message)

  quiet :
      (gs : List ℕ) (s : Cluster A)
      → s.messages a n ≡ no_message
      → run (serve a n ∷ receive a n ∷ []) gs s ≡ some (gs, s)
  unfolding run cluster_step serve_request receive_reply
  quiet gs s h = rw (h, h) refl

  local_reserve-GivesOne :
      (s : Cluster A)
      → s.messages a n ≡ no_message
      → size s n < 2 ^ 31
      → GivesOne [] (local_reserve n s)
  unfolding local_reserve preallocate_object at_node
  local_reserve-GivesOne s idle fits =
      let (r, pushed) = push_objects-some n (none ∷ []) (s.repositories n) small fits in
      (size s n, record s { repositories = update n r s.repositories }, rw pushed refl, fits, idle)

  serve_request-some :
      (s : Cluster A)
      → size s n + preallocate_count < 2 ^ 31
      → (r : Repository A) × (serve_request a n s allocate_guid
          ≡ some (
            [],
            record s {
              repositories = update n r s.repositories;
              messages = update₂ a n (allocated_guid (word n (size s n))) s.messages;
            },
          ))
  unfolding serve_request preallocate_objects
  serve_request-some s fits =
      let (r, pushed) =
        push_objects-some n (replicate preallocate_count none) (s.repositories n) small
          (omega (arith, fits)) in
      (r, rw pushed refl)

  receive_reply-some :
      (x : ℕ) (s : Cluster A)
      → x + preallocate_count < 2 ^ 31
      → (c : NodeDataContainer) × (receive_reply a n s (allocated_guid (word n x))
          ≡ some (
            word n x ∷ [],
            record s {
              data_ = update₂ a n c s.data_;
              messages = update₂ a n no_message s.messages;
            },
          ))
  unfolding receive_reply with_container
  receive_reply-some x s fits =
      let (filled_c, filled, block) = refill-some n x (s.data_ a n) small fits in
      let (c, taken) = take_next-some n x (x + preallocate_count) filled_c block in
      (c, rw (filled, taken) refl)

  -- The owner's answer.
  fetch-GivesOne :
      (gs : List ℕ) (s : Cluster A)
      → s.messages a n ≡ allocate_guid
      → size s n + preallocate_count < 2 ^ 31
      → GivesOne gs (run (serve a n ∷ receive a n ∷ []) gs s)
  unfolding run cluster_step
  fetch-GivesOne gs s asked fits =
      let (r, served) = serve_request-some s fits in
      let s₁ : Cluster A = record s {
        repositories = update n r s.repositories;
        messages = update₂ a n (allocated_guid (word n (size s n))) s.messages;
      } in
      let (c, received) = receive_reply-some (size s n) s₁ fits in
      (
        size s n,
        record s₁ { data_ = update₂ a n c s₁.data_; messages = update₂ a n no_message s₁.messages },
        rw (asked, served, update₂-at a n (allocated_guid (word n (size s n))) s.messages, received)
            refl,
        omega (arith, fits),
        update₂-at a n no_message s₁.messages,
      )

  given_at_once :
      (gs : List ℕ) (s : Cluster A)
      → GivesOne [] (reserve_guid a n s)
      → GivesOne gs (run (exchange a n) gs s)
  unfolding run cluster_step
  given_at_once gs s (x, s', given, fits, idle) =
      (x, s', rw given (quiet (word n x ∷ gs) s' idle), fits, idle)

  take-GivesOne :
      (lo hi : ℕ) (s : Cluster A)
      → s.messages a n ≡ no_message
      → Block n (s.data_ a n) lo hi
      → GivesOne [] (take_or_ask a n (s.data_ a n) s)
  unfolding take_or_ask with_container
  take-GivesOne lo hi s idle b =
      let (c, taken) = take_next-some n lo hi (s.data_ a n) b in
      let some_left : guid_lt (s.data_ a n).preallocation_next (s.data_ a n).preallocation_max
          ≡ true =
        rw (b.next_eq, b.max_eq) (guid_lt-word n lo hi b.nonempty b.node_fits b.fits) in
      (
        lo,
        record s { data_ = update₂ a n c s.data_ },
        rw (some_left, taken) refl,
        omega (arith, b.nonempty, b.fits),
        idle,
      )

  asked_state : Cluster A → Cluster A
  asked_state s = record s {
    data_ = update₂ a n (record (s.data_ a n) { preallocations_mutex = true }) s.data_;
    messages = update₂ a n allocate_guid s.messages;
  }

  asks :
      (s : Cluster A)
      → (s.data_ a n).preallocation_next ≡ (s.data_ a n).preallocation_max
      → take_or_ask a n (s.data_ a n) s ≡ some ([], asked_state s)
  unfolding take_or_ask asked_state
  asks s same =
      let used_up : guid_lt (s.data_ a n).preallocation_next (s.data_ a n).preallocation_max
          ≡ false =
        rw same (guid_lt_irrefl (s.data_ a n).preallocation_max) in
      rw used_up refl

  given_by_owner :
      (gs : List ℕ) (s : Cluster A)
      → reserve_guid a n s ≡ some ([], asked_state s)
      → size s n + preallocate_count < 2 ^ 31
      → GivesOne gs (run (exchange a n) gs s)
  unfolding run cluster_step asked_state
  given_by_owner gs s asked fits =
      let (x, s', given, small_x, idle) =
        fetch-GivesOne gs (asked_state s) (update₂-at a n allocate_guid s.messages) fits in
      (x, s', rw asked given, small_x, idle)

  remote :
      (s : Cluster A)
      → (n == a) ≡ false
      → (s.data_ a n).preallocations_mutex ≡ false
      → reserve_guid a n s ≡ take_or_ask a n (s.data_ a n) s
  unfolding reserve_guid
  remote s there unlocked = rw (there, unlocked) refl

  home_reserve : (s : Cluster A) → (n == a) ≡ true → reserve_guid a n s ≡ local_reserve n s
  unfolding reserve_guid
  home_reserve s here =
      let e : n ≡ a = (==_iff n a).0 here in rw here (ap (λ k. local_reserve k s) (sym e))

  exchange-GivesOne :
      (gs : List ℕ) (s : Cluster A)
      → Inv s gs
      → s.messages a n ≡ no_message
      → size s n + preallocate_count < 2 ^ 31
      → GivesOne gs (run (exchange a n) gs s)
  exchange-GivesOne gs s v idle fits = elim (Bool-cases (n == a)) [
    | inl here ↦ given_at_once gs s (
        subst (GivesOne []) (sym (home_reserve s here))
          (local_reserve-GivesOne s idle (omega (arith, fits))))
    | inr there ↦
        let (unlocked, left) =
          subst (λ m. Pending n (s.data_ a n) m (v.lo a n) (v.hi a n)) idle (v.pending a n) in
        elim left [
          | inl (same, empty) ↦ given_by_owner gs s (remote s there unlocked ∙ asks s same) fits
          | inr block ↦ given_at_once gs s (
              subst (GivesOne []) (sym (remote s there unlocked))
                (take-GivesOne (v.lo a n) (v.hi a n) s idle block))
        ]
  ]

-- A GUID of `n` that was not given before.
pub record Served {A : Type 0} (nodes n : ℕ) (gs : List ℕ) (o : Option (List ℕ × Cluster A))
    : Type 0 where
  pub reserved : ℕ
  pub after : Cluster A
  pub returns : o ≡ some (reserved ∷ gs, after)
  pub on_node : get_node_id 32 nodes reserved ≡ some n
  pub new : count reserved gs ≡ 0

-- Whatever the nodes have done before: when a node with no pending request reserves a GUID of a node,
-- and the owner serves the request and the reply is received, no assertion fails and one GUID is
-- handed out, which is of that node and was never handed out before. (The owner must have fewer than
-- 2 ^ 31 - 128 objects, and its number fit in 32 bits.)
pub exchange-Served :
    {A : Type 0} (nodes a n : ℕ) (es : List (ClusterEvent A)) (gs : List ℕ) (s : Cluster A)
    → run es [] new_cluster ≡ some (gs, s)
    → n < 2 ^ 32
    → size s n + preallocate_count < 2 ^ 31
    → s.messages a n ≡ no_message
    → Served nodes n gs (run (exchange a n) gs s)
exchange-Served nodes a n es gs s h small fits idle =
    let v = run-Inv es new_cluster [] (gs, s) new_cluster-Inv h in
    let (x, after, returns, small_x, _) = exchange-GivesOne a n small gs s v idle fits in
    let v' = run-Inv (exchange a n) s gs (word n x ∷ gs, after) v returns in
    record {
      reserved = word n x;
      after = after;
      returns = returns;
      on_node = (word-on_node nodes n x small small_x).1;
      new = omega (
        arith,
        v'.ledger.once (word n x),
        count-head (word n x) (word n x) gs (==_refl (word n x)),
      );
    }

-- ===== src/Distributed/Cache/Steps.antt =====
-- Every step of the nodes keeps the ledger (include/distributed/object_cache.h).
use ocr_vx.Prelude.{
  ℕ, ◌+◌, ◌^◌, ◌≤◌, ◌<◌, ◌≡◌, sym, ap, subst, ◌⊎◌, inl, inr, refl, arith, List, [], ◌∷◌, ◌++◌, ◌==◌,
  true, Bool-cases, ◌&&◌, none, some, length, replicate,
}
use ocr_vx.Prelude.Options.{>>=-eq-some, some-inj}
use ocr_vx.Distributed.Repository.{preallocate_objects}
use ocr_vx.Distributed.Cache.{
  NodeDataContainer, Message, no_message, allocate_guid, allocated_guid, Cluster, take_next, refill,
  guid_lt, preallocate_count, update₂, with_container, take_or_ask, reserve_guid, serve_request,
  receive_reply, ClusterEvent, add, reserve, serve, receive, cluster_step, run,
}
use ocr_vx.Distributed.Cache.Ledger.{Ledger, Ledger-issue, Ledger-shrink, Ledger-claim}
use ocr_vx.Distributed.Cache.Words.{push_objects-Pushes, Block, Left, take_next-Left, refill-Block}
use ocr_vx.Distributed.Cache.Invariant.{
  Pending, size, Inv, Sets, Sets-update₂, Sets-same, Pending-Sets, sizes, sizes-grow, sizes-at,
  local_add-Inv, local_reserve-Inv,
}
use ocr_vx.Distributed.Cache.Cases.{update₂-at, shrinks, Left-Block, Left-empty, Pending-cases}

module _ {A : Type 0} (s : Cluster A) (gs : List ℕ) (v : Inv s gs) (a n : ℕ) where
  -- No node has the number that `a` gives up.
  taken_apart :
      (b : ℕ)
      → v.lo a n < v.hi a n
      → update₂ a n (v.lo a n + 1) v.lo b n ≤ v.lo a n
      → v.lo a n < v.hi b n
      → ⊥
  taken_apart b nonempty p q =
      let e =
        v.ledger.apart b a n (v.lo a n) (omega (arith, shrinks a n v.lo b n, p)) q (omega arith)
          nonempty in
      omega (
        arith,
        p,
        ap (λ j. update₂ a n (v.lo a n + 1) v.lo j n) e,
        update₂-at a n (v.lo a n + 1) v.lo,
      )

  -- The next of the numbers that `a` has is handed out.
  take-Inv :
      (c : NodeDataContainer) (ms : ℕ → ℕ → Message) (p : ℕ × NodeDataContainer)
      → Block n c (v.lo a n) (v.hi a n)
      → Sets a n no_message s.messages ms
      → take_next n c ≡ some p
      → Inv
          (with_container a n (record s { messages = ms }) p).1
          ((with_container a n (record s { messages = ms }) p).0 ++ gs)
  unfolding with_container
  take-Inv c ms p b sets h =
      let (same, unlocked, left) = take_next-Left n (v.lo a n) (v.hi a n) c p b h in
      let mine = v.ledger.within a n (v.lo a n) (omega arith) b.nonempty in
      let fits : v.lo a n < 2 ^ 31 = omega (arith, b.nonempty, b.fits) in
      let lo' : ℕ → ℕ → ℕ = update₂ a n (v.lo a n + 1) v.lo in
      record {
        lo = lo';
        hi = v.hi;
        ledger =
            subst (λ g. Ledger (size s) lo' v.hi (g ∷ gs)) (sym same)
              (Ledger-issue (size s) lo' v.hi gs
                (Ledger-shrink (size s) v.lo v.hi gs v.ledger lo' (shrinks a n v.lo)) n (v.lo a n)
                b.node_fits fits mine.0 mine.1
                (v.ledger.fresh a n (v.lo a n) (omega arith) b.nonempty fits)
                (λ b' q r. taken_apart b' b.nonempty q r));
        pending =
            Pending-Sets a n (Sets-update₂ a n p.1 s.data_) sets
              (Sets-update₂ a n (v.lo a n + 1) v.lo) (Sets-same a n v.hi) (unlocked, left)
              v.pending;
      }

  -- `a` asks the owner for more.
  ask-Inv :
      v.lo a n ≡ v.hi a n
      → Inv
          (record s {
            data_ = update₂ a n (record (s.data_ a n) { preallocations_mutex = true }) s.data_;
            messages = update₂ a n allocate_guid s.messages;
          })
          gs
  ask-Inv empty = record {
    lo = v.lo;
    hi = v.hi;
    ledger = v.ledger;
    pending =
        Pending-Sets a n (Sets-update₂ a n _ s.data_) (Sets-update₂ a n allocate_guid s.messages)
          (Sets-same a n v.lo) (Sets-same a n v.hi) (refl, empty) v.pending;
  }

  take_or_ask-Inv :
      (o : List ℕ × Cluster A)
      → s.messages a n ≡ no_message
      → Left n (s.data_ a n) (v.lo a n) (v.hi a n)
      → take_or_ask a n (s.data_ a n) s ≡ some o
      → Inv o.1 (o.0 ++ gs)
  unfolding take_or_ask
  take_or_ask-Inv o idle left h =
      elim (Bool-cases (guid_lt (s.data_ a n).preallocation_next (s.data_ a n).preallocation_max)) [
        | inl some_left ↦
            let (p, taken, given) = >>=-eq-some (take_next n (s.data_ a n)) _ (rw some_left at h) in
            subst (λ o. Inv o.1 (o.0 ++ gs)) (some-inj given)
              (take-Inv (s.data_ a n) s.messages p (Left-Block n _ _ _ left some_left)
                (subst (λ m. Sets a n m s.messages s.messages) idle (Sets-same a n s.messages))
                taken)
        | inr used_up ↦
            subst (λ o. Inv o.1 (o.0 ++ gs)) (some-inj (rw used_up at h))
              (ask-Inv (Left-empty n _ _ _ left used_up))
      ]

  reserve_guid-Inv : (o : List ℕ × Cluster A) → reserve_guid a n s ≡ some o → Inv o.1 (o.0 ++ gs)
  unfolding reserve_guid take_or_ask take_next
  reserve_guid-Inv o h = elim (Bool-cases (n == a)) [
    | inl here ↦ local_reserve-Inv s gs v a o (rw here at h)
    | inr there ↦ elim (Pending-cases n (s.data_ a n) _ _ (s.messages a n) (v.pending a n)) [
      | inl (idle, unlocked, left) ↦ take_or_ask-Inv o idle left (rw unlocked at (rw there at h))
      | inr locked ↦ subst (λ o. Inv o.1 (o.0 ++ gs)) (some-inj (rw locked at (rw there at h))) v
    ]
  ]

  claimed :
      (l h b m : ℕ)
      → ((a ≡ b) × (n ≡ m) × (update₂ a n l v.lo b m ≡ l) × (update₂ a n h v.hi b m ≡ h))
        ⊎ ((update₂ a n l v.lo b m ≡ v.lo b m) × (update₂ a n h v.hi b m ≡ v.hi b m))
  claimed l h b m = elim (Bool-cases (a == b && n == m)) [
    | inl hit ↦
        inl (ground (arith, hit), ground (arith, hit), ground (arith, hit), ground (arith, hit))
    | inr miss ↦ inr (ground (arith, miss), ground (arith, miss))
  ]

  serve_request-Inv :
      (m : Message) (o : List ℕ × Cluster A)
      → s.messages a n ≡ m
      → serve_request a n s m ≡ some o
      → Inv o.1 (o.0 ++ gs)
  unfolding serve_request preallocate_objects
  serve_request-Inv no_message o e h = subst (λ o. Inv o.1 (o.0 ++ gs)) (some-inj h) v
  serve_request-Inv (allocated_guid g) o e h = subst (λ o. Inv o.1 (o.0 ++ gs)) (some-inj h) v
  serve_request-Inv allocate_guid o e h =
      let (p, pushed, given) =
        >>=-eq-some (preallocate_objects n preallocate_count (s.repositories n)) _ h in
      let (same, longer, small, fits) =
        push_objects-Pushes n (replicate preallocate_count none) (s.repositories n) p pushed in
      let longer' : length p.1.data_ ≡ size s n + preallocate_count = longer in
      let (locked, empty) =
        subst (λ m. Pending n (s.data_ a n) m (v.lo a n) (v.hi a n)) e (v.pending a n) in
      subst (λ o. Inv o.1 (o.0 ++ gs)) (some-inj given)
        (record {
          lo = update₂ a n (size s n) v.lo;
          hi = update₂ a n (size s n + preallocate_count) v.hi;
          ledger =
              Ledger-claim (size s) v.lo v.hi gs v.ledger a n preallocate_count
                (sizes s n p.1 preallocate_count longer') _ _
                (sizes-grow s n p.1 preallocate_count longer')
                (omega (arith, sizes-at s n p.1 preallocate_count longer'))
                (claimed (size s n) (size s n + preallocate_count));
          pending =
              Pending-Sets a n (Sets-same a n s.data_)
                (Sets-update₂ a n (allocated_guid p.0) s.messages)
                (Sets-update₂ a n (size s n) v.lo)
                (Sets-update₂ a n (size s n + preallocate_count) v.hi)
                (locked, same, refl, small, fits) v.pending;
        })

  receive_reply-Inv :
      (m : Message) (o : List ℕ × Cluster A)
      → s.messages a n ≡ m
      → receive_reply a n s m ≡ some o
      → Inv o.1 (o.0 ++ gs)
  unfolding receive_reply
  receive_reply-Inv no_message o e h = subst (λ o. Inv o.1 (o.0 ++ gs)) (some-inj h) v
  receive_reply-Inv allocate_guid o e h = subst (λ o. Inv o.1 (o.0 ++ gs)) (some-inj h) v
  receive_reply-Inv (allocated_guid g) o e h =
      let (ndc, refilled, rest) = >>=-eq-some (refill n g (s.data_ a n)) _ h in
      let (p, taken, given) = >>=-eq-some (take_next n ndc) _ rest in
      let (locked, same, far, small, fits) =
        subst (λ m. Pending n (s.data_ a n) m (v.lo a n) (v.hi a n)) e (v.pending a n) in
      let block : Block n ndc (v.lo a n) (v.hi a n) =
        subst (λ h. Block n ndc (v.lo a n) h) (sym far)
          (refill-Block n (v.lo a n) (s.data_ a n) ndc small fits
            (subst (λ g. refill n g (s.data_ a n) ≡ some ndc) same refilled)) in
      subst (λ o. Inv o.1 (o.0 ++ gs)) (some-inj given)
        (take-Inv ndc (update₂ a n no_message s.messages) p block
          (Sets-update₂ a n no_message s.messages) taken)

pub cluster_step-Inv :
    {A : Type 0} (e : ClusterEvent A) (s : Cluster A) (gs : List ℕ) (o : List ℕ × Cluster A)
    → Inv s gs
    → cluster_step e s ≡ some o
    → Inv o.1 (o.0 ++ gs)
unfolding cluster_step
cluster_step-Inv (add n ptr) s gs o v h = local_add-Inv s gs v n ptr o h
cluster_step-Inv (reserve a n) s gs o v h = reserve_guid-Inv s gs v a n o h
cluster_step-Inv (serve a n) s gs o v h = serve_request-Inv s gs v a n (s.messages a n) o refl h
cluster_step-Inv (receive a n) s gs o v h = receive_reply-Inv s gs v a n (s.messages a n) o refl h

pub run-Inv :
    {A : Type 0} (es : List (ClusterEvent A)) (s : Cluster A) (gs : List ℕ) (o : List ℕ × Cluster A)
    → Inv s gs
    → run es gs s ≡ some o
    → Inv o.1 o.0
unfolding run
run-Inv [] s gs o v h = subst (λ o. Inv o.1 o.0) (some-inj h) v
run-Inv (e ∷ es) s gs o v h =
    let (p, one, rest) = >>=-eq-some (cluster_step e s) _ h in
    run-Inv es p.1 (p.0 ++ gs) o (cluster_step-Inv e s gs p v one) rest

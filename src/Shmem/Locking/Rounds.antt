-- ===== src/Shmem/Locking/Rounds.antt =====
-- A task that tries to lock its blocks in order gets them all, or waits for one of them
-- (`try_lock_all__locked` in include/shmem/ocr_tbb_locking.h).
use ocr_vx.Prelude.{
  ap, get_elem?, ◌≤◌, ◌<◌, ==_iff, ==_refl, sym, ℕ, zero, suc, ◌+◌, ◌^◌, ◌<◌, ◌≤◌, Bool, true,
  false, some, ◌==◌, ◌≡◌, ◌⊎◌, inl, inr, refl, arith, ==_iff, ==_refl, Bool-cases, sym, ◌∙◌, subst,
}
use ocr_vx.Prelude.Options.{some-inj}
use ocr_vx.One.Types.{Mode}
use ocr_vx.Shmem.Locking.{
  NodeData, done, DbData, NodeData, LockGraph, set_db_data, set_node_data, try_lock,
}
use ocr_vx.Shmem.Locking.Block.{
  Phase, rest, Tried-cases, try_lock-Tried, Counts, WaitsAreBlocked, SameLists, n_shared, n_const,
  n_ew,
}
use ocr_vx.Shmem.Locking.Calls.{next_lock, acquire_next, rounds_left, lock_rounds}
use ocr_vx.Shmem.Locking.Consistent.{
  HoldsAs, IsConsistent, Behind, Holders, held, hold, shared_held, const_held, ew_held,
}
use ocr_vx.Shmem.Locking.Acquire.{
  next_lock-some, acquired-IsConsistent, acquire_next-Behind, Behind-lt, still_behind,
}
use ocr_vx.Shmem.Locking.Enqueue.{finished-IsConsistent}
use ocr_vx.Shmem.Locking.Attempts.{
  SamePlan, hold-kept_mode, hold-HoldsAs, Locked, Succeeds, Ready, no_rounds, more_rounds,
  Succeeds-map, held-hold, hold-kept, other, null, at_rest, waits-Locked, lock_rounds-granted,
  lock_rounds-refused,
}

module _ (s : LockGraph) (phase after : ℕ → Phase) (holders : ℕ → Holders) (t g : ℕ) (m : Mode)
    (e : DbData) (c : IsConsistent s phase (some t) holders)
    (next : next_lock (s.edts t) ≡ some (g, m))
    (counts : Counts e
      (n_shared m + shared_held (holders g))
      (n_const m + const_held (holders g))
      (n_ew m + ew_held (holders g)))
    (blocked : WaitsAreBlocked (after g) e) (same : SameLists (s.dbs g) e)
    (others : (h : ℕ) → (h == g) ≡ false → after h ≡ phase h)
    (ready : (h : ℕ) → (h == g) ≡ false → (after h ≡ rest) ⊎ Behind (s.edts t) h) where
  abbrev pub with_lock : LockGraph
  with_lock = set_node_data (set_db_data s g e) t (acquire_next (s.edts t))

  pub with_lock-IsConsistent : IsConsistent with_lock after (some t) (hold holders g t m)
  with_lock-IsConsistent =
      acquired-IsConsistent s phase after holders t g m e c next counts blocked same others

  mine : (b : NodeData → Type 0) → b (acquire_next (s.edts t)) → b (with_lock.edts t)
  mine b h = rw (==_refl t) h

  behind_before : (h : ℕ) → Behind (s.edts t) h → Behind (with_lock.edts t) h
  behind_before h b =
      still_behind s phase after holders t g m e c next counts blocked same others h t b

  pub with_lock-Ready : Ready with_lock after t
  with_lock-Ready h = elim (Bool-cases (h == g)) [
    | inl here ↦ inr (
        rw ((==_iff h g).0 here, ==_refl t)
          (acquire_next-Behind (s.edts t) g g m (c.tasks t) next (omega arith)))
    | inr there ↦ elim (ready h there) [
      | inl at_rest ↦ inl at_rest
      | inr b ↦ inr (behind_before h b)
    ]
  ]

  pub with_lock-left : (n : ℕ) → rounds_left (s.edts t) ≡ suc n → rounds_left (with_lock.edts t) ≡ n
  with_lock-left n left = rw (==_refl t) (omega (arith, left))

  fewer_rounds : (u : ℕ) → rounds_left (with_lock.edts u) ≤ rounds_left (s.edts u)
  fewer_rounds u = elim (Bool-cases (u == t)) [
    | inl me ↦ rw me (rw ((==_iff u t).0 me) (omega arith))
    | inr idle ↦ rw idle (omega arith)
  ]

  same_before : (h : ℕ) → Behind (s.edts t) h → with_lock.dbs h ≡ s.dbs h
  same_before h b = rw (other g h (Behind-lt (s.edts t) g h m next b)) refl

  plan_before : (e : NodeData) → SamePlan (with_lock.edts t) e → SamePlan (s.edts t) e
  plan_before e = rw (==_refl t) (λ (k : SamePlan (acquire_next (s.edts t)) e). k)

  compared :
      (i : ℕ) → (s.edts t).acquired ≤ i → (i ≡ (s.edts t).acquired) ⊎ ((s.edts t).acquired + 1 ≤ i)
  compared i p = elim (Bool-cases (i == (s.edts t).acquired)) [
    | inl now ↦ inl ((==_iff i _).0 now)
    | inr later ↦ inr (ground (arith, p, later))
  ]

  -- The block of this round, or one of a later round
  passed :
      (n : ℕ) (all : Bool) (s' : LockGraph)
      (l : Locked with_lock after (hold holders g t m) t n all s') (i h : ℕ) (k : Mode)
      → (i ≡ (s.edts t).acquired) ⊎ ((s.edts t).acquired + 1 ≤ i)
      → i < (s'.edts t).acquired
      → get_elem? (s.edts t).ordered_guids i ≡ some h
      → get_elem? (s.edts t).lock_modes i ≡ some k
      → HoldsAs t k (l.after h)
  passed n all s' l i h k (inl now) q at_i mode =
      let (has_g, has_m) = next_lock-some (s.edts t) g m next in
      let same_g : g ≡ h =
        some-inj (sym has_g ∙ ap (get_elem? (s.edts t).ordered_guids) (sym now) ∙ at_i) in
      let same_m : m ≡ k =
        some-inj (sym has_m ∙ ap (get_elem? (s.edts t).lock_modes) (sym now) ∙ mode) in
      l.kept_mode h t k (
        subst (λ x. HoldsAs t k (hold holders g t m x)) same_g
          (subst (λ x. HoldsAs t x (hold holders g t m g)) same_m (hold-HoldsAs holders g t m)))
  passed n all s' l i h k (inr later) q at_i mode =
      l.has i h k (rw (==_refl t) later) q (rw (==_refl t) at_i) (rw (==_refl t) mode)

  pub with_lock-Locked :
      (n : ℕ) (all : Bool) (s' : LockGraph)
      → Locked with_lock after (hold holders g t m) t n all s'
      → Locked s after holders t (suc n) all s'
  with_lock-Locked n all s' l = record {
    after = l.after;
    consistent = l.consistent;
    has_all = l.has_all;
    same_behind = λ h b. l.same_behind h (behind_before h b) ∙ same_before h b;
    fewer = λ u. omega (arith, l.fewer u, fewer_rounds u);
    room = λ h. omega (arith, l.room h, held-hold holders g t m h);
    kept = λ h u k. l.kept h u (hold-kept holders g t m h u k);
    same_spawned = l.same_spawned;
    same_plan = plan_before (s'.edts t) l.same_plan;
    kept_mode = λ h u k p. l.kept_mode h u k (hold-kept_mode holders g t m h u k p);
    has = λ i h k p q at_i mode. passed n all s' l i h k (compared i p) q at_i mode;
  }

  with_lock-small :
      (n : ℕ)
      → ((h : ℕ) → held (holders h) + suc n < 2 ^ 32)
      → (h : ℕ) → held (hold holders g t m h) + n < 2 ^ 32
  with_lock-small n small h = omega (arith, small h, held-hold holders g t m h)

  -- The rounds after the one that is granted
  abbrev pub LaterRounds : ℕ → Type 0
  LaterRounds n =
      IsConsistent with_lock after (some t) (hold holders g t m)
      → Ready with_lock after t
      → rounds_left (with_lock.edts t) ≡ n
      → ((h : ℕ) → held (hold holders g t m h) + n < 2 ^ 32)
      → Succeeds (λ r. Locked with_lock after (hold holders g t m) t n r.0 r.1)
          (lock_rounds n t with_lock)

  pub later_rounds :
      (n : ℕ)
      → rounds_left (s.edts t) ≡ suc n
      → ((h : ℕ) → held (holders h) + suc n < 2 ^ 32)
      → LaterRounds n
      → Succeeds
          (λ r. Locked with_lock after (hold holders g t m) t n r.0 r.1)
          (lock_rounds n t with_lock)
  later_rounds n left small later =
      later with_lock-IsConsistent with_lock-Ready (with_lock-left n left) (with_lock-small n small)

  pub granted-Locked :
      (n : ℕ)
      → try_lock m (s.dbs g) ≡ done (true, e)
      → rounds_left (s.edts t) ≡ suc n
      → ((h : ℕ) → held (holders h) + suc n < 2 ^ 32)
      → LaterRounds n
      → Succeeds (λ r. Locked s after holders t (suc n) r.0 r.1) (lock_rounds (suc n) t s)
  granted-Locked n granted left small later =
      rw (lock_rounds-granted n t s g m next e granted)
        (Succeeds-map _ _ _ (λ r. with_lock-Locked n r.0 r.1) (later_rounds n left small later))

pub lock_rounds-Locked :
    (n : ℕ) (s : LockGraph) (phase : ℕ → Phase) (holders : ℕ → Holders) (t : ℕ)
    → IsConsistent s phase (some t) holders
    → Ready s phase t
    → rounds_left (s.edts t) ≡ n
    → ((h : ℕ) → held (holders h) + n < 2 ^ 32)
    → Succeeds (λ r. Locked s phase holders t n r.0 r.1) (lock_rounds n t s)
unfolding lock_rounds Succeeds
lock_rounds-Locked zero s phase holders t c ready left small = record {
  after = holders;
  consistent = finished-IsConsistent s phase holders t c (no_rounds (s.edts t) left);
  has_all = (λ h. no_rounds (s.edts t) left, λ h. refl);
  same_behind = λ h b. refl;
  fewer = λ u. omega arith;
  room = λ h. omega arith;
  kept = λ h u k. k;
  same_spawned = refl;
  same_plan = (refl, refl, refl);
  kept_mode = λ h u n k. k;
  has = λ i h n p q. absurd (omega (arith, p, q));
}
lock_rounds-Locked (suc n) s phase holders t c ready left small =
    let (g, m, next) = more_rounds (s.edts t) n (c.tasks t) left in
    let locks = null s phase holders t c ready g m next in
    let at_g = at_rest s phase holders t c ready g m next in
    elim (Tried-cases m (s.dbs g) _ _ _ (try_lock m (s.dbs g)) (
      try_lock-Tried (s.dbs g) _ _ _ (c.counts g) (omega (arith, small g)) m locks
        (subst (λ p. WaitsAreBlocked p (s.dbs g)) at_g (c.blocked g)))) [
          | inl (e, granted, counts, blocked, same) ↦
              granted-Locked s phase phase holders t g m e c next counts
                (subst (λ p. WaitsAreBlocked p e) (sym at_g) blocked) same (λ h d. refl)
                (λ h d. ready h) n granted left small
                (lock_rounds-Locked n _ phase (hold holders g t m) t)
          | inr (refused, excluded) ↦
              rw (lock_rounds-refused n t s g m next locks refused)
                (waits-Locked s phase holders t c ready g m next (suc n) excluded)
        ]

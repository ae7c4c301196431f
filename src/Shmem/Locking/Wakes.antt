-- ===== src/Shmem/Locking/Wakes.antt =====
-- The tasks that are woken when a block becomes free (`unlock` in include/shmem/ocr_tbb_locking.h): no
-- assertion fails, and waitlists, counters and tasks are consistent after each.
use ocr_vx.Prelude.{
  ℕ, suc, ◌+◌, ◌-◌, ◌^◌, ◌<◌, ◌≤◌, Bool, true, false, Option, none, some, ◌==◌, if◌then◌else◌, ◌≡◌,
  ◌⊎◌, inl, refl, arith, ==_refl, sym, ◌∙◌, subst, get_elem?-bound,
}
use ocr_vx.One.Types.{Mode}
use ocr_vx.Shmem.Locking.{
  LockResult, done, assertion_failed, out_of_fuel, ◌>>=◌, DbData, NodeData, LockGraph, try_lock,
}
use ocr_vx.Shmem.Locking.Block.{
  Phase, rest, Counts, WaitsAreBlocked, SameLists, Grants, n_shared, n_const, n_ew, Grants-cases,
}
use ocr_vx.Shmem.Locking.Calls.{
  next_lock, rounds_left, lock_rounds, try_lock_all, lock_and_spawn, spawn_edt, wake_task,
  acquire_next,
}
use ocr_vx.Shmem.Locking.Consistent.{
  IsConsistent, Behind, Holders, HoldsIn, held, hold, shared_held, const_held, ew_held,
}
use ocr_vx.Shmem.Locking.Acquire.{next_lock-some, acquire_next-Behind}
use ocr_vx.Shmem.Locking.Rounds.{with_lock, with_lock-Locked, later_rounds, lock_rounds-Locked}
use ocr_vx.Shmem.Locking.Attempts.{Locked, Succeeds, Succeeds-map, lock_rounds-granted}

-- Block `g` in a phase, and the others at rest.
abbrev pub at_phase : ℕ → Phase → ℕ → Phase
at_phase g p h = if h == g then p else rest

-- What is so after a task that waited for block `g` has tried again
pub record Woken (s : LockGraph) (g : ℕ) (phase : ℕ → Phase) (holders : ℕ → Holders) (n : ℕ)
    (s' : LockGraph) : Type 0 where
  pub after : ℕ → Holders
  pub consistent : IsConsistent s' phase none after
  pub same : SameLists (s.dbs g) (s'.dbs g)
  pub fewer : (u : ℕ) → rounds_left (s'.edts u) ≤ rounds_left (s.edts u)
  pub room : (h : ℕ) → held (after h) ≤ held (holders h) + n
  pub kept : (h u : ℕ) → HoldsIn u (holders h) → HoldsIn u (after h)

pub Succeeds->>= :
    {A B : Type 0} (P : A → Type 0) (Q : B → Type 0) (r : LockResult A) (f : A → LockResult B)
    → Succeeds P r
    → ((a : A) → P a → Succeeds Q (f a))
    → Succeeds Q (r >>= f)
unfolding Succeeds
Succeeds->>= P Q (done a) f h k = k a h
Succeeds->>= P Q assertion_failed f h k = absurd h
Succeeds->>= P Q out_of_fuel f h k = absurd h

pub spawn_edt-IsConsistent :
    (s : LockGraph) (phase : ℕ → Phase) (trying : Option ℕ) (holders : ℕ → Holders) (t : ℕ)
    → IsConsistent s phase trying holders
    → IsConsistent (spawn_edt t s) phase trying holders
spawn_edt-IsConsistent s phase trying holders t c = record {
  counts = c.counts;
  blocked = c.blocked;
  queued = c.queued;
  tasks = c.tasks;
  behind = c.behind;
}

pub next-rounds_left :
    (e : NodeData) (g : ℕ) (m : Mode)
    → next_lock e ≡ some (g, m)
    → (n : ℕ) × (rounds_left e ≡ suc n)
next-rounds_left e g m next = (
  rounds_left e - 1,
  ground (arith, get_elem?-bound e.ordered_guids e.acquired g (next_lock-some e g m next).0),
)

module _ (s : LockGraph) (q p : Phase) (holders : ℕ → Holders) (t g : ℕ) (m : Mode)
    (c : IsConsistent s (at_phase g q) (some t) holders) (next : next_lock (s.edts t) ≡ some (g, m))
    (grants : Grants m p
      (s.dbs g)
      (shared_held (holders g))
      (const_held (holders g))
      (ew_held (holders g))
      (try_lock m (s.dbs g)))
    (small : (h : ℕ) → held (holders h) + rounds_left (s.edts t) < 2 ^ 32) where
  others : (h : ℕ) → (h == g) ≡ false → at_phase g p h ≡ at_phase g q h
  others h d = rw d refl

  at_rest : (h : ℕ) → (h == g) ≡ false → (at_phase g p h ≡ rest) ⊎ Behind (s.edts t) h
  at_rest h d = inl (rw d refl)

  blocked_here : (e : DbData) → WaitsAreBlocked p e → WaitsAreBlocked (at_phase g p g) e
  blocked_here e b = rw (==_refl g) b

  Result : ℕ → LockGraph → Type 0
  Result n = Woken s g (at_phase g p) holders n

  spawn-Woken :
      (n : ℕ) (all : Bool) (s' : LockGraph)
      → Result n s'
      → Result n (if all then spawn_edt t s' else s')
  unfolding Result
  spawn-Woken n true s' l = record {
    after = l.after;
    consistent = spawn_edt-IsConsistent s' _ _ _ t l.consistent;
    same = l.same;
    fewer = l.fewer;
    room = l.room;
    kept = l.kept;
  }
  spawn-Woken n false s' l = l

  module _ (e : DbData)
      (counts : Counts e
        (n_shared m + shared_held (holders g))
        (n_const m + const_held (holders g))
        (n_ew m + ew_held (holders g)))
      (blocked : WaitsAreBlocked p e) (same : SameLists (s.dbs g) e) where
    same_after :
        (n : ℕ) (all : Bool) (s' : LockGraph)
        → Locked
            (with_lock s
              (at_phase g q)
              (at_phase g p)
              holders
              t
              g
              m
              e
              c
              next
              counts
              (blocked_here e blocked)
              same
              others
              at_rest)
            (at_phase g p)
            (hold holders g t m)
            t
            n
            all
            s'
        → SameLists (s.dbs g) (s'.dbs g)
    same_after n all s' l = subst (SameLists (s.dbs g)) (sym (l.same_behind g (mine) ∙ here)) same
      where
        here : (if g == g then e else s.dbs g) ≡ e
        here = rw (==_refl g) refl

        mine : Behind (if t == t then acquire_next (s.edts t) else s.edts t) g
        mine = rw (==_refl t) (acquire_next-Behind (s.edts t) g g m (c.tasks t) next (omega arith))

    lock-Woken :
        (n : ℕ) (all : Bool) (s' : LockGraph)
        → Locked
            (with_lock s
              (at_phase g q)
              (at_phase g p)
              holders
              t
              g
              m
              e
              c
              next
              counts
              (blocked_here e blocked)
              same
              others
              at_rest)
            (at_phase g p)
            (hold holders g t m)
            t
            n
            all
            s'
        → Result (suc n) s'
    unfolding Result
    lock-Woken n all s' l =
        let whole =
          with_lock-Locked s (at_phase g q) (at_phase g p) holders t g m e c next counts
            (blocked_here e blocked) same others at_rest n all s' l in
        record {
          after = whole.after;
          consistent = whole.consistent;
          same = same_after n all s' l;
          fewer = whole.fewer;
          room = whole.room;
          kept = whole.kept;
        }

    locks_at :
        (n : ℕ)
        → try_lock m (s.dbs g) ≡ done (true, e)
        → rounds_left (s.edts t) ≡ suc n
        → Succeeds (λ r. Result (suc n) r.1) (lock_rounds (suc n) t s)
    locks_at n granted left = rw (lock_rounds-granted n t s g m next e granted) (
        Succeeds-map _ _ _ (λ r l. lock-Woken n r.0 r.1 l)
          (later_rounds s (at_phase g q) (at_phase g p) holders t g m e c next counts
            (blocked_here e blocked) same others at_rest n left (λ h. omega (arith, small h, left))
            (lock_rounds-Locked n _ (at_phase g p) (hold holders g t m) t)))

  locks :
      Succeeds (λ r. Result (rounds_left (s.edts t)) r.1) (lock_rounds (rounds_left (s.edts t)) t s)
  locks =
      let (e, granted, counts, blocked, same) = Grants-cases m p _ _ _ _ _ grants in
      let (n, left) = next-rounds_left (s.edts t) g m next in
      subst (λ k. Succeeds (λ r. Result k r.1) (lock_rounds k t s)) (sym left)
        (locks_at e counts blocked same n granted left)

  wake_task-eq : wake_task g t s ≡ lock_and_spawn t s
  unfolding wake_task
  wake_task-eq = rw ((next_lock-some (s.edts t) g m next).0, wake_task) (rw (==_refl g) refl)

  pub wake_task-Woken :
      Succeeds (Woken s g (at_phase g p) holders (rounds_left (s.edts t))) (wake_task g t s)
  unfolding lock_and_spawn try_lock_all Result Succeeds
  wake_task-Woken = rw wake_task-eq (
      Succeeds->>= (λ r. Result (rounds_left (s.edts t)) r.1) (Result (rounds_left (s.edts t))) _ _
        locks (λ r l. spawn-Woken (rounds_left (s.edts t)) r.0 r.1 l))

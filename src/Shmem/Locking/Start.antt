-- ===== src/Shmem/Locking/Start.antt =====
-- A task whose preslots are all satisfied locks its blocks (`satisfy_event_internal__locked` in
-- include/shmem/ocr_tbb_locking.h).
use ocr_vx.Prelude.{
  ℕ, zero, suc, List, ◌+◌, ◌^◌, ◌<◌, Bool, true, false, none, some, [], ◌∷◌, ◌++◌, ◌==◌,
  if◌then◌else◌, ◌≡◌, ◌⊎◌, inl, inr, refl, arith, length, length-set, get_elem?, set, count, ==_iff,
  ==_refl, Bool-cases, Option-cases, sym, ap, ◌∙◌, subst,
}
use ocr_vx.One.Types.{Mode}
use ocr_vx.Shmem.Event.{TbbPreslot, all_preslots}
use ocr_vx.Shmem.Locking.{NodeData, LockGraph, set_node_data, Waitlist, waitlist}
use ocr_vx.Shmem.Locking.Calls.{
  next_lock, rounds_left, order_locks, try_lock_all, lock_and_spawn, spawn_edt, satisfy_task,
}
use ocr_vx.Shmem.Locking.Consistent.{
  IsConsistent, TaskIsValid, Behind, Holders, HoldsIn, HoldsAs, held, waits_in,
}
use ocr_vx.Shmem.Locking.Acquire.{eq_sym}
use ocr_vx.Shmem.Locking.Rounds.{lock_rounds-Locked}
use ocr_vx.Shmem.Locking.Attempts.{Locked, Succeeds, more_rounds}
use ocr_vx.Shmem.Locking.Wakes.{Succeeds->>=, spawn_edt-IsConsistent}
use ocr_vx.Shmem.Locking.Held.{resting}
use ocr_vx.Shmem.Locking.Covers.{LocksPreslots, order_locks-LocksPreslots, Succeeds-both}
use ocr_vx.Shmem.Locking.Ordering.{Ordered, order_locks-Ordered}

-- The task holds each block of its plan, in the mode of the plan.
abbrev pub HasAll : ℕ → NodeData → (ℕ → Holders) → Type 0
HasAll t e holders =
    (i h : ℕ) (m : Mode)
    → get_elem? e.ordered_guids i ≡ some h
    → get_elem? e.lock_modes i ≡ some m
    → HoldsAs t m (holders h)

-- The plan of `prepared` is as its preslots say, the task holds what it acquired, and it has all its
-- blocks and is spawned, or it waits for one of them and is not.
pub record Started (s : LockGraph) (holders : ℕ → Holders) (t : ℕ) (prepared : NodeData)
    (s' : LockGraph) : Type 0 where
  pub after : ℕ → Holders
  pub consistent : IsConsistent s' resting none after
  pub kept : (h u : ℕ) (m : Mode) → HoldsAs u m (holders h) → HoldsAs u m (after h)
  pub plans : LocksPreslots prepared (s'.edts t)
  pub has :
      (i h : ℕ) (m : Mode)
      → i < (s'.edts t).acquired
      → get_elem? (s'.edts t).ordered_guids i ≡ some h
      → get_elem? (s'.edts t).lock_modes i ≡ some m
      → HoldsAs t m (after h)
  pub spawns :
      (HasAll t (s'.edts t) after × (s'.spawned ≡ s.spawned ++ (t ∷ [])))
      ⊎ ((g : ℕ) × (m : Mode) × (next_lock (s'.edts t) ≡ some (g, m)) × (s'.spawned ≡ s.spawned))

bounded : {A : Type 0} (xs : List A) (i : ℕ) (a : A) → get_elem? xs i ≡ some a → i < length xs
bounded [] i a h = cc
bounded (x ∷ xs) zero a h = omega arith
bounded (x ∷ xs) (suc i) a h = omega (arith, bounded xs i a h)

acquired_all :
    (e : NodeData) (i h : ℕ)
    → TaskIsValid e
    → next_lock e ≡ none
    → get_elem? e.ordered_guids i ≡ some h
    → i < e.acquired
acquired_all e i h valid all at_i = no_more (rounds_left e) refl
  where
    no_more : (n : ℕ) → rounds_left e ≡ n → i < e.acquired
    no_more zero k = omega (arith, k, bounded e.ordered_guids i h at_i)
    no_more (suc n) k = let (g, m, waits) = more_rounds e n valid k in cc (waits, all)

-- The task with the data in its preslot
abbrev pub satisfied_slot : NodeData → ℕ → ℕ → TbbPreslot → NodeData
satisfied_slot e slot data_guid p = record e {
  preslots = set e.preslots slot (record p { data_guid = data_guid; satisfied = true });
}

module _ (s : LockGraph) (holders : ℕ → Holders) (t : ℕ) (c : IsConsistent s resting none holders)
    (idle : next_lock (s.edts t) ≡ none) (holds_none : (h : ℕ) → HoldsIn t (holders h) → ⊥) where
  module _ (e : NodeData) (valid : TaskIsValid e) where
    queued_after :
        (h : ℕ) (w : Waitlist) (u : ℕ)
        → count u (waitlist w (s.dbs h))
          ≡ (if t == u then 0 else waits_in h w (next_lock (if u == t then e else s.edts u)))
    queued_after h w u = c.queued h w u ∙ elim (Bool-cases (t == u)) [
      | inl me ↦ rw (sym ((==_iff t u).0 me), ==_refl t, idle) refl
      | inr other ↦ rw (other, eq_sym u t ∙ other) refl
    ]

    tasks_after : (u : ℕ) → TaskIsValid (if u == t then e else s.edts u)
    tasks_after u = elim (Bool-cases (u == t)) [
      | inl me ↦ rw me valid
      | inr other ↦ rw other (c.tasks u)
    ]

    behind_after : (h u : ℕ) → HoldsIn u (holders h) → Behind (if u == t then e else s.edts u) h
    behind_after h u k = elim (Bool-cases (u == t)) [
      | inl me ↦ absurd (holds_none h (subst (λ v. HoldsIn v (holders h)) ((==_iff u t).0 me) k))
      | inr other ↦ rw other (c.behind h u k)
    ]

    prepared-IsConsistent : IsConsistent (set_node_data s t e) resting (some t) holders
    prepared-IsConsistent = record {
      counts = c.counts;
      blocked = c.blocked;
      queued = queued_after;
      tasks = tasks_after;
      behind = behind_after;
    }

  -- What the attempt gives for the prepared task
  module _ (e0 e : NodeData) (n : ℕ) (all : Bool) (s' : LockGraph) (starts : e.acquired ≡ 0)
      (plan : LocksPreslots e0 e)
      (l : Locked (set_node_data s t e) resting holders t n all s') where
    own : (set_node_data s t e).edts t ≡ e
    own = rw (==_refl t) refl

    guids : (s'.edts t).ordered_guids ≡ e.ordered_guids
    guids = l.same_plan.0 ∙ ap (λ k. k.ordered_guids) own

    modes : (s'.edts t).lock_modes ≡ e.lock_modes
    modes = l.same_plan.1 ∙ ap (λ k. k.lock_modes) own

    still_plans : LocksPreslots e0 (s'.edts t)
    still_plans = record {
      covered = rw (guids, modes) plan.covered;
      exactly = rw guids plan.exactly;
    }

    has_acquired :
        (i h : ℕ) (m : Mode)
        → i < (s'.edts t).acquired
        → get_elem? (s'.edts t).ordered_guids i ≡ some h
        → get_elem? (s'.edts t).lock_modes i ≡ some m
        → HoldsAs t m (l.after h)
    has_acquired i h m lt at_i mode_i =
        l.has i h m (omega (arith, ap (λ (k : NodeData). k.acquired) own, starts)) lt
          (ap (λ (gs : List ℕ). get_elem? gs i) (sym l.same_plan.0) ∙ at_i)
          (ap (λ (ms : List Mode). get_elem? ms i) (sym l.same_plan.1) ∙ mode_i)

    acquired-HasAll : next_lock (s'.edts t) ≡ none → HasAll t (s'.edts t) l.after
    acquired-HasAll all i h m at_i mode_i =
        has_acquired i h m (acquired_all (s'.edts t) i h (l.consistent.tasks t) all at_i) at_i
          mode_i

  started :
      (e0 e : NodeData) (n : ℕ) (all : Bool) (s' : LockGraph)
      → e.acquired ≡ 0
      → LocksPreslots e0 e
      → Locked (set_node_data s t e) resting holders t n all s'
      → Started s holders t e0 (if all then spawn_edt t s' else s')
  started e0 e n true s' starts plan l = record {
    after = l.after;
    consistent = spawn_edt-IsConsistent s' _ _ _ t l.consistent;
    kept = l.kept_mode;
    plans = still_plans e0 e n true s' starts plan l;
    has = has_acquired e0 e n true s' starts plan l;
    spawns = inl (
      acquired-HasAll e0 e n true s' starts plan l (l.has_all.0 refl),
      ap (λ ts. ts ++ (t ∷ [])) l.same_spawned,
    );
  }
  started e0 e n false s' starts plan l = record {
    after = l.after;
    consistent = l.consistent;
    kept = l.kept_mode;
    plans = still_plans e0 e n false s' starts plan l;
    has = has_acquired e0 e n false s' starts plan l;
    spawns = elim (Option-cases (next_lock (s'.edts t))) [
      | inl all ↦ absurd (not_all (l.has_all.1 all))
      | inr ((g, m), waits) ↦ inr (g, m, waits, l.same_spawned)
    ];
  }
    where
      not_all : false ≡ true → ⊥
      not_all h = cc

  locks_and_spawns :
      (e0 e : NodeData)
      → Ordered e0 e
      → LocksPreslots e0 e
      → ((h : ℕ) → held (holders h) + length e0.preslots < 2 ^ 32)
      → Succeeds (Started s holders t e0) (lock_and_spawn t (set_node_data s t e))
  unfolding lock_and_spawn try_lock_all Succeeds
  locks_and_spawns e0 e o plan small =
      Succeeds->>=
        (λ r.
          Locked (set_node_data s t e) resting holders t
            (rounds_left ((set_node_data s t e).edts t)) r.0 r.1)
        (Started s holders t e0) _ _
        (lock_rounds-Locked _ (set_node_data s t e) resting holders t
          (prepared-IsConsistent e o.valid) (λ h. inl refl) refl few)
        (λ r l. started e0 e _ r.0 r.1 o.starts plan l)
    where
      few : (h : ℕ) → held (holders h) + rounds_left ((set_node_data s t e).edts t) < 2 ^ 32
      few h = rw (==_refl t) (omega (arith, small h, o.few))

  module _ (slot data_guid : ℕ) (p : TbbPreslot) (starts : (s.edts t).acquired ≡ 0)
      (fresh : (s.edts t).lock_modes ≡ []) (at_slot : get_elem? (s.edts t).preslots slot ≡ some p)
      (complete : all_preslots (satisfied_slot (s.edts t) slot data_guid p).preslots ≡ true)
      (small : (h : ℕ) → held (holders h) + length (s.edts t).preslots < 2 ^ 32) where
    -- Where waitlists, counters and tasks are consistent, the satisfaction of the last preslot of a
    -- task that has locked nothing returns, and all is consistent afterwards. The task plans to lock
    -- exactly the blocks in its preslots, each in a mode that covers the modes of all preslots that
    -- have it. Either it holds each of these blocks in its mode and is spawned, or it waits for one
    -- of them, holds those it acquired before, and is not spawned. No task loses a lock. The locks
    -- that are held or wanted must be fewer than 2 ^ 32.
    pub satisfy_task-Started :
        Succeeds
          (Started s holders t (satisfied_slot (s.edts t) slot data_guid p))
          (satisfy_task t slot data_guid s)
    unfolding satisfy_task
    satisfy_task-Started =
        let e0 : NodeData = satisfied_slot (s.edts t) slot data_guid p in
        rw (at_slot, satisfy_task)
          (rw complete (
            Succeeds->>= (λ e. Ordered e0 e × LocksPreslots e0 e) (Started s holders t e0) _ _
              (Succeeds-both (Ordered e0) (LocksPreslots e0) (order_locks e0)
                (order_locks-Ordered e0 starts fresh) (order_locks-LocksPreslots e0 fresh))
              (λ e k.
                locks_and_spawns e0 e k.0 k.1
                  (λ h. omega (arith, small h, length-set (s.edts t).preslots slot _)))))

-- ===== src/Shmem/Locking/Tests.antt =====
-- The locks of include/shmem/ocr_tbb_locking.h at concrete inputs: block 5 is held by task 1 in mode
-- EW, task 2 waits for it in mode RW, and task 3 has one preslot.
use ocr_vx.Prelude.{
  ℕ, suc, ◌+◌, ◌^◌, ◌<◌, Bool, true, false, none, some, [], ◌∷◌, ◌==◌, ◌≡◌, inl, inr, refl, arith,
  count, contains, if◌then◌else◌, Bool-cases, get_elem?, zero, ◌-◌, subst,
}
use ocr_vx.One.Types.{Mode, db_mode_ew, db_mode_rw, db_mode_ro, db_mode_const}
use ocr_vx.Shmem.Event.{TbbPreslot, all_preslots}
use ocr_vx.Shmem.Locking.{
  done, try_lock, DbData, NodeData, LockGraph, new_db_data, Waitlist, shared, exclusive_read,
  exclusive_write, waitlist,
}
use ocr_vx.Shmem.Locking.Block.{Counts, rest, WaitsAreBlocked, Tried, try_lock-Tried, is_null}
use ocr_vx.Shmem.Locking.Modes.{
  combine_modes, mode_to_order, order_to_mode, combine_modes-IsJoin, IsJoin,
}
use ocr_vx.Shmem.Locking.Calls.{
  next_lock, unlock, satisfy_task, remove_db, order_locks, combine_all, combine_at, collect,
  sort_guids, insert_guid,
}
use ocr_vx.Shmem.Locking.Consistent.{
  IsConsistent, TaskIsValid, Behind, Holders, HoldsIn, held, waits_in, shared_held, const_held,
  ew_held,
}
use ocr_vx.Shmem.Locking.Attempts.{Succeeds}
use ocr_vx.Shmem.Locking.Drain.{Freed}
use ocr_vx.Shmem.Locking.Replace.{with_holders}
use ocr_vx.Shmem.Locking.Unlock.{unlock-Freed}
use ocr_vx.Shmem.Locking.Held.{resting}
use ocr_vx.Shmem.Locking.Ordering.{add_one}
use ocr_vx.Shmem.Locking.Start.{Started, satisfied_slot, satisfy_task-Started}
use ocr_vx.Shmem.Locking.Covers.{LocksPreslots, order_locks-LocksPreslots}
use ocr_vx.Shmem.Locking.Release.{remove_db-underflows}

abbrev preslot : ℕ → Mode → Bool → TbbPreslot
preslot g m satisfied = record { satisfied = satisfied; data_guid = g; mode = m }

abbrev idle : NodeData
idle = record {
  acquired = 0;
  ordered_guids = [];
  lock_modes = [];
  held_dbs = [];
  held_db_modes = [];
  preslots = preslot 0 db_mode_ro false ∷ [];
}

abbrev waiting_task : NodeData
waiting_task = record idle { ordered_guids = 5 ∷ []; lock_modes = db_mode_rw ∷ [] }

abbrev held_block : DbData
held_block = record (new_db_data false) {
  exclusive_locks = 1;
  exclusive_write = true;
  shared_waitlist = 2 ∷ [];
}

abbrev contended : LockGraph
contended = record {
  dbs = λ g. if g == 5 then held_block else new_db_data false;
  edts = λ t. if t == 2 then waiting_task else idle;
  spawned = 1 ∷ [];
}

abbrev holders : ℕ → Holders
holders g = if g == 5 then (1, db_mode_ew) ∷ [] else []

contended-Counts :
    (g : ℕ)
    → Counts
        (contended.dbs g)
        (shared_held (holders g))
        (const_held (holders g))
        (ew_held (holders g))
contended-Counts g = elim (Bool-cases (g == 5)) [
  | inl here ↦ rw here (ground arith)
  | inr there ↦ rw there (ground arith)
]

contended-blocked : (g : ℕ) → WaitsAreBlocked rest (contended.dbs g)
contended-blocked g = elim (Bool-cases (g == 5)) [
  | inl here ↦ rw here (ground arith)
  | inr there ↦ rw there (ground arith)
]

contended-queued :
    (g : ℕ) (w : Waitlist) (t : ℕ)
    → count t (waitlist w (contended.dbs g)) ≡ waits_in g w (next_lock (contended.edts t))
unfolding count
contended-queued g shared t = ground arith
contended-queued g exclusive_read t = ground arith
contended-queued g exclusive_write t = ground arith

none-ne-some {ℓ} : {A : Type ℓ} {a : A} → none ≡ some a → ⊥
none-ne-some h = cc

no_second : (i h : ℕ) → get_elem? (5 ∷ []) (suc i) ≡ some h → ⊥
no_second i h next = cc

one_lock : (i : ℕ) (m : Mode) → get_elem? (db_mode_rw ∷ []) i ≡ some m → is_null m ≡ false
one_lock zero m h = ground arith
one_lock (suc i) m h = cc

waiting_task-TaskIsValid : TaskIsValid waiting_task
waiting_task-TaskIsValid = record {
  sizes = refl;
  sorted = λ i g h le at_i next.
      absurd (no_second i h (subst (λ k. get_elem? (5 ∷ []) k ≡ some h) (add_one i) next));
  lockable = one_lock;
}

idle-TaskIsValid : TaskIsValid idle
idle-TaskIsValid = record {
  sizes = refl;
  sorted = λ i g h le at_i next. absurd (none-ne-some at_i);
  lockable = λ i m h. absurd (none-ne-some h);
}

contended-tasks : (t : ℕ) → TaskIsValid (contended.edts t)
contended-tasks t = elim (Bool-cases (t == 2)) [
  | inl waits ↦ rw waits waiting_task-TaskIsValid
  | inr other ↦ rw other idle-TaskIsValid
]

contended-behind : (g t : ℕ) → HoldsIn t (holders g) → Behind (contended.edts t) g
contended-behind g t = elim (Bool-cases (g == 5)) [
  | inl here ↦ rw here (task_one t)
  | inr there ↦ rw there (λ (h : ⊥). absurd h)
]
  where
    task_one : (t : ℕ) → HoldsIn t ((1, db_mode_ew) ∷ []) → Behind (contended.edts t) g
    task_one t (inl one) = inl (ground arith)
    task_one t (inr h) = absurd h

contended-IsConsistent : IsConsistent contended resting none holders
contended-IsConsistent = record {
  counts = contended-Counts;
  blocked = contended-blocked;
  queued = contended-queued;
  tasks = contended-tasks;
  behind = contended-behind;
}

few : (n : ℕ) → n < 1000 → (h : ℕ) → held (holders h) + n < 2 ^ 32
few n small h = ground arith

-- Task 1 unlocks the block, and task 2 gets it.
unlock-Freed_example : Succeeds (Freed (with_holders holders 5 [])) (unlock 5 db_mode_ew contended)
unlock-Freed_example =
    unlock-Freed contended holders 5 1 db_mode_ew [] [] contended-IsConsistent refl refl
      (few _ (omega arith))

not_three : HoldsIn 3 ((1, db_mode_ew) ∷ []) → ⊥
not_three (inl k) = absurd (omega (arith, k))
not_three (inr k) = k

three_holds_none : (h : ℕ) → HoldsIn 3 (holders h) → ⊥
three_holds_none h = elim (Bool-cases (h == 5)) [
  | inl here ↦ rw here not_three
  | inr there ↦ rw there (λ (k : ⊥). k)
]

-- The preslot of task 3 is satisfied with block 7.
satisfy_task-Started_example :
    Succeeds
      (Started contended holders 3 (satisfied_slot idle 0 7 (preslot 0 db_mode_ro false)))
      (satisfy_task 3 0 7 contended)
unfolding all_preslots
satisfy_task-Started_example =
    satisfy_task-Started contended holders 3 contended-IsConsistent refl three_holds_none 0 7
      (preslot 0 db_mode_ro false) refl refl refl refl (few 1 (omega arith))

two_preslots : NodeData
two_preslots = record idle {
  preslots =
      preslot 9 db_mode_const true ∷ preslot 5 db_mode_ro true ∷ preslot 9 db_mode_rw true ∷ [];
}

order_locks-LocksPreslots_example : Succeeds (LocksPreslots two_preslots) (order_locks two_preslots)
unfolding two_preslots
order_locks-LocksPreslots_example = order_locks-LocksPreslots two_preslots refl

-- Block 9 is locked in mode EW, since the task has it in modes CONST and RW.
two_blocks_in_order :
    order_locks two_preslots
    ≡ done (record two_preslots {
      ordered_guids = 5 ∷ 9 ∷ [];
      lock_modes = db_mode_ro ∷ db_mode_ew ∷ [];
    })
unfolding two_preslots order_locks combine_all combine_at collect sort_guids insert_guid contains
    combine_modes mode_to_order order_to_mode
two_blocks_in_order = refl

combine_modes-IsJoin_example :
    IsJoin db_mode_const db_mode_rw (combine_modes db_mode_const db_mode_rw)
combine_modes-IsJoin_example = combine_modes-IsJoin db_mode_const db_mode_rw

-- A reader is refused while the block is written.
try_lock-Tried_example : Tried db_mode_ro held_block 0 0 1 (try_lock db_mode_ro held_block)
try_lock-Tried_example =
    try_lock-Tried held_block 0 0 1 (ground arith) (omega arith) db_mode_ro refl (ground arith)

got_twice : NodeData
got_twice = record {
  acquired = 1;
  ordered_guids = 5 ∷ [];
  lock_modes = db_mode_rw ∷ [];
  held_dbs = 5 ∷ 5 ∷ [];
  held_db_modes = db_mode_rw ∷ db_mode_rw ∷ [];
  preslots = preslot 5 db_mode_rw true ∷ preslot 5 db_mode_rw true ∷ [];
}

twice : LockGraph
twice = record { dbs = λ g. new_db_data true; edts = λ t. got_twice; spawned = 1 ∷ [] }

remove_db-underflows_example :
    (s' : LockGraph) × (remove_db 1 5 twice ≡ done s') × ((s'.dbs 5).shared_locks ≡ 2 ^ 32 - 1)
unfolding twice got_twice
remove_db-underflows_example = remove_db-underflows twice 1 5 (λ h. cc) refl refl refl refl refl

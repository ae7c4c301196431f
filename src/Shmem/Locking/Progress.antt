-- ===== src/Shmem/Locking/Progress.antt =====
-- The waiting tasks never wait for one another (`wait_for_graph` in include/shmem/ocr_tbb_locking.h):
-- each locks its blocks in the order of their GUIDs.
use ocr_vx.Prelude.{
  ℕ, ◌+◌, ◌^◌, ◌<◌, ◌≤◌, false, none, some, [], ◌∷◌, ◌≡◌, ◌⊎◌, ◌++◌, true, get_elem?, length,
}
use ocr_vx.One.Types.{Mode}
use ocr_vx.Shmem.Locking.{LockResult, LockGraph}
use ocr_vx.Shmem.Locking.Block.{is_null}
use ocr_vx.Shmem.Locking.Calls.{next_lock, satisfy_task, unlock}
use ocr_vx.Shmem.Locking.Consistent.{IsConsistent, Holders, HoldsIn, held}
use ocr_vx.Shmem.Locking.Held.{resting, waiting_wants}
use ocr_vx.Shmem.Event.{TbbPreslot, all_preslots}
use ocr_vx.Shmem.Locking.Start.{satisfied_slot}

-- Some task holds a block and waits for none.
abbrev pub SomeTaskRuns : LockGraph → (ℕ → Holders) → Type 0
SomeTaskRuns s holders = (t : ℕ) × (g : ℕ) × HoldsIn t (holders g) × (next_lock (s.edts t) ≡ none)

-- Some task waits for a block whose GUID does not fit in 64 bits.
abbrev pub WaitsBeyond : LockGraph → Type 0
WaitsBeyond s = (t : ℕ) × (g : ℕ) × (m : Mode) × (next_lock (s.edts t) ≡ some (g, m)) × (2 ^ 64 ≤ g)

-- Waitlists, counters and tasks are consistent; and a task waits for no block, or some task that holds
-- a block waits for none. (GUIDs have 64 bits.)
pub record NeverStuck (s : LockGraph) : Type 0 where
  pub holders : ℕ → Holders
  pub consistent : IsConsistent s resting none holders
  pub runs : (t : ℕ) → (next_lock (s.edts t) ≡ none) ⊎ SomeTaskRuns s holders ⊎ WaitsBeyond s

-- The calls that lock and unlock blocks
pub data LockCall : Type 0 where
  satisfy_call : (t slot data_guid : ℕ) → LockCall
  unlock_call : (g : ℕ) (m : Mode) → LockCall

abbrev pub lock_call : LockCall → LockGraph → LockResult LockGraph
lock_call (satisfy_call t slot data_guid) s = satisfy_task t slot data_guid s
lock_call (unlock_call g m) s = unlock g m s

-- When a call can be made: the last preslot of a task that has locked nothing is satisfied, or a block
-- is unlocked that some task holds; and the locks that are held or wanted are fewer than 2 ^ 32.
pub data Enabled (s : LockGraph) (holders : ℕ → Holders) : LockCall → Type 0 where
  satisfies :
      (t slot data_guid : ℕ) (p : TbbPreslot)
      → next_lock (s.edts t) ≡ none
      → ((h : ℕ) → HoldsIn t (holders h) → ⊥)
      → (s.edts t).acquired ≡ 0
      → (s.edts t).lock_modes ≡ []
      → get_elem? (s.edts t).preslots slot ≡ some p
      → all_preslots (satisfied_slot (s.edts t) slot data_guid p).preslots ≡ true
      → ((h : ℕ) → held (holders h) + length (s.edts t).preslots < 2 ^ 32)
      → Enabled s holders (satisfy_call t slot data_guid)
  unlocks :
      (g u : ℕ) (m : Mode) (pre post : Holders)
      → holders g ≡ pre ++ ((u, m) ∷ post)
      → is_null m ≡ false
      → ((h : ℕ) → held (holders h) + waiting_wants s g < 2 ^ 32)
      → Enabled s holders (unlock_call g m)

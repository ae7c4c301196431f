-- ===== src/Shmem/Locking.antt =====
-- The locks of data blocks (`wait_for_graph` in include/shmem/ocr_tbb_locking.h, `db_data` in
-- ocr_tbb_db.h, `node_data` in ocr_tbb_node.h). A call runs to its end before the next one; in the
-- program the mutexes of the blocks and tasks order the calls. A GUID that a call follows names a live
-- object.
use ocr_vx.Prelude.{
  ℕ, zero, suc, ◌+◌, ◌-◌, ◌%◌, ◌^◌, Bool, true, false, not, ◌&&◌, ◌||◌, Option, none, some, List,
  [], ◌∷◌, ◌++◌, ◌==◌, leb, length, get_elem?, set, if◌then◌else◌,
}
use ocr_vx.One.Types.{Mode, db_mode_null, db_mode_ro, db_mode_rw, db_mode_const, db_mode_ew}
use ocr_vx.Shmem.Event.{TbbPreslot}
pub mod Modes
pub mod Calls
pub mod Block
pub mod Consistent
pub mod Acquire
pub mod Enqueue
pub mod Rounds
pub mod Attempts
pub mod Replace
pub mod Wakes
pub mod Drain
pub mod Unlock
pub mod Held
pub mod Progress
pub mod Ordering
pub mod Sorting
pub mod Start
pub mod Release
pub mod Covers
mod Tests

-- What a call gives back; `assertion_failed` stands for undefined behaviour too.
pub data LockResult (A : Type 0) : Type 0 where
  done : A → LockResult A
  assertion_failed out_of_fuel : LockResult A

infixl 5 ◌>>=◌
abbrev pub ◌>>=◌ : {A B : Type 0} → LockResult A → (A → LockResult B) → LockResult B
done a >>= f = f a
assertion_failed >>= f = assertion_failed
out_of_fuel >>= f = out_of_fuel

-- The waitlists hold the GUIDs of tasks.
pub record DbData : Type 0 where
  pub shared_locks : ℕ
  pub exclusive_locks : ℕ
  pub exclusive_write : Bool
  pub shared_waitlist : List ℕ
  pub exclusive_read_waitlist : List ℕ
  pub exclusive_write_waitlist : List ℕ

abbrev pub new_db_data : Bool → DbData
new_db_data lock = record {
  shared_locks = if lock then 1 else 0;
  exclusive_locks = 0;
  exclusive_write = false;
  shared_waitlist = [];
  exclusive_read_waitlist = [];
  exclusive_write_waitlist = [];
}

-- The blocks that a task locks, in order, and how many of them it has. `held_dbs` is the deque of
-- `edt`, in which a block that the task has released is null, and `preslots` that of `node`.
pub record NodeData : Type 0 where
  pub acquired : ℕ
  pub ordered_guids : List ℕ
  pub lock_modes : List Mode
  pub held_dbs : List ℕ
  pub held_db_modes : List Mode
  pub preslots : List TbbPreslot

-- `spawned` collects the calls of `edt::spawn`.
pub record LockGraph : Type 0 where
  pub dbs : ℕ → DbData
  pub edts : ℕ → NodeData
  pub spawned : List ℕ

abbrev pub set_db_data : LockGraph → ℕ → DbData → LockGraph
set_db_data s g d = record s { dbs = λ h. if h == g then d else s.dbs h }

abbrev pub set_node_data : LockGraph → ℕ → NodeData → LockGraph
set_node_data s t e = record s { edts = λ u. if u == t then e else s.edts u }

-- `tbb::atomic<u32>`
abbrev pub increment32 : ℕ → ℕ
increment32 n = (n + 1) % 2 ^ 32

abbrev pub decrement32 : ℕ → ℕ
decrement32 n = (n + 2 ^ 32 - 1) % 2 ^ 32

-- Whether the lock is granted, and the block after that.
unfoldable pub try_lock : Mode → DbData → LockResult (Bool × DbData)
try_lock db_mode_rw d =
    if d.exclusive_locks == 0
    then done (true, record d { shared_locks = increment32 d.shared_locks })
    else done (false, d)
try_lock db_mode_ro d =
    if d.exclusive_locks == 0
    then done (true, record d { shared_locks = increment32 d.shared_locks })
    else done (false, d)
try_lock db_mode_const d =
    if (d.shared_locks == 0) && not d.exclusive_write
    then done (true, record d { exclusive_locks = increment32 d.exclusive_locks })
    else done (false, d)
try_lock db_mode_ew d =
    if (d.shared_locks == 0) && (d.exclusive_locks == 0)
    then done
        (true, record d { exclusive_locks = increment32 d.exclusive_locks; exclusive_write = true })
    else done (false, d)
try_lock db_mode_null d = assertion_failed

-- The three lists, as the pointer `new_owners` names them
pub data Waitlist : Type 0 where
  shared exclusive_read exclusive_write : Waitlist

abbrev pub waitlist : Waitlist → DbData → List ℕ
waitlist shared d = d.shared_waitlist
waitlist exclusive_read d = d.exclusive_read_waitlist
waitlist exclusive_write d = d.exclusive_write_waitlist

abbrev pub set_waitlist : Waitlist → List ℕ → DbData → DbData
set_waitlist shared ts d = record d { shared_waitlist = ts }
set_waitlist exclusive_read ts d = record d { exclusive_read_waitlist = ts }
set_waitlist exclusive_write ts d = record d { exclusive_write_waitlist = ts }

-- The list in which `try_lock_all__locked` makes a task wait
unfoldable pub waitlist_of : Mode → Option Waitlist
waitlist_of db_mode_rw = some shared
waitlist_of db_mode_ro = some shared
waitlist_of db_mode_const = some exclusive_read
waitlist_of db_mode_ew = some exclusive_write
waitlist_of db_mode_null = none

-- Who is to try again: `new_owner`, or all in `new_owners`
pub data Wake : Type 0 where
  no_one : Wake
  new_owner : ℕ → Wake
  new_owners : Waitlist → Wake

-- The first waiting writer, or else what `others` says
unfoldable pub writer_or : Wake → DbData → Wake × DbData
writer_or others d = elim d.exclusive_write_waitlist [
  | [] ↦ (others, d)
  | t ∷ ts ↦ (new_owner t, record d { exclusive_write_waitlist = ts })
]

unfoldable pub list_or : Waitlist → Wake → DbData → Wake
list_or which others d = elim (waitlist which d) [ [] ↦ others | _ ∷ _ ↦ new_owners which ]

abbrev pub no_waiters : List ℕ → Bool
no_waiters [] = true
no_waiters (_ ∷ _) = false

-- The `switch` of `unlock`
unfoldable pub unlock_shared : DbData → LockResult (Wake × DbData)
unlock_shared d =
    let e : DbData = record d { shared_locks = decrement32 d.shared_locks } in
    if e.shared_locks == 0
    then (if no_waiters e.shared_waitlist
        then done (writer_or (list_or exclusive_read no_one e) e)
        else assertion_failed)
    else done (no_one, e)

unfoldable pub unlock_const : DbData → LockResult (Wake × DbData)
unlock_const d =
    let e : DbData = record d { exclusive_locks = decrement32 d.exclusive_locks } in
    if e.exclusive_locks == 0
    then (if no_waiters e.exclusive_read_waitlist
        then done (writer_or (list_or shared no_one e) e)
        else assertion_failed)
    else done (no_one, e)

unfoldable pub unlock_ew : DbData → LockResult (Wake × DbData)
unlock_ew d =
    let e : DbData = record d {
      exclusive_write = false;
      exclusive_locks = decrement32 d.exclusive_locks;
    } in
    if e.exclusive_locks == 0
    then done (writer_or (list_or exclusive_read (list_or shared no_one e) e) e)
    else done (no_one, e)

unfoldable pub release_lock : Mode → DbData → LockResult (Wake × DbData)
release_lock db_mode_rw d = unlock_shared d
release_lock db_mode_ro d = unlock_shared d
release_lock db_mode_const d = unlock_const d
release_lock db_mode_ew d = unlock_ew d
release_lock db_mode_null d = assertion_failed

-- ===== src/Shmem/Locking/Block.antt =====
-- One block: its counters count the locks that are held, and a task waits only while they exclude it
-- (`try_lock__locked` and the `switch` of `unlock` in include/shmem/ocr_tbb_locking.h).
use ocr_vx.Prelude.{
  ℕ, ◌+◌, ◌^◌, ◌<◌, ◌≤◌, Bool, true, false, ◌∷◌, ltb, ◌≡◌, ◌⊎◌, inl, inr, refl, arith, ap,
}
use ocr_vx.One.Types.{Mode, db_mode_null, db_mode_ro, db_mode_rw, db_mode_const, db_mode_ew}
use ocr_vx.Shmem.Locking.{
  LockResult, done, assertion_failed, out_of_fuel, DbData, try_lock, shared, exclusive_read,
  exclusive_write, set_waitlist, Wake, no_one, new_owner, new_owners, release_lock, unlock_shared,
  unlock_const, unlock_ew, writer_or, list_or, no_waiters,
}

abbrev pub n_shared : Mode → ℕ
n_shared db_mode_rw = 1
n_shared db_mode_ro = 1
n_shared _ = 0

abbrev pub n_const : Mode → ℕ
n_const db_mode_const = 1
n_const _ = 0

abbrev pub n_ew : Mode → ℕ
n_ew db_mode_ew = 1
n_ew _ = 0

abbrev pub is_null : Mode → Bool
is_null db_mode_null = true
is_null _ = false

-- `a` shared locks, `b` CONST locks and `c` EW locks are held.
pub record Counts (d : DbData) (a b c : ℕ) : Type 0 where
  pub shared_eq : d.shared_locks ≡ a
  pub exclusive_eq : d.exclusive_locks ≡ b + c
  pub write_eq : d.exclusive_write ≡ ltb 0 c
  pub alone : (a ≡ 0) ⊎ (b + c ≡ 0)
  pub one_writer : c ≤ 1
  pub writer_alone : (c ≡ 0) ⊎ (b ≡ 0)

-- Where a block stands between two steps: at rest, free for the writer that is next, or free for all
-- in a waitlist (`popped` is after a task has left the list and before it has the lock).
pub data Phase : Type 0 where
  rest owner readers popped all_shared : Phase

abbrev pub WaitsAreBlocked : Phase → DbData → Type 0
WaitsAreBlocked rest d =
    ((no_waiters d.shared_waitlist ≡ true) ⊎ (0 < d.exclusive_locks))
    × ((no_waiters d.exclusive_read_waitlist ≡ true)
        ⊎ ((0 < d.shared_locks) ⊎ (d.exclusive_write ≡ true)))
    × ((no_waiters d.exclusive_write_waitlist ≡ true)
        ⊎ ((0 < d.shared_locks) ⊎ (0 < d.exclusive_locks)))
WaitsAreBlocked owner d =
    (d.shared_locks ≡ 0) × (d.exclusive_locks ≡ 0) × (d.exclusive_write ≡ false)
WaitsAreBlocked readers d =
    (d.shared_locks ≡ 0)
    × (d.exclusive_write ≡ false)
    × (no_waiters d.exclusive_write_waitlist ≡ true)
    × ((no_waiters d.shared_waitlist ≡ true)
        ⊎ ((0 < d.exclusive_locks) ⊎ (no_waiters d.exclusive_read_waitlist ≡ false)))
WaitsAreBlocked popped d =
    (d.shared_locks ≡ 0)
    × (d.exclusive_write ≡ false)
    × (no_waiters d.exclusive_write_waitlist ≡ true)
WaitsAreBlocked all_shared d =
    (d.exclusive_locks ≡ 0)
    × (d.exclusive_write ≡ false)
    × (no_waiters d.exclusive_read_waitlist ≡ true)
    × (no_waiters d.exclusive_write_waitlist ≡ true)

abbrev pub SameLists : DbData → DbData → Type 0
SameLists d e =
    (e.shared_waitlist ≡ d.shared_waitlist)
    × (e.exclusive_read_waitlist ≡ d.exclusive_read_waitlist)
    × (e.exclusive_write_waitlist ≡ d.exclusive_write_waitlist)

-- The locks that are held exclude a lock in mode `m`.
abbrev pub Excluded : Mode → ℕ → ℕ → ℕ → Type 0
Excluded db_mode_null a b c = ⊥
Excluded db_mode_rw a b c = 0 < b + c
Excluded db_mode_ro a b c = 0 < b + c
Excluded db_mode_const a b c = 0 < a + c
Excluded db_mode_ew a b c = 0 < a + b + c

-- What an attempt to lock in mode `m` gives: the lock, or the wait, in a list that then waits for a lock.
pub Tried : Mode → DbData → ℕ → ℕ → ℕ → LockResult (Bool × DbData) → Type 0
Tried m d a b c assertion_failed = ⊥
Tried m d a b c out_of_fuel = ⊥
Tried m d a b c (done (true, e)) =
    Counts e (n_shared m + a) (n_const m + b) (n_ew m + c) × WaitsAreBlocked rest e × SameLists d e
Tried m d a b c (done (false, e)) = (e ≡ d) × Excluded m a b c

pub Tried-cases :
    (m : Mode) (d : DbData) (a b c : ℕ) (r : LockResult (Bool × DbData))
    → Tried m d a b c r
    → ((e : DbData) × (r ≡ done (true, e))
        × Counts e (n_shared m + a) (n_const m + b) (n_ew m + c)
        × WaitsAreBlocked rest e
        × SameLists d e)
      ⊎ ((r ≡ done (false, d)) × Excluded m a b c)
unfolding Tried
Tried-cases m d a b c assertion_failed h = absurd h
Tried-cases m d a b c out_of_fuel h = absurd h
Tried-cases m d a b c (done (true, e)) h = inl (e, refl, h.0, h.1, h.2)
Tried-cases m d a b c (done (false, e)) h = inr (ap (λ x. done (false, x)) h.0, h.1)

-- An attempt that is not refused, and the phase after it.
unfoldable pub Grants : Mode → Phase → DbData → ℕ → ℕ → ℕ → LockResult (Bool × DbData) → Type 0
Grants m p d a b c assertion_failed = ⊥
Grants m p d a b c out_of_fuel = ⊥
Grants m p d a b c (done (false, e)) = ⊥
Grants m p d a b c (done (true, e)) =
    Counts e (n_shared m + a) (n_const m + b) (n_ew m + c) × WaitsAreBlocked p e × SameLists d e

pub Grants-cases :
    (m : Mode) (p : Phase) (d : DbData) (a b c : ℕ) (r : LockResult (Bool × DbData))
    → Grants m p d a b c r
    → (e : DbData) × (r ≡ done (true, e))
      × Counts e (n_shared m + a) (n_const m + b) (n_ew m + c)
      × WaitsAreBlocked p e
      × SameLists d e
unfolding Grants
Grants-cases m p d a b c assertion_failed h = absurd h
Grants-cases m p d a b c out_of_fuel h = absurd h
Grants-cases m p d a b c (done (false, e)) h = absurd h
Grants-cases m p d a b c (done (true, e)) h = (e, refl, h.0, h.1, h.2)

-- Who is woken, and what the block then is: the task, or the list, is taken from where it waits.
unfoldable pub Releases : DbData → ℕ → ℕ → ℕ → LockResult (Wake × DbData) → Type 0
Releases d a b c assertion_failed = ⊥
Releases d a b c out_of_fuel = ⊥
Releases d a b c (done (no_one, e)) = Counts e a b c × WaitsAreBlocked rest e × SameLists d e
Releases d a b c (done (new_owner t, e)) =
    Counts e a b c
    × WaitsAreBlocked owner e
    × SameLists d (set_waitlist exclusive_write (t ∷ e.exclusive_write_waitlist) e)
Releases d a b c (done (new_owners shared, e)) =
    Counts e a b c × WaitsAreBlocked all_shared e × SameLists d e
Releases d a b c (done (new_owners exclusive_read, e)) =
    Counts e a b c × WaitsAreBlocked readers e × SameLists d e
Releases d a b c (done (new_owners exclusive_write, e)) = ⊥

module _ (d : DbData) (a b c : ℕ) (counts : Counts d a b c) (small : a + b + c + 1 < 2 ^ 32) where
  -- An attempt to lock a block in a mode other than null, when its counters count the locks that
  -- are held (fewer than 2 ^ 32 - 1) and the waiting tasks are excluded by them: the lock is granted,
  -- and then the counters count it too and each waiting task is still excluded, or it is refused, and
  -- then the held locks exclude the mode and the block is unchanged.
  pub try_lock-Tried :
      (m : Mode) → is_null m ≡ false → WaitsAreBlocked rest d → Tried m d a b c (try_lock m d)
  unfolding try_lock Tried
  try_lock-Tried db_mode_null h w = cc
  try_lock-Tried db_mode_rw h w = ground arith
  try_lock-Tried db_mode_ro h w = ground arith
  try_lock-Tried db_mode_const h w = ground arith
  try_lock-Tried db_mode_ew h w = ground arith

  pub owner-Grants :
      WaitsAreBlocked owner d → Grants db_mode_ew rest d a b c (try_lock db_mode_ew d)
  unfolding try_lock Grants
  owner-Grants w = ground arith

  pub reader-Grants :
      WaitsAreBlocked popped d → Grants db_mode_const readers d a b c (try_lock db_mode_const d)
  unfolding try_lock Grants
  reader-Grants w = ground arith

  pub rw-Grants :
      WaitsAreBlocked all_shared d → Grants db_mode_rw all_shared d a b c (try_lock db_mode_rw d)
  unfolding try_lock Grants
  rw-Grants w = ground arith

  pub ro-Grants :
      WaitsAreBlocked all_shared d → Grants db_mode_ro all_shared d a b c (try_lock db_mode_ro d)
  unfolding try_lock Grants
  ro-Grants w = ground arith

-- A block from which a lock in mode `m` is released.
pub release_lock-Releases :
    (m : Mode) (d : DbData) (a b c : ℕ)
    → is_null m ≡ false
    → Counts d (n_shared m + a) (n_const m + b) (n_ew m + c)
    → a + b + c + 1 < 2 ^ 32
    → WaitsAreBlocked rest d
    → Releases d a b c (release_lock m d)
unfolding release_lock unlock_shared unlock_const unlock_ew writer_or list_or Releases
release_lock-Releases db_mode_null d a b c h counts small w = cc
release_lock-Releases db_mode_rw d a b c h counts small w = ground arith
release_lock-Releases db_mode_ro d a b c h counts small w = ground arith
release_lock-Releases db_mode_const d a b c h counts small w = ground arith
release_lock-Releases db_mode_ew d a b c h counts small w = ground arith

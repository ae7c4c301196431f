-- ===== src/Shmem/Locking/Held.antt =====
-- A lock taken out of the middle of those that are held (include/shmem/ocr_tbb_locking.h).
use ocr_vx.Prelude.{ℕ, ◌+◌, ◌≤◌, false, List, [], ◌∷◌, ◌++◌, ◌≡◌, inl, inr, refl, arith, ap}
use ocr_vx.One.Types.{Mode, db_mode_ew}
use ocr_vx.Shmem.Locking.{
  DbData, LockGraph, set_db_data, Waitlist, shared, exclusive_read, exclusive_write, waitlist,
}
use ocr_vx.Shmem.Locking.Block.{Phase, rest, is_null, n_shared, n_const, n_ew}
use ocr_vx.Shmem.Locking.Calls.{rounds_left}
use ocr_vx.Shmem.Locking.Consistent.{Holders, HoldsIn, lists_mode, shared_held, const_held, ew_held}
use ocr_vx.Shmem.Locking.Drain.{wants}

-- Every block is at rest.
abbrev pub resting : ℕ → Phase
resting h = rest

-- How many locks the tasks that wait for block `g` still want
abbrev pub waiting_wants : LockGraph → ℕ → ℕ
waiting_wants s g =
    wants s (s.dbs g).shared_waitlist
    + wants s (s.dbs g).exclusive_read_waitlist
    + wants s (s.dbs g).exclusive_write_waitlist

pub wants-set_db_data :
    (s : LockGraph) (g : ℕ) (e : DbData) (ts : List ℕ) → wants (set_db_data s g e) ts ≡ wants s ts
wants-set_db_data s g e [] = refl
wants-set_db_data s g e (t ∷ ts) = ap (λ n. rounds_left (s.edts t) + n) (wants-set_db_data s g e ts)

pub wants-waiting :
    (s : LockGraph) (g : ℕ) (l : Waitlist) → wants s (waitlist l (s.dbs g)) ≤ waiting_wants s g
wants-waiting s g shared = omega arith
wants-waiting s g exclusive_read = omega arith
wants-waiting s g exclusive_write = omega arith

pub one_mode : (m : Mode) → is_null m ≡ false → n_shared m + n_const m + n_ew m ≡ 1
one_mode m h = ground arith

pub ew_mode : (m : Mode) → lists_mode exclusive_write m ≡ 1 → m ≡ db_mode_ew
ew_mode m h = ground arith

module _ (u : ℕ) (m : Mode) where
  pub shared_held-middle :
      (pre post : Holders)
      → shared_held (pre ++ ((u, m) ∷ post)) ≡ n_shared m + shared_held (pre ++ post)
  shared_held-middle [] post = refl
  shared_held-middle (x ∷ pre) post = omega (arith, shared_held-middle pre post)

  pub const_held-middle :
      (pre post : Holders)
      → const_held (pre ++ ((u, m) ∷ post)) ≡ n_const m + const_held (pre ++ post)
  const_held-middle [] post = refl
  const_held-middle (x ∷ pre) post = omega (arith, const_held-middle pre post)

  pub ew_held-middle :
      (pre post : Holders) → ew_held (pre ++ ((u, m) ∷ post)) ≡ n_ew m + ew_held (pre ++ post)
  ew_held-middle [] post = refl
  ew_held-middle (x ∷ pre) post = omega (arith, ew_held-middle pre post)

  pub HoldsIn-middle :
      (pre post : Holders) (v : ℕ) → HoldsIn v (pre ++ post) → HoldsIn v (pre ++ ((u, m) ∷ post))
  HoldsIn-middle [] post v k = inr k
  HoldsIn-middle ((x, n) ∷ pre) post v (inl here) = inl here
  HoldsIn-middle ((x, n) ∷ pre) post v (inr k) = inr (HoldsIn-middle pre post v k)

-- ===== src/Shmem/Locking/Consistent.antt =====
-- When the waitlists, the counters and the tasks agree (`wait_for_graph` in
-- include/shmem/ocr_tbb_locking.h).
use ocr_vx.Prelude.{
  ℕ, ◌+◌, ◌<◌, ◌≤◌, Bool, false, Option, none, some, List, [], ◌∷◌, ◌==◌, if◌then◌else◌, ◌≡◌, ◌⊎◌,
  length, get_elem?, count,
}
use ocr_vx.One.Types.{Mode}
use ocr_vx.Shmem.Locking.{
  NodeData, LockGraph, Waitlist, shared, exclusive_read, exclusive_write, waitlist,
}
use ocr_vx.Shmem.Locking.Block.{Counts, Phase, WaitsAreBlocked, n_shared, n_const, n_ew, is_null}
use ocr_vx.Shmem.Locking.Calls.{next_lock}

-- The tasks that hold a block, each with its mode
abbrev pub Holders : Type 0
Holders = List (ℕ × Mode)

abbrev pub shared_held : Holders → ℕ
shared_held [] = 0
shared_held ((t, m) ∷ hs) = n_shared m + shared_held hs

abbrev pub const_held : Holders → ℕ
const_held [] = 0
const_held ((t, m) ∷ hs) = n_const m + const_held hs

abbrev pub ew_held : Holders → ℕ
ew_held [] = 0
ew_held ((t, m) ∷ hs) = n_ew m + ew_held hs

abbrev pub held : Holders → ℕ
held hs = shared_held hs + const_held hs + ew_held hs

abbrev pub HoldsIn : ℕ → Holders → Type 0
HoldsIn t [] = ⊥
HoldsIn t ((u, m) ∷ hs) = (u ≡ t) ⊎ HoldsIn t hs

-- The task holds the block in this mode.
abbrev pub HoldsAs : ℕ → Mode → Holders → Type 0
HoldsAs t n [] = ⊥
HoldsAs t n ((u, m) ∷ hs) = ((u ≡ t) × (m ≡ n)) ⊎ HoldsAs t n hs

-- A task with block `g` behind it runs, or waits for a block with a larger GUID.
abbrev pub Behind : NodeData → ℕ → Type 0
Behind e g = (next_lock e ≡ none) ⊎ ((h : ℕ) × (m : Mode) × (next_lock e ≡ some (h, m)) × (g < h))

abbrev pub lists_mode : Waitlist → Mode → ℕ
lists_mode shared m = n_shared m
lists_mode exclusive_read m = n_const m
lists_mode exclusive_write m = n_ew m

-- How often a task stands in a waitlist of block `g`, by what it locks next.
abbrev pub waits_in : ℕ → Waitlist → Option (ℕ × Mode) → ℕ
waits_in g w none = 0
waits_in g w (some (h, m)) = if h == g then lists_mode w m else 0

-- The task that is trying, if any
abbrev pub tries : Option ℕ → ℕ → Bool
tries none t = false
tries (some u) t = u == t

pub record TaskIsValid (e : NodeData) : Type 0 where
  pub sizes : length e.lock_modes ≡ length e.ordered_guids
  pub sorted :
      (i g h : ℕ)
      → e.acquired ≤ i
      → get_elem? e.ordered_guids i ≡ some g
      → get_elem? e.ordered_guids (i + 1) ≡ some h
      → g < h
  pub lockable : (i : ℕ) (m : Mode) → get_elem? e.lock_modes i ≡ some m → is_null m ≡ false

-- The counters of every block count its holders; a waitlist holds the tasks that lock the block next
-- in that mode, but for the one that is trying, once each; what waits is excluded by what is held;
-- and a task that holds a block runs or waits for one with a larger GUID.
pub record IsConsistent (s : LockGraph) (phase : ℕ → Phase) (trying : Option ℕ)
    (holders : ℕ → Holders) : Type 0 where
  pub counts :
      (g : ℕ)
      → Counts (s.dbs g) (shared_held (holders g)) (const_held (holders g)) (ew_held (holders g))
  pub blocked : (g : ℕ) → WaitsAreBlocked (phase g) (s.dbs g)
  pub queued :
      (g : ℕ) (w : Waitlist) (t : ℕ)
      → count t (waitlist w (s.dbs g))
        ≡ (if tries trying t then 0 else waits_in g w (next_lock (s.edts t)))
  pub tasks : (t : ℕ) → TaskIsValid (s.edts t)
  pub behind : (g t : ℕ) → HoldsIn t (holders g) → Behind (s.edts t) g

abbrev pub hold : (ℕ → Holders) → ℕ → ℕ → Mode → ℕ → Holders
hold holders g t m h = if h == g then (t, m) ∷ holders h else holders h

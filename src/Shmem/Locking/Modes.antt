-- ===== src/Shmem/Locking/Modes.antt =====
-- The order of the access modes, and the mode in which a task locks a block that it needs in several
-- (`mode_to_order`, `order_to_mode`, `combine_modes` in include/shmem/ocr_tbb_locking.h).
use ocr_vx.Prelude.{
  ℕ, Bool, true, false, ◌&&◌, ◌||◌, Option, none, some, ◌==◌, leb, if◌then◌else◌, ◌≡◌, arith,
}
use ocr_vx.One.Types.{Mode, db_mode_null, db_mode_ro, db_mode_rw, db_mode_const, db_mode_ew}

unfoldable pub mode_to_order : Mode → ℕ
mode_to_order db_mode_null = 0
mode_to_order db_mode_ro = 0
mode_to_order db_mode_rw = 1
mode_to_order db_mode_const = 2
mode_to_order db_mode_ew = 3

-- `none` is the assertion that fails.
unfoldable pub order_to_mode : ℕ → Option Mode
order_to_mode n =
    if n == 0
    then some db_mode_ro
    else (if n == 1
        then some db_mode_rw
        else (if n == 2 then some db_mode_const else (if n == 3 then some db_mode_ew else none)))

abbrev pub get_max : ℕ → ℕ → ℕ
get_max x y = if leb x y then y else x

abbrev pub is_const : Mode → Bool
is_const db_mode_const = true
is_const _ = false

abbrev pub is_rw : Mode → Bool
is_rw db_mode_rw = true
is_rw _ = false

unfoldable pub combine_modes : Mode → Mode → Option Mode
combine_modes m1 m2 =
    if (is_const m1 && is_rw m2) || (is_const m2 && is_rw m1)
    then some db_mode_ew
    else order_to_mode (get_max (mode_to_order m1) (mode_to_order m2))

-- `Covers m n`: a lock in mode `m` gives all that a lock in mode `n` does.
abbrev pub covers : Mode → Mode → Bool
covers db_mode_ew n = true
covers m db_mode_null = true
covers m db_mode_ro = true
covers db_mode_rw db_mode_rw = true
covers db_mode_const db_mode_const = true
covers m n = false

pub record IsJoin (a b : Mode) (r : Option Mode) : Type 0 where
  pub mode : Mode
  pub result : r ≡ some mode
  pub covers_first : covers mode a ≡ true
  pub covers_second : covers mode b ≡ true
  pub least : (c : Mode) → covers c a ≡ true → covers c b ≡ true → covers c mode ≡ true

unfoldable pub join : Mode → Mode → Mode
join a b = elim (combine_modes a b) [ none ↦ db_mode_null | some m ↦ m ]

join-least : (a b c : Mode) → covers c a ≡ true → covers c b ≡ true → covers c (join a b) ≡ true
unfolding join combine_modes order_to_mode mode_to_order
join-least db_mode_null b c h k = ground arith
join-least db_mode_ro b c h k = ground arith
join-least db_mode_rw b c h k = ground arith
join-least db_mode_const b c h k = ground arith
join-least db_mode_ew b c h k = ground arith

-- The combination of two modes is the least mode that covers both: exclusive write covers every
-- mode, every mode covers null, read-only and itself, and nothing else is covered. No assertion fails.
pub combine_modes-IsJoin : (a b : Mode) → IsJoin a b (combine_modes a b)
unfolding join combine_modes order_to_mode mode_to_order
combine_modes-IsJoin a b = record {
  mode = join a b;
  result = ground arith;
  covers_first = ground arith;
  covers_second = ground arith;
  least = join-least a b;
}

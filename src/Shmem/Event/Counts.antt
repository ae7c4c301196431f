-- ===== src/Shmem/Event/Counts.antt =====
-- Latch events as counters (`event::satisfy_preslot` in include/shmem/ocr_tbb_event.h).
use ocr_vx.Prelude.{
  ℕ, zero, suc, ◌+◌, ◌-◌, ◌%◌, ◌^◌, ◌<◌, Bool, true, false, some, List, [], ◌∷◌, ◌++◌, ◌≡◌, refl,
  ◌∙◌, ap, length, if◌then◌else◌, arith, ◌==◌,
}
use ocr_vx.One.Types.{null_guid, latch_t}
use ocr_vx.One.Latch.{latch_level}
use ocr_vx.Shmem.Event.{
  TbbEvent, new_tbb_event, satisfy_event_preslot, satisfy_latch_slot, decr_slot, incr_slot,
}
use ocr_vx.Shmem.Event.Once.{satisfy_all}

-- The calls for increments (`true`) and decrements
abbrev pub latch_calls : List Bool → List (ℕ × ℕ)
latch_calls [] = []
latch_calls (up ∷ ups) = (if up then incr_slot else decr_slot, null_guid) ∷ latch_calls ups

abbrev pub latch_with : Bool → ℕ → TbbEvent
latch_with takes_arg n = record (new_tbb_event latch_t takes_arg) { latch_count = n }

abbrev pub fired_latch : Bool → TbbEvent
fired_latch takes_arg = record (new_tbb_event latch_t takes_arg) {
  triggered = true;
  destroyed = true;
}

module _ (takes_arg : Bool) where
  up_by_one :
      (slot_data n : ℕ)
      → n + 1 < 2 ^ 32
      → satisfy_event_preslot incr_slot slot_data (latch_with takes_arg n)
        ≡ some (false, latch_with takes_arg (n + 1))
  unfolding satisfy_event_preslot satisfy_latch_slot
  up_by_one d n small = ap (λ m. some (false, latch_with takes_arg m)) (omega (arith, small))

  down_by_one :
      (slot_data n : ℕ)
      → suc (suc n) < 2 ^ 32
      → satisfy_event_preslot decr_slot slot_data (latch_with takes_arg (suc (suc n)))
        ≡ some (false, latch_with takes_arg (suc n))
  unfolding satisfy_event_preslot satisfy_latch_slot
  down_by_one d n small = rw (one_less n small) (rw (not_zero n) refl)
    where
      not_zero : (n : ℕ) → (suc n == 0) ≡ false
      not_zero n = ground arith

      one_less : (n : ℕ) → suc (suc n) < 2 ^ 32 → (suc (suc n) + 2 ^ 32 - 1) % 2 ^ 32 ≡ suc n
      one_less n small = omega (arith, small)

  fires_at_zero :
      satisfy_all (latch_calls (false ∷ [])) (latch_with takes_arg 1)
      ≡ some (1, fired_latch takes_arg)
  unfolding satisfy_event_preslot satisfy_latch_slot satisfy_all
  fires_at_zero = refl

  -- A latch counts: if increments and decrements lead from level `n` to level one and no decrement
  -- reaches zero on the way, then none of them fires the latch, and a decrement after them does,
  -- which destroys it at level zero. The level must stay below 2 ^ 32.
  pub satisfy_all-counts :
      (ups : List Bool) (n : ℕ)
      → latch_level n ups ≡ some 1
      → n + length ups < 2 ^ 32
      → satisfy_all (latch_calls (ups ++ (false ∷ []))) (latch_with takes_arg n)
        ≡ some (1, fired_latch takes_arg)
  unfolding satisfy_all
  satisfy_all-counts [] n h b =
      ap (λ m. satisfy_all (latch_calls (false ∷ [])) (latch_with takes_arg m)) (level_one n h)
      ∙ fires_at_zero
    where
      level_one : (n : ℕ) → some n ≡ some 1 → n ≡ 1
      level_one n h = cc
  satisfy_all-counts (true ∷ ups) n h b =
      rw (up_by_one null_guid n (omega (arith, b)), satisfy_all)
        (rw (satisfy_all-counts ups (n + 1) h (omega (arith, b))) refl)
  satisfy_all-counts (false ∷ ups) zero h b = cc
  satisfy_all-counts (false ∷ ups) (suc zero) h b = cc
  satisfy_all-counts (false ∷ ups) (suc (suc n)) h b =
      rw (down_by_one null_guid n (omega (arith, b)), satisfy_all)
        (rw (satisfy_all-counts ups (suc n) h (omega (arith, b))) refl)

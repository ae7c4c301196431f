-- ===== src/Shmem/Event/Tests.antt =====
-- The events of include/shmem/ocr_tbb_event.h at concrete inputs.
use ocr_vx.Prelude.{ℕ, ◌≤◌, ◌≡◌, refl, true, false, some, [], ◌∷◌, arith}
use ocr_vx.One.Types.{channel_t, idem_t, latch_t}
use ocr_vx.Shmem.Event.{
  TbbPostslot, new_tbb_event, satisfy_event_preslot, satisfy_latch_slot, satisfy_data_slot,
  set_preslot_data, trigger, satisfy_channel, connect_channel, channel_has_data, channel_has_sink,
  pop_channel_data, pop_channel_sink, add_channel_data, add_channel_sink,
}
use ocr_vx.Shmem.Event.Once.{
  satisfy_all, satisfy_all-once, idem-fires_once, idem_with, at_slot_zero,
}
use ocr_vx.Shmem.Event.Counts.{satisfy_all-counts, latch_calls, latch_with, fired_latch}
use ocr_vx.Shmem.Event.Channel.{
  satisfied_with, connected_to, use_all, channel_with, Matches, channel-Matches,
}

satisfy_all-once_example : 1 ≤ 1
unfolding satisfy_all satisfy_event_preslot satisfy_data_slot set_preslot_data trigger
satisfy_all-once_example =
    satisfy_all-once idem_t true ((0, 7) ∷ (0, 8) ∷ []) 1 (idem_with true 8) refl refl

idem-fires_once_example :
    satisfy_all (at_slot_zero (7 ∷ 8 ∷ 9 ∷ [])) (new_tbb_event idem_t true)
    ≡ some (1, idem_with true 9)
idem-fires_once_example = idem-fires_once true 7 (8 ∷ 9 ∷ [])

satisfy_all-counts_example :
    satisfy_all (latch_calls (true ∷ true ∷ false ∷ false ∷ [])) (latch_with false 0)
    ≡ some (1, fired_latch false)
satisfy_all-counts_example =
    satisfy_all-counts false (true ∷ true ∷ false ∷ []) 0 refl (omega arith)

abbrev sink : ℕ → TbbPostslot
sink g = record { node = g; slot = 0 }

channel-Matches_example : Matches true [] [] (
    satisfied_with 7
    ∷ satisfied_with 8
    ∷ connected_to (sink 1)
    ∷ connected_to (sink 2)
    ∷ connected_to (sink 3)
    ∷ [])
channel-Matches_example = channel-Matches true (
    satisfied_with 7
    ∷ satisfied_with 8
    ∷ connected_to (sink 1)
    ∷ connected_to (sink 2)
    ∷ connected_to (sink 3)
    ∷ [])

third_sink_waits :
    use_all
      (satisfied_with 7
        ∷ satisfied_with 8
        ∷ connected_to (sink 1)
        ∷ connected_to (sink 2)
        ∷ connected_to (sink 3)
        ∷ [])
      (new_tbb_event channel_t true)
    ≡ some ((sink 1, 7) ∷ (sink 2, 8) ∷ [], channel_with true [] (sink 3 ∷ []))
unfolding use_all satisfy_channel connect_channel channel_has_data channel_has_sink pop_channel_data
    pop_channel_sink add_channel_data add_channel_sink
third_sink_waits = refl

-- A decrement of a new latch wraps the count.
wraps_below_zero :
    satisfy_event_preslot 0 0 (new_tbb_event latch_t false)
    ≡ some (false, latch_with false 4294967295)
unfolding satisfy_event_preslot satisfy_latch_slot
wraps_below_zero = refl

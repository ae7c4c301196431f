-- ===== src/Shmem/Event/Channel.antt =====
-- Channel events match data and edges (`satisfy_channel`, `connect_channel`).
use ocr_vx.Prelude.{
  ℕ, Bool, Option, none, some, List, [], ◌∷◌, ◌++◌, map, ◌≡◌, ◌⊎◌, inl, inr, refl, sym, ◌∙◌, ap,
  append_nil, append_assoc,
}
use ocr_vx.One.Types.{channel_t}
use ocr_vx.Shmem.Event.{
  TbbEvent, TbbPostslot, new_tbb_event, satisfy_channel, connect_channel, channel_has_data,
  channel_has_sink, pop_channel_data, pop_channel_sink, add_channel_data, add_channel_sink,
}

pub data Use : Type 0 where
  satisfied_with : ℕ → Use
  connected_to : TbbPostslot → Use

abbrev pub use_channel : Use → TbbEvent → Option (Option (TbbPostslot × ℕ) × TbbEvent)
use_channel (satisfied_with d) e = satisfy_channel 0 d e
use_channel (connected_to x) e = connect_channel x e

abbrev pub delivery : Option (TbbPostslot × ℕ) → List (TbbPostslot × ℕ) → List (TbbPostslot × ℕ)
delivery none ds = ds
delivery (some d) ds = d ∷ ds

-- What a list of uses delivers, in order, and the channel after them
unfoldable pub use_all : List Use → TbbEvent → Option (List (TbbPostslot × ℕ) × TbbEvent)
use_all [] e = some ([], e)
use_all (u ∷ us) e = elim (use_channel u e) [
  | none ↦ none
  | some (d, f) ↦ elim (use_all us f) [ none ↦ none | some (ds, h) ↦ some (delivery d ds, h) ]
]

abbrev pub data_of : List Use → List ℕ
data_of [] = []
data_of (satisfied_with d ∷ us) = d ∷ data_of us
data_of (connected_to x ∷ us) = data_of us

abbrev pub sinks_of : List Use → List TbbPostslot
sinks_of [] = []
sinks_of (satisfied_with d ∷ us) = sinks_of us
sinks_of (connected_to x ∷ us) = x ∷ sinks_of us

abbrev pub channel_with : Bool → List ℕ → List TbbPostslot → TbbEvent
channel_with takes_arg ins outs = record (new_tbb_event channel_t takes_arg) {
  channel_in_queue = ins;
  channel_out_queue = outs;
}

-- The uses `us` match the queues `ins` and `outs`: all calls return, one queue stays empty, and the
-- data and the sinks leave in the order in which they came.
pub Matches : Bool → List ℕ → List TbbPostslot → List Use → Type 0
Matches takes_arg ins outs us =
    (ds : List (TbbPostslot × ℕ)) × (left : List ℕ) × (open_sinks : List TbbPostslot) × (use_all us
        (channel_with takes_arg ins outs)
      ≡ some (ds, channel_with takes_arg left open_sinks))
    × ((left ≡ []) ⊎ (open_sinks ≡ []))
    × (ins ++ data_of us ≡ map (λ d. d.1) ds ++ left)
    × (outs ++ sinks_of us ≡ map (λ d. d.0) ds ++ open_sinks)

module _ (takes_arg : Bool) where
  waiting-Matches :
      (us : List Use) (ins : List ℕ) (outs : List TbbPostslot)
      → (ins ≡ []) ⊎ (outs ≡ [])
      → Matches takes_arg ins outs us
  unfolding Matches use_all satisfy_channel connect_channel channel_has_data channel_has_sink
      pop_channel_data pop_channel_sink add_channel_data add_channel_sink
  waiting-Matches [] ins outs one =
      ([], ins, outs, refl, one, sym (append_nil ins), sym (append_nil outs))
  waiting-Matches (satisfied_with d ∷ us) ins [] one =
      let (ds, left, sinks, run, empty, data_order, sink_order) =
        waiting-Matches us (ins ++ (d ∷ [])) [] (inr refl) in
      (
        ds,
        left,
        sinks,
        rw run refl,
        empty,
        sym (append_assoc ins (d ∷ []) (data_of us)) ∙ data_order,
        sink_order,
      )
  waiting-Matches (satisfied_with d ∷ us) [] (x ∷ outs) one =
      let (ds, left, sinks, run, empty, data_order, sink_order) =
        waiting-Matches us [] outs (inl refl) in
      (
        (x, d) ∷ ds,
        left,
        sinks,
        rw run refl,
        empty,
        ap (λ l. d ∷ l) data_order,
        ap (λ l. x ∷ l) sink_order,
      )
  waiting-Matches (connected_to x ∷ us) [] outs one =
      let (ds, left, sinks, run, empty, data_order, sink_order) =
        waiting-Matches us [] (outs ++ (x ∷ [])) (inl refl) in
      (
        ds,
        left,
        sinks,
        rw run refl,
        empty,
        data_order,
        sym (append_assoc outs (x ∷ []) (sinks_of us)) ∙ sink_order,
      )
  waiting-Matches (connected_to x ∷ us) (d ∷ ins) [] one =
      let (ds, left, sinks, run, empty, data_order, sink_order) =
        waiting-Matches us ins [] (inr refl) in
      (
        (x, d) ∷ ds,
        left,
        sinks,
        rw run refl,
        empty,
        ap (λ l. d ∷ l) data_order,
        ap (λ l. x ∷ l) sink_order,
      )
  waiting-Matches (satisfied_with d ∷ us) (i ∷ ins) (x ∷ outs) one = elim one [
    | inl h ↦ cc
    | inr h ↦ cc
  ]
  waiting-Matches (connected_to y ∷ us) (i ∷ ins) (x ∷ outs) one = elim one [
    | inl h ↦ cc
    | inr h ↦ cc
  ]

-- A new channel event matches what it is satisfied with to the edges that leave it: for every
-- sequence of satisfactions at slot 0 and new edges, all calls return; the deliveries have the data
-- and the edges in the order of the calls, the first with the first; and what is left over waits in
-- order, on one side at most.
pub channel-Matches : (takes_arg : Bool) (us : List Use) → Matches takes_arg [] [] us
channel-Matches takes_arg us = waiting-Matches takes_arg us [] [] (inl refl)

-- ===== src/Shmem/Event.antt =====
-- The events of include/shmem/ocr_tbb_event.h, on the nodes of include/shmem/ocr_tbb_node.h. `none` is
-- an assertion that fails, or an index past the end of the preslots. The calls follow each other; the
-- lock of an event is a field that says whether it is held. `delete` only frees the event's memory.
use ocr_vx.Prelude.{
  ℕ, ◌+◌, ◌-◌, ◌%◌, ◌^◌, Bool, true, false, not, ◌&&◌, ◌||◌, Option, none, some, List, [], ◌∷◌,
  ◌++◌, ◌==◌, get_elem?, set, if◌then◌else◌,
}
use ocr_vx.One.Types.{
  Mode, db_default_mode, EventType, latch_t, channel_t, idem_t, once_t, null_guid,
}
pub mod Once
pub mod Counts
pub mod Channel
mod Tests

pub record TbbPreslot : Type 0 where
  pub satisfied : Bool
  pub data_guid : ℕ
  pub mode : Mode

-- `node` is the GUID at the end of the edge.
pub record TbbPostslot : Type 0 where
  pub node : ℕ
  pub slot : ℕ

pub record TbbEvent : Type 0 where
  pub type : EventType
  pub triggered : Bool
  pub destroyed : Bool
  pub takes_arg : Bool
  pub latch_count : ℕ
  pub channel_in_queue : List ℕ
  pub channel_out_queue : List TbbPostslot
  pub preslots : List TbbPreslot
  pub postslots : List TbbPostslot
  pub mutex_locked : Bool

-- The constructor, without the GUID: an event has one preslot.
abbrev pub new_tbb_event : EventType → Bool → TbbEvent
new_tbb_event type takes_arg = record {
  type = type;
  triggered = false;
  destroyed = false;
  takes_arg = takes_arg;
  latch_count = 0;
  channel_in_queue = [];
  channel_out_queue = [];
  preslots = record { satisfied = false; data_guid = null_guid; mode = db_default_mode } ∷ [];
  postslots = [];
  mutex_locked = false;
}

-- `OCR_EVENT_LATCH_DECR_SLOT` and `OCR_EVENT_LATCH_INCR_SLOT`
abbrev pub decr_slot : ℕ
decr_slot = 0

abbrev pub incr_slot : ℕ
incr_slot = 1

abbrev pub is_latch_type : EventType → Bool
is_latch_type latch_t = true
is_latch_type _ = false

abbrev pub is_channel_type : EventType → Bool
is_channel_type channel_t = true
is_channel_type _ = false

abbrev pub is_idem : EventType → Bool
is_idem idem_t = true
is_idem _ = false

abbrev pub is_once : EventType → Bool
is_once once_t = true
is_once _ = false

unfoldable pub set_preslot_data : ℕ → ℕ → TbbEvent → Option TbbEvent
set_preslot_data slot data_guid e = elim (get_elem? e.preslots slot) [
  | none ↦ none
  | some p ↦ some (record e {
    preslots = set e.preslots slot (record p { data_guid = data_guid; satisfied = true });
  })
]

-- `node::all_satisfied`
unfoldable pub all_preslots : List TbbPreslot → Bool
all_preslots [] = true
all_preslots (p ∷ ps) = p.satisfied && all_preslots ps

abbrev pub add_tbb_postslot : TbbPostslot → TbbEvent → TbbEvent
add_tbb_postslot x e = record e { postslots = e.postslots ++ (x ∷ []) }

-- A latch. Its count is a `u32`, and nothing stops a decrement of zero.
unfoldable pub satisfy_latch_slot : ℕ → TbbEvent → Option (Bool × TbbEvent)
satisfy_latch_slot slot e =
    if slot == decr_slot
    then (let left = (e.latch_count + 2 ^ 32 - 1) % 2 ^ 32 in
        if left == 0
        then some (true, record e { latch_count = left; triggered = true; destroyed = true })
        else some (false, record e { latch_count = left }))
    else (if (slot == incr_slot) && not e.triggered
        then some (false, record e { latch_count = (e.latch_count + 1) % 2 ^ 32 })
        else none)

-- The rest of `satisfy_preslot` once the data is in the preslot
unfoldable pub trigger : TbbEvent → Bool × TbbEvent
trigger e =
    if e.triggered
    then (false, e)
    else (true, record e { triggered = true; destroyed = e.destroyed || is_once e.type })

unfoldable pub satisfy_data_slot : ℕ → ℕ → TbbEvent → Option (Bool × TbbEvent)
satisfy_data_slot slot data_guid e =
    if not e.triggered || is_idem e.type
    then elim (set_preslot_data slot data_guid e) [ none ↦ none | some f ↦ some (trigger f) ]
    else none

-- The reply says whether the event fires now.
unfoldable pub satisfy_event_preslot : ℕ → ℕ → TbbEvent → Option (Bool × TbbEvent)
satisfy_event_preslot slot data_guid e =
    if e.destroyed || is_channel_type e.type
    then none
    else (if is_latch_type e.type
        then satisfy_latch_slot slot e
        else satisfy_data_slot slot data_guid e)

unfoldable pub eliminate : TbbEvent → Option TbbEvent
eliminate e = if not e.mutex_locked && e.destroyed then some e else none

unfoldable pub destroy : TbbEvent → Option TbbEvent
destroy e = if e.destroyed then none else eliminate (record e { destroyed = true })

unfoldable pub channel_has_data : TbbEvent → Option Bool
channel_has_data e =
    if is_channel_type e.type
    then some (elim e.channel_in_queue [ [] ↦ false | _ ∷ _ ↦ true ])
    else none

unfoldable pub channel_has_sink : TbbEvent → Option Bool
channel_has_sink e =
    if is_channel_type e.type
    then some (elim e.channel_out_queue [ [] ↦ false | _ ∷ _ ↦ true ])
    else none

unfoldable pub pop_channel_data : TbbEvent → Option (ℕ × TbbEvent)
pop_channel_data e =
    if is_channel_type e.type
    then elim e.channel_in_queue [
      | [] ↦ none
      | d ∷ ds ↦ some (d, record e { channel_in_queue = ds })
    ]
    else none

unfoldable pub pop_channel_sink : TbbEvent → Option (TbbPostslot × TbbEvent)
pop_channel_sink e =
    if is_channel_type e.type
    then elim e.channel_out_queue [
      | [] ↦ none
      | x ∷ xs ↦ some (x, record e { channel_out_queue = xs })
    ]
    else none

unfoldable pub add_channel_sink : TbbPostslot → TbbEvent → Option TbbEvent
add_channel_sink x e =
    if is_channel_type e.type
    then elim e.channel_in_queue [
      | [] ↦ some (record e { channel_out_queue = e.channel_out_queue ++ (x ∷ []) })
      | _ ∷ _ ↦ none
    ]
    else none

unfoldable pub add_channel_data : ℕ → TbbEvent → Option TbbEvent
add_channel_data data_guid e =
    if is_channel_type e.type
    then elim e.channel_out_queue [
      | [] ↦ some (record e { channel_in_queue = e.channel_in_queue ++ (data_guid ∷ []) })
      | _ ∷ _ ↦ none
    ]
    else none

-- What happens when a channel is satisfied (`satisfy_event_internal__locked` in
-- ocr_tbb_locking.h): the data goes to a sink that waits, or else waits. The caller
-- satisfies the sink with it.
unfoldable pub satisfy_channel : ℕ → ℕ → TbbEvent → Option (Option (TbbPostslot × ℕ) × TbbEvent)
satisfy_channel slot data_guid e =
    if slot == 0
    then elim (channel_has_sink e) [
      | none ↦ none
      | some true ↦ elim (pop_channel_sink e) [
        | none ↦ none
        | some (x, f) ↦ some (some (x, data_guid), f)
      ]
      | some false ↦ elim (add_channel_data data_guid e) [ none ↦ none | some f ↦ some (none, f) ]
    ]
    else none

-- What a channel does with a new edge from it (`add_dependency` there)
unfoldable pub connect_channel :
    TbbPostslot → TbbEvent → Option (Option (TbbPostslot × ℕ) × TbbEvent)
connect_channel sink e = elim (channel_has_data e) [
  | none ↦ none
  | some true ↦ elim (pop_channel_data e) [ none ↦ none | some (d, f) ↦ some (some (sink, d), f) ]
  | some false ↦ elim (add_channel_sink sink e) [ none ↦ none | some f ↦ some (none, f) ]
]

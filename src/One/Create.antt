-- ===== src/One/Create.antt =====
-- Creating and destroying events, templates and ranges: include/one/runtime.h.
use ocr_vx.Prelude.{
  ℕ, Bool, true, false, not, ◌||◌, [], Option, none, some, ◌==◌, ltb, if◌then◌else◌, set, replicate,
  bit_and,
}
use ocr_vx.One.Types.{
  EventType, latch_t, counted_t, collective_t, Event, EdtTemplate, Range, Object, event_object,
  edt_template_object, range_object, empty_preslot, null_guid, bad_argument, unsupported,
  guid_taken, wrong_type, undefined_behaviour,
}
use ocr_vx.One.Monad.{
  M, ◌>>=◌, ◌>>◌, pure, stop, guard, get, exists, add_object, remove_as, event_kind, template_kind,
  put, get_next, update_lid, as_edt_template, as_range, resolve_lid,
}
use ocr_vx.One.Node.{at_slot}

-- The property bits, `u16`. `GUID_PROP_CHECK` and `GUID_PROP_BLOCK` contain `GUID_PROP_IS_LABELED`.
abbrev pub evt_prop_takes_arg : ℕ
evt_prop_takes_arg = 0x1

abbrev pub evt_prop_mapped : ℕ
evt_prop_mapped = 0x2

abbrev pub guid_prop_is_labeled : ℕ
guid_prop_is_labeled = 0x100

abbrev pub guid_prop_check : ℕ
guid_prop_check = 0x300

abbrev pub guid_prop_block : ℕ
guid_prop_block = 0x500

-- `(properties & mask) == mask`, and `properties & mask` as a test
abbrev pub has_all : ℕ → ℕ → Bool
has_all properties mask = bit_and properties mask == mask

abbrev pub has_any : ℕ → ℕ → Bool
has_any properties mask = not (bit_and properties mask == 0)

unfoldable pub event_type_is_valid : EventType → Bool
event_type_is_valid counted_t = false
event_type_is_valid collective_t = false
event_type_is_valid _ = true

unfoldable pub is_latch : EventType → Bool
is_latch latch_t = true
is_latch _ = false

-- Where the new object's GUID comes from: a lid that the object resolves, a labeled GUID of the
-- caller, or the generator. `none` is the early return of `GUID_PROP_CHECK` on a GUID in use.
unfoldable pub choose_guid : ℕ → ℕ → ℕ → M (Option ℕ)
choose_guid mapped guid properties =
    if has_any properties mapped
    then (do
      guard (not (guid == null_guid)) bad_argument
      actual_guid ← get_next
      update_lid guid actual_guid
      pure (some actual_guid))
    else if has_all properties guid_prop_check
    then (do
      guard (not (guid == null_guid)) bad_argument
      present ← exists guid
      pure (if present then none else some guid))
    else if has_all properties guid_prop_is_labeled
    then (do
      guard (not (guid == null_guid)) bad_argument
      present ← exists guid
      guard (not present) guid_taken
      pure (some guid))
    else (do g ← get_next; pure (some g))

-- The constructor of `event`, with two preslots for a latch
unfoldable pub new_event : EventType → Bool → Event
new_event type takes_arg = record {
  preslots = replicate (if is_latch type then 2 else 1) empty_preslot;
  postslots = [];
  type = type;
  takes_arg = takes_arg;
  satisfied = false;
  data_guid = null_guid;
  latch_count = 0;
  channel_in_queue = [];
  channel_out_queue = [];
}

unfoldable pub finish_event : EventType → ℕ → ℕ → Option ℕ → M ℕ
finish_event type properties guid none = pure guid
finish_event type properties guid (some g) = do
  add_object g (event_object (new_event type (has_any properties evt_prop_takes_arg)))
  pure g

-- `runtime::create_event`: the GUID behind the pointer before and after the call
unfoldable pub create_event : ℕ → EventType → ℕ → M ℕ
create_event guid type properties = do
  guard (not (has_all properties guid_prop_block)) unsupported
  guard (event_type_is_valid type) bad_argument
  guard (not (is_latch type) || not (properties == evt_prop_takes_arg)) bad_argument
  choice ← choose_guid evt_prop_mapped guid properties
  finish_event type properties guid choice

-- `runtime::destroy_event`
unfoldable pub destroy_event : ℕ → M (Unit {0})
destroy_event what = do g ← resolve_lid what; remove_as event_kind g

-- `runtime::create_edt_template`
unfoldable pub create_edt_template : ℕ → ℕ → ℕ → M ℕ
create_edt_template func paramc depc = do
  g ← get_next
  add_object g (edt_template_object (record { func = func; paramc = paramc; depc = depc }))
  pure g

unfoldable pub get_edt_template : ℕ → M EdtTemplate
get_edt_template g = get g >>= as_edt_template

-- `runtime::destroy_edt_template`
unfoldable pub destroy_edt_template : ℕ → M (Unit {0})
destroy_edt_template what = do g ← resolve_lid what; remove_as template_kind g

-- The kinds of `ocrGuidUserKind` that pass both assertions of `guid_range_create`:
-- `GUID_USER_EDT` and the once, sticky, latch and channel events
abbrev pub is_range_kind : ℕ → Bool
is_range_kind kind = kind == 3 || (kind == 17 || (kind == 22 || (kind == 21 || kind == 23)))

-- `runtime::guid_range_create`
unfoldable pub guid_range_create : ℕ → ℕ → M ℕ
guid_range_create number_guid kind = do
  guard (is_range_kind kind) bad_argument
  g ← get_next
  add_object g (
      range_object
        (record { size = number_guid; kind = kind; guids = replicate number_guid null_guid }))
  pure g

unfoldable pub get_range : ℕ → M Range
get_range g = get g >>= as_range

-- `!res || !exists(res)`
unfoldable pub is_unused : ℕ → M Bool
is_unused g = if g == null_guid then pure true else (exists g >>= λ present. pure (not present))

unfoldable pub write_index : ℕ → ℕ → ℕ → Object → M (Unit {0})
write_index range_guid idx g (range_object r) =
    put range_guid (range_object (record r { guids = set r.guids idx g }))
write_index range_guid idx g _ = stop wrong_type

-- `(*rng)[idx] = g`
unfoldable pub update_range : ℕ → ℕ → ℕ → M (Unit {0})
update_range range_guid idx g = do o ← get range_guid; write_index range_guid idx g o

unfoldable pub refresh_index : ℕ → ℕ → M ℕ
refresh_index range_guid idx = do g ← get_next; update_range range_guid idx g; pure g

-- `runtime::guid_from_index`: the entry is drawn anew while no object has its GUID.
unfoldable pub guid_from_index : ℕ → ℕ → M ℕ
guid_from_index range_guid idx = do
  r ← get_range range_guid
  guard (ltb idx r.size) bad_argument
  res ← at_slot r.guids idx undefined_behaviour
  unused ← is_unused res
  if unused then refresh_index range_guid idx else pure res

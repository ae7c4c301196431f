-- ===== src/One/Node.antt =====
-- Satisfying events and EDTs: `event::satisfy`, `event::handle_satisfied`, `edt::satisfy` and
-- `node::set_preslot`, `node::add_postslot` of include/one and src/one/ocr_one.cpp, with
-- `satisfy_event` and `satisfy_preslot` of include/one/runtime.h.
-- `event::satisfy` calls itself through `handle_satisfied`: `deliver` stands for that inner call.
use ocr_vx.Prelude.{
  ℕ, zero, suc, ◌+◌, ◌-◌, ◌%◌, ◌^◌, Bool, true, false, not, ◌&&◌, List, [], ◌∷◌, ◌++◌, none, some,
  ◌==◌, ltb, if◌then◌else◌, set, get_elem?,
}
use ocr_vx.One.Types.{
  Mode, db_mode_null, EventType, once_t, idem_t, sticky_t, latch_t, channel_t, Preslot, Postslot,
  Event, Edt, Object, event_object, edt_object, Runtime, Fault, null_guid, wrong_type, invalid_slot,
  multiple_satisfaction, already_satisfied, latch_underflow, invalid_event_type,
  modified_without_release, undefined_behaviour, out_of_fuel,
}
use ocr_vx.One.Monad.{
  Result, ok, fault, M, ◌>>=◌, ◌>>◌, pure, stop, guard, get, remove_as, event_kind, put, as_event,
  as_edt, resolve_lid,
}
use ocr_vx.One.Db.{may_be_modified, was_modified, get_db}

abbrev pub latch_decr_slot : ℕ
latch_decr_slot = 0

abbrev pub latch_incr_slot : ℕ
latch_incr_slot = 1

-- `event::satisfy` on an event, a data block and a slot
abbrev pub Deliver : Type 0
Deliver = ℕ → ℕ → ℕ → M (Unit {0})

-- `preslots_[i]`, which is not checked
unfoldable pub at_slot {ℓ} : {A : Type ℓ} → List A → ℕ → Fault → Runtime → Result (A × Runtime)
at_slot xs i e s = elim (get_elem? xs i) [ none ↦ fault e | some x ↦ ok (x, s) ]

unfoldable pub get_event : ℕ → M Event
get_event g = get g >>= as_event

unfoldable pub get_edt : ℕ → M Edt
get_edt g = get g >>= as_edt

-- A write to the fields of an event that `get` has found.
unfoldable pub write_event : ℕ → (Event → Event) → Object → M (Unit {0})
write_event g f (event_object e) = put g (event_object (f e))
write_event g f _ = stop wrong_type

unfoldable pub update_event : ℕ → (Event → Event) → M (Unit {0})
update_event g f = do o ← get g; write_event g f o

unfoldable pub all_satisfied : List Preslot → Bool
all_satisfied [] = true
all_satisfied (p ∷ ps) = p.satisfied && all_satisfied ps

unfoldable pub append_task : ℕ → M (Unit {0})
append_task g s = ok (tt, record s { ready_tasks = s.ready_tasks ++ (g ∷ []) })

-- `runtime::spawn`: `task_list::add`
unfoldable pub spawn : ℕ → M (Unit {0})
spawn g = do e ← get_edt g; append_task g

unfoldable pub satisfy_edt_slot : ℕ → Edt → ℕ → ℕ → Preslot → M (Unit {0})
satisfy_edt_slot g e arg slot p = do
  guard (not p.satisfied) multiple_satisfaction
  let slots = set e.preslots slot (record p { satisfied = true; data_guid = arg })
  put g (edt_object (record e { preslots = slots }))
  if all_satisfied slots then spawn g else pure tt

unfoldable pub satisfy_edt_object : ℕ → ℕ → ℕ → Object → M (Unit {0})
satisfy_edt_object g arg slot (edt_object e) = do
  p ← at_slot e.preslots slot invalid_slot
  satisfy_edt_slot g e arg slot p
satisfy_edt_object g arg slot _ = stop wrong_type

-- `edt::satisfy`
unfoldable pub edt_satisfy : Deliver
edt_satisfy g arg slot = do o ← get g; satisfy_edt_object g arg slot o

-- The branch on `n->type()` behind `as_node`.
unfoldable pub object_satisfy : Deliver → Object → Deliver
object_satisfy deliver (event_object e) g arg slot = deliver g arg slot
object_satisfy deliver (edt_object e) g arg slot = edt_satisfy g arg slot
object_satisfy deliver _ g arg slot = stop wrong_type

unfoldable pub node_satisfy : Deliver → Deliver
node_satisfy deliver g arg slot = do o ← get g; object_satisfy deliver o g arg slot

-- The check of `satisfy_event` on a block that is still held.
unfoldable pub check_data : ℕ → M (Unit {0})
check_data arg = if arg == null_guid then pure tt else (do
  b ← get_db arg
  guard (not (b.acquired && (may_be_modified b.acquire_mode && was_modified b)))
      modified_without_release)

-- `runtime::satisfy_event`
unfoldable pub satisfy_event : Deliver → Deliver
satisfy_event deliver event_guid data_guid slot = do
  g ← resolve_lid event_guid
  arg ← resolve_lid data_guid
  e ← get_event g
  check_data arg
  deliver g (if e.takes_arg then arg else null_guid) slot

unfoldable pub object_satisfy_preslot : Deliver → Object → Deliver
object_satisfy_preslot deliver (event_object e) g arg slot = satisfy_event deliver g arg slot
object_satisfy_preslot deliver (edt_object e) g arg slot = edt_satisfy g arg slot
object_satisfy_preslot deliver _ g arg slot = stop wrong_type

-- `runtime::satisfy_preslot`
unfoldable pub satisfy_preslot : Deliver → Deliver
satisfy_preslot deliver target_guid data_guid slot = do
  g ← resolve_lid target_guid
  arg ← resolve_lid data_guid
  o ← get g
  if arg == null_guid then pure tt else (get arg >>= λ _. pure tt)
  object_satisfy_preslot deliver o g arg slot

-- The EDT or event gets no block over a pure control edge.
unfoldable pub local_data : Mode → ℕ → ℕ
local_data db_mode_null arg = null_guid
local_data _ arg = arg

-- The loop of `event::handle_satisfied`, which reads `data_` anew in each round.
unfoldable pub notify : Deliver → ℕ → List Postslot → M (Unit {0})
notify deliver g [] = pure tt
notify deliver g (p ∷ ps) = do
  e ← get_event g
  node_satisfy deliver p.destination (local_data p.preslot_mode e.data_guid) p.preslot_index
  notify deliver g ps

-- `pop_front` on the two queues of a channel
abbrev pub pop_front {ℓ} : {A : Type ℓ} → List A → List A
pop_front [] = []
pop_front (x ∷ xs) = xs

-- The channel's branch: the front of each queue, the sink dropped after it was satisfied.
unfoldable pub channel_satisfied : Deliver → ℕ → List ℕ → List Postslot → M (Unit {0})
channel_satisfied deliver g [] outs = stop undefined_behaviour
channel_satisfied deliver g (arg ∷ ins) [] = pure tt
channel_satisfied deliver g (arg ∷ ins) (p ∷ ps) = do
  update_event g (λ e. record e { data_guid = arg; channel_in_queue = ins })
  satisfy_preslot deliver p.destination arg p.preslot_index
  update_event g (λ e. record e { channel_out_queue = pop_front e.channel_out_queue })

unfoldable pub is_channel : EventType → Bool
is_channel channel_t = true
is_channel _ = false

-- `event::handle_satisfied`
unfoldable pub handle_satisfied : Deliver → ℕ → M (Unit {0})
handle_satisfied deliver g = do
  e ← get_event g
  if is_channel e.type
      then channel_satisfied deliver g e.channel_in_queue e.channel_out_queue
      else notify deliver g e.postslots

unfoldable pub set_satisfied : ℕ → M (Unit {0})
set_satisfied g = update_event g (λ e. record e { satisfied = true })

-- The two slots of a latch; `++latch_count_` wraps.
unfoldable pub latch_satisfy : Deliver → ℕ → ℕ → ℕ → M (Unit {0})
latch_satisfy deliver g latch_count slot =
    if slot == latch_incr_slot
    then update_event g (λ e. record e { latch_count = (latch_count + 1) % 2 ^ 64 })
    else if slot == latch_decr_slot
    then (do
      guard (ltb 0 latch_count) latch_underflow
      update_event g (λ e. record e { latch_count = latch_count - 1 })
      if latch_count - 1 == 0
          then (do handle_satisfied deliver g; remove_as event_kind g)
          else pure tt)
    else stop invalid_slot

-- The switch of `event::satisfy` over `type_`. `handle_delete` of an event removes its GUID.
unfoldable pub satisfy_by_type : Deliver → EventType → Event → ℕ → ℕ → ℕ → M (Unit {0})
satisfy_by_type deliver idem_t e g arg slot = do
  guard (slot == 0) invalid_slot
  if e.satisfied then pure tt else (do set_satisfied g; handle_satisfied deliver g)
satisfy_by_type deliver once_t e g arg slot = do
  guard (slot == 0) invalid_slot
  guard (not e.satisfied) already_satisfied
  set_satisfied g
  handle_satisfied deliver g
  remove_as event_kind g
satisfy_by_type deliver sticky_t e g arg slot = do
  guard (slot == 0) invalid_slot
  guard (not e.satisfied) already_satisfied
  set_satisfied g
  handle_satisfied deliver g
satisfy_by_type deliver latch_t e g arg slot = latch_satisfy deliver g e.latch_count slot
satisfy_by_type deliver channel_t e g arg slot = do
  guard (slot == 0) invalid_slot
  update_event g (λ e. record e { channel_in_queue = e.channel_in_queue ++ (arg ∷ []) })
  handle_satisfied deliver g
satisfy_by_type deliver _ e g arg slot = stop invalid_event_type

-- One call of `event::satisfy`: the slot's mode may drop the block, and `data_` is set before the
-- event's type is looked at.
unfoldable pub event_satisfy_step : Deliver → Deliver
event_satisfy_step deliver g data_guid slot = do
  e ← get_event g
  p ← at_slot e.preslots slot undefined_behaviour
  let arg = local_data p.mode data_guid
  update_event g (λ e. record e { data_guid = arg })
  satisfy_by_type deliver e.type e g arg slot

-- `event::satisfy`; `fuel` bounds how deep the calls nest.
unfoldable pub event_satisfy : ℕ → Deliver
event_satisfy zero g arg slot = stop out_of_fuel
event_satisfy (suc fuel) g arg slot = event_satisfy_step (event_satisfy fuel) g arg slot

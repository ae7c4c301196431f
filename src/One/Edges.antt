-- ===== src/One/Edges.antt =====
-- Dependences: `node::set_preslot`, `node::add_postslot` and `event::channel_add_postslot` of
-- src/one/ocr_one.cpp, and `runtime::add_dependence` of include/one/runtime.h.
use ocr_vx.Prelude.{ℕ, true, [], ◌∷◌, ◌++◌, ◌==◌, if◌then◌else◌, set}
use ocr_vx.One.Types.{
  Mode, Preslot, Postslot, Object, event_object, edt_object, db_object, null_guid, wrong_type,
  invalid_slot,
}
use ocr_vx.One.Monad.{M, ◌>>=◌, ◌>>◌, pure, stop, get, put, resolve_lid}
use ocr_vx.One.Db.{is_empty}
use ocr_vx.One.Node.{
  Deliver, at_slot, get_event, update_event, is_channel, handle_satisfied, node_satisfy,
}

abbrev pub define_preslot : Preslot → Mode → ℕ → Preslot
define_preslot p mode source = record p { defined = true; mode = mode; source = source }

-- A node is an event or an EDT; on a preslot that is defined already the code only warns.
unfoldable pub set_preslot_of : Object → ℕ → ℕ → Mode → ℕ → M (Unit {0})
set_preslot_of (event_object e) g index mode source = do
  p ← at_slot e.preslots index invalid_slot
  put g (event_object (record e { preslots = set e.preslots index (define_preslot p mode source) }))
set_preslot_of (edt_object e) g index mode source = do
  p ← at_slot e.preslots index invalid_slot
  put g (edt_object (record e { preslots = set e.preslots index (define_preslot p mode source) }))
set_preslot_of _ g index mode source = stop wrong_type

-- `node::set_preslot`
unfoldable pub set_preslot : ℕ → ℕ → Mode → ℕ → M (Unit {0})
set_preslot g index mode source = do o ← get g; set_preslot_of o g index mode source

-- `event::channel_add_postslot`
unfoldable pub channel_add_postslot : Deliver → ℕ → Postslot → M (Unit {0})
channel_add_postslot deliver g p = do
  update_event g (λ e. record e { channel_out_queue = e.channel_out_queue ++ (p ∷ []) })
  e ← get_event g
  if is_empty e.channel_in_queue then pure tt else handle_satisfied deliver g

-- `node::add_postslot`, on an event
unfoldable pub add_postslot : Deliver → ℕ → Postslot → M (Unit {0})
add_postslot deliver g p = do
  e ← get_event g
  if is_channel e.type
      then channel_add_postslot deliver g p
      else update_event g (λ e. record e { postslots = e.postslots ++ (p ∷ []) })

-- The second half of `add_dependence`: the branch on the type of the source.
unfoldable pub connect : Deliver → Object → ℕ → ℕ → ℕ → Mode → M (Unit {0})
connect deliver (db_object b) source destination slot mode =
    node_satisfy deliver destination source slot
connect deliver (event_object e) source destination slot mode = do
  add_postslot deliver source
      (record { destination = destination; preslot_index = slot; preslot_mode = mode })
  e ← get_event source
  if e.satisfied then node_satisfy deliver destination e.data_guid slot else pure tt
connect deliver _ source destination slot mode = stop wrong_type

-- `runtime::add_dependence`
unfoldable pub add_dependence : Deliver → ℕ → ℕ → ℕ → Mode → M (Unit {0})
add_dependence deliver source_guid destination_guid slot mode = do
  source ← resolve_lid source_guid
  destination ← resolve_lid destination_guid
  set_preslot destination slot mode source
  if source == null_guid
      then node_satisfy deliver destination source slot
      else (do o ← get source; connect deliver o source destination slot mode)

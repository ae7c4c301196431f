-- ===== src/One/Tasks.antt =====
-- Creating EDTs: the constructor and `initialize_deps` of `edt` (src/one/ocr_one.cpp),
-- `runtime::create_edt`, event-local storage and `remove_lids` (include/one/runtime.h).
use ocr_vx.Prelude.{
  ℕ, zero, suc, ◌+◌, ◌-◌, ◌^◌, Bool, not, ◌||◌, List, [], ◌∷◌, Option, none, some, ◌==◌, ltb, leb,
  if◌then◌else◌, length, take, replicate,
}
use ocr_vx.One.Types.{
  db_mode_null, db_default_mode, once_t, latch_t, Edt, EdtTemplate, edt_object, empty_preslot,
  null_guid, uninitialized_guid, bad_argument, undefined_behaviour,
}
use ocr_vx.One.Monad.{
  ok, fault, M, ◌>>=◌, ◌>>◌, pure, stop, guard, add_object, remove_as, lid_kind, resolve_lid,
}
use ocr_vx.One.Node.{Deliver, satisfy_event, spawn, latch_incr_slot, latch_decr_slot, at_slot}
use ocr_vx.One.Edges.{add_dependence}
use ocr_vx.One.Create.{has_any, choose_guid, create_event, get_edt_template, evt_prop_takes_arg}

abbrev pub edt_param_unk : ℕ
edt_param_unk = 2 ^ 32 - 1

abbrev pub edt_param_def : ℕ
edt_param_def = 2 ^ 32 - 2

abbrev pub edt_prop_finish : ℕ
edt_prop_finish = 0x1

-- The same bit as `EDT_PROP_LONG`.
abbrev pub edt_prop_mapped : ℕ
edt_prop_mapped = 0x4

-- `latch_for_children_` of the EDT that runs; the null GUID outside an EDT
unfoldable pub current_latch : M ℕ
current_latch s = elim s.this_edt [
  | none ↦ ok (null_guid, s)
  | some e ↦ ok (e.latch_for_children, s)
]

-- The constructor of `edt` counts the new task in on the parent's latch, and on its own event if
-- it is a finish EDT; the postslot that it leaves with is the task's only one.
unfoldable pub join_parent : Deliver → ℕ → ℕ → M ℕ
join_parent deliver event latch = if latch == null_guid then pure null_guid else (do
  satisfy_event deliver latch null_guid latch_incr_slot
  add_dependence deliver event latch latch_decr_slot db_mode_null
  pure latch)

-- The calls that the constructor of `edt` makes; the result is the new task's latch.
unfoldable pub join_latches : Deliver → ℕ → Bool → M ℕ
join_latches deliver event is_finish = do
  parent ← current_latch
  joined ← join_parent deliver event parent
  if is_finish then satisfy_event deliver event null_guid latch_incr_slot else pure tt
  pure (if is_finish then event else joined)

-- The fields that the constructor of `edt` sets.
unfoldable pub new_edt : ℕ → EdtTemplate → List ℕ → ℕ → ℕ → Bool → ℕ → Edt
new_edt guid et params depc event is_finish latch = record {
  guid = guid;
  preslots = replicate depc empty_preslot;
  postslots =
      (if is_finish
        then record {
          destination = event;
          preslot_index = latch_decr_slot;
          preslot_mode = db_mode_null;
        }
        else record { destination = event; preslot_index = 0; preslot_mode = db_default_mode })
      ∷ [];
  params = params;
  func = et.func;
  event = event;
  latch_for_children = latch;
  lids = [];
  acquired_blocks = [];
  els = [];
}

-- `edt::initialize_deps` from index `i` on
unfoldable pub initialize_deps : Deliver → ℕ → ℕ → List ℕ → M (Unit {0})
initialize_deps deliver g i [] = pure tt
initialize_deps deliver g i (d ∷ depv) = do
  if d == uninitialized_guid then pure tt else add_dependence deliver d g i db_default_mode
  initialize_deps deliver g (i + 1) depv

-- `paramv + paramc` and `depv[i]` read that many entries.
unfoldable pub read_array : ℕ → List ℕ → M (List ℕ)
read_array n xs = if leb n (length xs) then pure (take n xs) else stop undefined_behaviour

unfoldable pub read_params : ℕ → Option (List ℕ) → M (List ℕ)
read_params paramc none = do guard (paramc == 0) bad_argument; pure []
read_params paramc (some paramv) = do guard (ltb 0 paramc) bad_argument; read_array paramc paramv

unfoldable pub read_deps : ℕ → Option (List ℕ) → M (List ℕ)
read_deps depc none = pure []
read_deps depc (some depv) = read_array depc depv

-- A count is the template's if the caller passes `EDT_PARAM_DEF`; it must be known and agree.
unfoldable pub param_count : ℕ → ℕ → M ℕ
param_count given declared = do
  let n = if given == edt_param_def then declared else given
  guard (not (n == edt_param_unk)) bad_argument
  guard (declared == edt_param_unk || n == declared) bad_argument
  pure n

unfoldable pub enter_edt : Deliver → ℕ → Edt → ℕ → Option (List ℕ) → M (Unit {0})
enter_edt deliver g e depc depv = do
  add_object g (edt_object e)
  deps ← read_deps depc depv
  initialize_deps deliver g 0 deps
  if depc == 0 then spawn g else pure tt

-- What `create_edt` does once the GUID is known; it returns the GUID and the output event.
unfoldable pub finish_edt :
    Deliver → EdtTemplate → List ℕ → ℕ → Option (List ℕ) → ℕ → Option ℕ → ℕ → M (ℕ × ℕ)
finish_edt deliver et params depc depv properties none guid = pure (guid, null_guid)
finish_edt deliver et params depc depv properties (some g) guid = do
  event ←
      (if has_any properties edt_prop_finish
        then create_event null_guid latch_t 0
        else create_event null_guid once_t evt_prop_takes_arg)
  latch ← join_latches deliver event (has_any properties edt_prop_finish)
  enter_edt deliver g (new_edt g et params depc event (has_any properties edt_prop_finish) latch)
      depc depv
  pure (g, event)

-- `runtime::create_edt`; a null pointer for `paramv` or `depv` is `none`.
unfoldable pub create_edt :
    Deliver → ℕ → ℕ → ℕ → Option (List ℕ) → ℕ → Option (List ℕ) → ℕ → M (ℕ × ℕ)
create_edt deliver guid template_guid given_paramc paramv given_depc depv properties = do
  template ← resolve_lid template_guid
  et ← get_edt_template template
  paramc ← param_count given_paramc et.paramc
  depc ← param_count given_depc et.depc
  params ← read_params paramc paramv
  choice ← choose_guid edt_prop_mapped guid properties
  finish_edt deliver et params depc depv properties choice guid

-- `runtime::remove_lids`
unfoldable pub remove_lids : List ℕ → M (Unit {0})
remove_lids [] = pure tt
remove_lids (l ∷ lids) = do remove_as lid_kind l; remove_lids lids

unfoldable pub els_entry : Option Edt → ℕ → M ℕ
els_entry none offset = stop bad_argument
els_entry (some e) offset = at_slot e.els offset undefined_behaviour

-- `runtime::els_get`
unfoldable pub els_get : ℕ → M ℕ
els_get offset s = els_entry s.this_edt offset s

-- `resize` to `offset + 1` if the vector is too short, then the assignment
unfoldable pub set_growing : List ℕ → ℕ → ℕ → List ℕ
set_growing [] zero v = v ∷ []
set_growing [] (suc i) v = null_guid ∷ set_growing [] i v
set_growing (x ∷ xs) zero v = v ∷ xs
set_growing (x ∷ xs) (suc i) v = x ∷ set_growing xs i v

-- `runtime::els_set`
unfoldable pub els_set : ℕ → ℕ → M (Unit {0})
els_set offset v s = elim s.this_edt [
  | none ↦ fault bad_argument
  | some e ↦ ok (tt, record s { this_edt = some (record e { els = set_growing e.els offset v }) })
]

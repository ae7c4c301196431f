-- ===== src/One/Types.antt =====
-- include/one/types.h, guid.h, node.h, event.h, edt.h, edt_template.h, db.h, labeled_guids.h and the
-- members of `runtime` (include/one/runtime.h). A GUID is the 64-bit pattern of `ocrGuid_t`.
use ocr_vx.Prelude.{ℕ, ◌-◌, ◌^◌, Bool, false, List, [], Option, none}

abbrev pub null_guid : ℕ
null_guid = 0

abbrev pub uninitialized_guid : ℕ
uninitialized_guid = 2 ^ 64 - 2

-- `ocrDbAccessMode_t`
pub data Mode : Type 0 where
  db_mode_null db_mode_const db_mode_rw db_mode_ew db_mode_ro : Mode

abbrev pub db_default_mode : Mode
db_default_mode = db_mode_rw

-- `ocrEventTypes_t`
pub data EventType : Type 0 where
  once_t idem_t sticky_t latch_t counted_t channel_t collective_t : EventType

-- The edges of the object graph carry a trace id in the source, which is left out.
pub record Preslot : Type 0 where
  pub mode : Mode
  pub source : ℕ
  pub defined : Bool
  pub satisfied : Bool
  pub data_guid : ℕ

-- the constructor `preslot_t()`
abbrev pub empty_preslot : Preslot
empty_preslot = record {
  mode = db_default_mode;
  source = null_guid;
  defined = false;
  satisfied = false;
  data_guid = null_guid;
}

pub record Postslot : Type 0 where
  pub destination : ℕ
  pub preslot_index : ℕ
  pub preslot_mode : Mode

pub record Event : Type 0 where
  pub preslots : List Preslot
  pub postslots : List Postslot
  pub type : EventType
  pub takes_arg : Bool
  pub satisfied : Bool
  pub data_guid : ℕ
  pub latch_count : ℕ
  pub channel_in_queue : List ℕ
  pub channel_out_queue : List Postslot

-- `guid` is the field of `guided`; a task needs it while it runs outside the object list.
pub record Edt : Type 0 where
  pub guid : ℕ
  pub preslots : List Preslot
  pub postslots : List Postslot
  pub params : List ℕ
  pub func : ℕ
  pub event : ℕ
  pub latch_for_children : ℕ
  pub lids : List ℕ
  pub acquired_blocks : List ℕ
  pub els : List ℕ

pub record EdtTemplate : Type 0 where
  pub func : ℕ
  pub paramc : ℕ
  pub depc : ℕ

-- Bytes are numbers. The file and parent of a block are left out with the calls that set them.
pub record Db : Type 0 where
  pub size : ℕ
  pub buffer_private : List ℕ
  pub buffer_public : List ℕ
  pub acquired : Bool
  pub acquire_mode : Mode
  pub owner : ℕ

pub record Range : Type 0 where
  pub size : ℕ
  pub kind : ℕ
  pub guids : List ℕ

-- What a GUID can name: `object_type` with the object behind the pointer.
pub data Object : Type 0 where
  event_object : Event → Object
  edt_object : Edt → Object
  edt_template_object : EdtTemplate → Object
  db_object : Db → Object
  lid_object : ℕ → Object
  range_object : Range → Object
  system_object : Object

pub record Runtime : Type 0 where
  pub sequence : ℕ
  pub objects : ℕ → Option Object
  pub ready_tasks : List ℕ
  pub shutdown_issued : Bool
  pub abort_issued : Bool
  pub abort_error_code : ℕ
  pub this_edt : Option Edt

-- The constructor of `runtime`: the generator starts at 8.
abbrev pub initial_runtime : Runtime
initial_runtime = record {
  sequence = 8;
  objects = λ _. none;
  ready_tasks = [];
  shutdown_issued = false;
  abort_issued = false;
  abort_error_code = 0;
  this_edt = none;
}

-- The assertion that stops the program, or the undefined behaviour that the code runs into.
pub data Fault : Type 0 where
  guid_missing guid_taken wrong_type undefined_lid bad_argument unsupported : Fault
  invalid_slot multiple_satisfaction already_satisfied latch_underflow invalid_event_type : Fault
  db_already_acquired db_not_acquired modified_without_release read_only_modified : Fault
  block_not_held no_more_tasks not_ready out_of_bounds undefined_behaviour out_of_fuel : Fault

-- ===== src/One/Run.antt =====
-- The application and the main loop. The code of an EDT is a program that makes calls of the API
-- (src/one/ocr_api.cpp) and reads and writes the blocks it holds; `App` finds it by its function
-- pointer. `edt::run`, `edt::handle_finished`, `task_list::get_next` and `runtime::start` are in
-- src/one/ocr_one.cpp.
use ocr_vx.Prelude.{
  ℕ, zero, suc, ◌+◌, Bool, true, false, ◌||◌, List, [], ◌∷◌, Option, none, some, ◌==◌,
  if◌then◌else◌, contains, length,
}
use ocr_vx.One.Types.{
  Mode, EventType, Preslot, Postslot, Edt, null_guid, no_more_tasks, not_ready, undefined_behaviour,
  out_of_fuel, system_object,
}
use ocr_vx.One.Monad.{
  ok, fault, M, ◌>>=◌, ◌>>◌, pure, stop, guard, add_object, remove_object, resolve_lid,
}
use ocr_vx.One.Db.{
  create_db, release_db, destroy_db, release_held, acquire_db, add_acquired_block, write_db,
  read_db, get_db, get_current_edt_guid,
}
use ocr_vx.One.Node.{
  Deliver, event_satisfy, satisfy_event, node_satisfy, local_data, all_satisfied, get_edt,
  get_event,
}
use ocr_vx.One.Edges.{add_dependence}
use ocr_vx.One.Create.{
  create_event, destroy_event, create_edt_template, destroy_edt_template, guid_range_create,
  guid_from_index,
}
use ocr_vx.One.Tasks.{create_edt, remove_lids, els_get, els_set}

-- `ocrEdtDep_t`: the block, and whether its pointer is not null
pub record Dep : Type 0 where
  pub guid : ℕ
  pub has_ptr : Bool

-- What an EDT's code can do to the runtime.
pub data Call : Type 0 where
  ocr_db_create : (len flags : ℕ) → Call
  ocr_db_release ocr_db_destroy : (db : ℕ) → Call
  ocr_event_create : (guid : ℕ) (type : EventType) (properties : ℕ) → Call
  ocr_event_destroy : (guid : ℕ) → Call
  ocr_event_satisfy_slot : (event data_guid slot : ℕ) → Call
  ocr_edt_template_create : (func paramc depc : ℕ) → Call
  ocr_edt_template_destroy : (guid : ℕ) → Call
  ocr_edt_create :
      (guid template paramc : ℕ) (paramv : Option (List ℕ)) (depc : ℕ) (depv : Option (List ℕ))
      (properties : ℕ)
      → Call
  ocr_add_dependence : (source destination slot : ℕ) (mode : Mode) → Call
  ocr_guid_range_create : (number kind : ℕ) → Call
  ocr_guid_from_index : (range idx : ℕ) → Call
  ocr_get_guid : (source : ℕ) → Call
  ocr_els_user_get : (offset : ℕ) → Call
  ocr_els_user_set : (offset value : ℕ) → Call
  current_edt_user_get ocr_shutdown : Call
  ocr_abort : (code : ℕ) → Call
  load : (db offset : ℕ) → Call
  store : (db offset byte : ℕ) → Call

-- What a call returns through its pointers: one GUID or value, and the output event of an EDT.
abbrev pub Reply : Type 0
Reply = ℕ × ℕ

abbrev pub done : M (Unit {0}) → M Reply
done m = m >>= λ _. pure (0, 0)

abbrev pub value : M ℕ → M Reply
value m = m >>= λ n. pure (n, 0)

-- `runtime::shutdown` and `runtime::abort`
unfoldable pub shutdown : M (Unit {0})
shutdown s = ok (tt, record s { shutdown_issued = true })

unfoldable pub abort : ℕ → M (Unit {0})
abort code s = ok (tt, record s { abort_issued = true; abort_error_code = code })

-- src/one/ocr_api.cpp: each call is the runtime's method.
unfoldable pub api : Deliver → Call → M Reply
api deliver (ocr_db_create len flags) = value (create_db len flags)
api deliver (ocr_db_release db) = done (release_db db)
api deliver (ocr_db_destroy db) = done (destroy_db db)
api deliver (ocr_event_create guid type properties) = value (create_event guid type properties)
api deliver (ocr_event_destroy guid) = done (destroy_event guid)
api deliver (ocr_event_satisfy_slot event data_guid slot) =
    done (satisfy_event deliver event data_guid slot)
api deliver (ocr_edt_template_create func paramc depc) =
    value (create_edt_template func paramc depc)
api deliver (ocr_edt_template_destroy guid) = done (destroy_edt_template guid)
api deliver (ocr_edt_create guid template paramc paramv depc depv properties) =
    create_edt deliver guid template paramc paramv depc depv properties
api deliver (ocr_add_dependence source destination slot mode) =
    done (add_dependence deliver source destination slot mode)
api deliver (ocr_guid_range_create number kind) = value (guid_range_create number kind)
api deliver (ocr_guid_from_index range idx) = value (guid_from_index range idx)
api deliver (ocr_get_guid source) = value (resolve_lid source)
api deliver (ocr_els_user_get offset) = value (els_get offset)
api deliver (ocr_els_user_set offset v) = done (els_set offset v)
api deliver current_edt_user_get = value get_current_edt_guid
api deliver ocr_shutdown = done shutdown
api deliver (ocr_abort code) = done (abort code)
api deliver (load db offset) = value (read_db db offset)
api deliver (store db offset byte) = done (write_db db offset byte)

pub data Program : Type 0 where
  finish : (data_guid : ℕ) → Program
  call : Call → (Reply → Program) → Program

abbrev pub App : Type 0
App = ℕ → List ℕ → List Dep → Program

unfoldable pub run_program : Deliver → Program → M ℕ
run_program deliver (finish g) = pure g
run_program deliver (call c next) = api deliver c >>= λ r. run_program deliver (next r)

-- The blocks that `this_edt_` holds
unfoldable pub current_blocks : M (List ℕ)
current_blocks s = elim s.this_edt [ none ↦ ok ([], s) | some e ↦ ok (e.acquired_blocks, s) ]

-- The body of the loop over the preslots in `edt::run`.
unfoldable pub acquire_dep : Preslot → M Dep
acquire_dep p =
    if local_data p.mode p.data_guid == null_guid
    then pure (record { guid = p.data_guid; has_ptr = false })
    else (do
      b ← get_db p.data_guid
      blocks ← current_blocks
      if contains p.data_guid blocks
          then pure tt
          else (do acquire_db p.data_guid p.mode; add_acquired_block p.data_guid)
      pure (record { guid = p.data_guid; has_ptr = true }))

unfoldable pub acquire_deps : List Preslot → M (List Dep)
acquire_deps [] = pure []
acquire_deps (p ∷ ps) = do d ← acquire_dep p; ds ← acquire_deps ps; pure (d ∷ ds)

-- The loop that releases what the EDT still holds.
unfoldable pub release_blocks : List ℕ → M (Unit {0})
release_blocks [] = pure tt
release_blocks (g ∷ blocks) = do release_held g; release_blocks blocks

-- `edt::handle_finished`
unfoldable pub handle_finished : Deliver → List Postslot → ℕ → M (Unit {0})
handle_finished deliver (p ∷ []) res = do
  e ← get_event p.destination
  node_satisfy deliver p.destination (local_data p.preslot_mode res) p.preslot_index
handle_finished deliver _ res = stop undefined_behaviour

unfoldable pub set_this_edt : Option Edt → M (Unit {0})
set_this_edt t s = ok (tt, record s { this_edt = t })

-- `this_edt_`, which is set while an EDT runs
unfoldable pub current_edt : M Edt
current_edt s = elim s.this_edt [ none ↦ fault undefined_behaviour | some e ↦ ok (e, s) ]

-- `task_list::get_next`: the front of the queue
unfoldable pub next_task : M ℕ
next_task s = elim s.ready_tasks [
  | [] ↦ fault no_more_tasks
  | g ∷ rest ↦ ok (g, record s { ready_tasks = rest })
]

-- The next task becomes `this_edt_`, and its GUID is gone while it runs.
unfoldable pub start_edt : M Edt
start_edt = do
  g ← next_task
  e ← get_edt g
  guard (all_satisfied e.preslots) not_ready
  remove_object g
  set_this_edt (some e)
  pure e

-- `edt::run`
unfoldable pub run_edt : App → Deliver → Edt → M (Unit {0})
run_edt app deliver e = do
  deps ← acquire_deps e.preslots
  res ← run_program deliver (app e.func e.params deps)
  e' ← current_edt
  release_blocks e'.acquired_blocks
  handle_finished deliver e.postslots res
  remove_lids e'.lids
  set_this_edt none

-- One round of the loop in `runtime::start`.
unfoldable pub run_next : App → Deliver → M (Unit {0})
run_next app deliver = do e ← start_edt; run_edt app deliver e

-- The condition of the loop, negated
unfoldable pub is_down : M Bool
is_down s = ok (s.shutdown_issued || s.abort_issued, s)

-- The loop of `runtime::start` for `rounds` tasks at most.
unfoldable pub main_loop : App → Deliver → ℕ → M (Unit {0})
main_loop app deliver zero = do down ← is_down; if down then pure tt else stop out_of_fuel
main_loop app deliver (suc rounds) = do
  down ← is_down
  if down then pure tt else (do run_next app deliver; main_loop app deliver rounds)

-- The `memcpy` of the packed arguments into the first block
unfoldable pub write_bytes : ℕ → ℕ → List ℕ → M (Unit {0})
write_bytes g offset [] = pure tt
write_bytes g offset (b ∷ bytes) = do write_db g offset b; write_bytes g (offset + 1) bytes

-- `runtime::start` before the loop. `args` are the bytes of `pack_arguments`; it returns the
-- template of the internal copy task.
unfoldable pub boot : Deliver → ℕ → ℕ → List ℕ → M ℕ
boot deliver main_edt copy_edt args = do
  add_object 1 system_object
  arg_db ← create_db (length args) 0
  write_bytes arg_db 0 args
  release_db arg_db
  template ← create_edt_template main_edt 0 1
  main ← create_edt deliver null_guid template 0 none 1 (some (arg_db ∷ [])) 0
  destroy_edt_template template
  create_edt_template copy_edt 4 2

unfoldable pub exit_code : M ℕ
exit_code s = ok (if s.shutdown_issued then 0 else s.abort_error_code, s)

-- `runtime::start` and the value that it returns
unfoldable pub start : App → ℕ → ℕ → ℕ → ℕ → List ℕ → M ℕ
start app main_edt copy_edt fuel rounds args = do
  copy_template ← boot (event_satisfy fuel) main_edt copy_edt args
  main_loop app (event_satisfy fuel) rounds
  destroy_edt_template copy_template
  exit_code

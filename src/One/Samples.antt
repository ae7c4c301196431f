-- ===== src/One/Samples.antt =====
-- Small applications on which the properties are run.
use ocr_vx.Prelude.{
  ◌≡◌, refl, List, [], ◌∷◌, Option, none, some, ◌==◌, if◌then◌else◌, contains, erase,
}
use ocr_vx.One.Types.{db_mode_ro, sticky_t, Runtime, initial_runtime}
use ocr_vx.One.Monad.{
  Result, ok, fault, get, exists, add_object, remove_object, put, get_next, as_event, as_edt,
  as_edt_template, as_db, as_lid, as_range, resolve_object, resolve_lid, has_kind, remove_as,
  write_lid, update_lid,
}
use ocr_vx.One.Db.{
  same_bytes, new_db, was_modified, acquire, release, get_db, put_db, add_acquired_block,
  remove_acquired_block, get_current_edt_guid, acquire_object, acquire_db, create_db,
  release_object, release_held, release_db, destroy_db, write_object, write_db, at_or_fault,
  read_db,
}
use ocr_vx.One.Node.{
  at_slot, get_event, get_edt, write_event, update_event, all_satisfied, append_task, spawn,
  satisfy_edt_slot, satisfy_edt_object, edt_satisfy, object_satisfy, node_satisfy, check_data,
  satisfy_event, object_satisfy_preslot, satisfy_preslot, local_data, notify, channel_satisfied,
  is_channel, handle_satisfied, set_satisfied, latch_satisfy, satisfy_by_type, event_satisfy_step,
  event_satisfy,
}
use ocr_vx.One.Edges.{
  set_preslot_of, set_preslot, channel_add_postslot, add_postslot, connect, add_dependence,
}
use ocr_vx.One.Create.{
  event_type_is_valid, is_latch, choose_guid, new_event, finish_event, create_event, destroy_event,
  create_edt_template, get_edt_template, destroy_edt_template, guid_range_create, get_range,
  is_unused, write_index, update_range, refresh_index, guid_from_index,
}
use ocr_vx.One.Tasks.{
  current_latch, join_parent, join_latches, new_edt, initialize_deps, read_array, read_params,
  read_deps, param_count, enter_edt, finish_edt, create_edt, remove_lids, els_entry, els_get,
  set_growing, els_set,
}
use ocr_vx.One.Run.{
  Dep, Call, Program, finish, call, App, ocr_db_create, ocr_db_release, ocr_event_create,
  ocr_event_satisfy_slot, ocr_edt_template_create, ocr_edt_create, ocr_add_dependence, load, store,
  shutdown, abort, api, run_program, current_blocks, acquire_dep, acquire_deps, release_blocks,
  handle_finished, set_this_edt, current_edt, next_task, start_edt, run_edt, run_next, is_down,
  main_loop, write_bytes, boot, exit_code, start,
}

-- Unfolding this opens the whole runtime, so that a test computes.
unfoldable pub machine : Unit {0}
unfolding contains erase get exists add_object remove_object put get_next as_event as_edt
    as_edt_template as_db as_lid as_range resolve_object resolve_lid has_kind remove_as write_lid
    update_lid same_bytes new_db was_modified acquire release get_db put_db add_acquired_block
    remove_acquired_block get_current_edt_guid acquire_object acquire_db create_db release_object
    release_held release_db destroy_db write_object write_db at_or_fault read_db at_slot get_event
    get_edt write_event update_event all_satisfied append_task spawn satisfy_edt_slot
    satisfy_edt_object edt_satisfy object_satisfy node_satisfy check_data satisfy_event
    object_satisfy_preslot satisfy_preslot local_data notify channel_satisfied is_channel
    handle_satisfied set_satisfied latch_satisfy satisfy_by_type event_satisfy_step event_satisfy
    set_preslot_of set_preslot channel_add_postslot add_postslot connect add_dependence
    event_type_is_valid is_latch choose_guid new_event finish_event create_event destroy_event
    create_edt_template get_edt_template destroy_edt_template guid_range_create get_range is_unused
    write_index update_range refresh_index guid_from_index current_latch join_parent join_latches
    new_edt initialize_deps read_array read_params read_deps param_count enter_edt finish_edt
    create_edt remove_lids els_entry els_get set_growing els_set shutdown abort api run_program
    current_blocks acquire_dep acquire_deps release_blocks handle_finished set_this_edt current_edt
    next_task start_edt run_edt run_next is_down main_loop write_bytes boot exit_code start
machine = tt

abbrev pub step : Call → Program → Program
step c p = call c (λ _. p)

-- Function 1 fills a block, releases it, and passes it over a sticky event to function 2, which
-- reads it back and aborts with the byte that it finds.
unfoldable pub relay : App
relay func params deps =
    if func == 1
    then call (ocr_db_create 2 0) (λ db. step (store db.0 1 77) (
        step (ocr_db_release db.0) (
          call (ocr_event_create 0 sticky_t 1) (λ ev.
            call (ocr_edt_template_create 2 0 1) (λ template.
              call (ocr_edt_create 0 template.0 0 none 1 none 0) (λ task.
                step (ocr_add_dependence ev.0 task.0 0 db_mode_ro)
                  (step (ocr_event_satisfy_slot ev.0 db.0 0) (finish 0))))))))
    else read_first deps
  where
    read_first : List Dep → Program
    read_first [] = finish 0
    read_first (d ∷ ds) = call (load d.guid 1) (λ v. step (Call.ocr_abort v.0) (finish 0))

code_of : {A : Type 0} → Result (A × Runtime) → Option A
code_of (ok (a, s)) = some a
code_of (fault e) = none

relay_runs : code_of (start relay 1 9 5 3 (1 ∷ 2 ∷ []) initial_runtime) ≡ some 77
unfolding machine relay code_of
relay_runs = refl

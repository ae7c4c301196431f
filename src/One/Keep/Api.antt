-- ===== src/One/Keep/Api.antt =====
-- Every call of the API, every EDT and the main loop keep a stable predicate.
use ocr_vx.Prelude.{ℕ, zero, suc, refl, List, [], ◌∷◌, Option, none}
use ocr_vx.One.Types.{Runtime, Edt, Preslot, Postslot}
use ocr_vx.One.Logic.{Keeps, keeping, Keeps-bind, Keeps-then, Keeps-pure, Keeps-stop, Keeps-if}
use ocr_vx.One.Reads.{
  reading, get_db-Keeps, get_event-Keeps, current_blocks-Keeps, current_edt-Keeps, is_down-Keeps,
  exit_code-Keeps,
}
use ocr_vx.One.Stable.{Stable, is_passive}
use ocr_vx.One.Keep.Satisfy.{
  add_acquired_block-Keeps, node_satisfy-Keeps, satisfy_event-Keeps, event_satisfy-Keeps,
}
use ocr_vx.One.Node.{Deliver}
use ocr_vx.One.Run.{
  Call, api, Program, finish, call, run_program, acquire_dep, acquire_deps, release_blocks,
  handle_finished, run_edt, run_next, App, main_loop, set_this_edt, boot, start, start_edt,
}
use ocr_vx.One.Keep.Calls.{
  create_db-Keeps, release_db-Keeps, destroy_db-Keeps, create_event-Keeps, destroy_event-Keeps,
  create_edt_template-Keeps, destroy_edt_template-Keeps, guid_range_create-Keeps,
  guid_from_index-Keeps, els_set-Keeps, remove_lids-Keeps, write_bytes-Keeps, shutdown-Keeps,
  abort-Keeps,
}
use ocr_vx.One.Keep.Tasks.{add_dependence-Keeps, create_edt-Keeps}

module _ {P : Runtime → Type 0} (st : Stable P) where
  open st use {
    on_sequence, on_this_edt, on_shutdown, on_abort, add_passive, add_db, add_waiting, add_ready,
    removes, updates_lid, updates_event, updates_range, acquires, releases, writes, sets_preslot,
    satisfies,
  }

  module _ {deliver : Deliver} (d : (g arg slot : ℕ) → Keeps P (deliver g arg slot)) where
    pub api-Keeps : (c : Call) → Keeps P (api deliver c)
    unfolding api
    api-Keeps (Call.ocr_db_create len flags) = search (create_db-Keeps st, keeping)
    api-Keeps (Call.ocr_db_release g) = search (release_db-Keeps st, keeping)
    api-Keeps (Call.ocr_db_destroy g) = search (destroy_db-Keeps st, keeping)
    api-Keeps (Call.ocr_event_create g t properties) = search (create_event-Keeps st, keeping)
    api-Keeps (Call.ocr_event_destroy g) = search (destroy_event-Keeps st, keeping)
    api-Keeps (Call.ocr_event_satisfy_slot g arg slot) = search (satisfy_event-Keeps st d, keeping)
    api-Keeps (Call.ocr_edt_template_create f p q) = search (create_edt_template-Keeps st, keeping)
    api-Keeps (Call.ocr_edt_template_destroy g) = search (destroy_edt_template-Keeps st, keeping)
    api-Keeps (Call.ocr_edt_create g t p pv q qv f) = create_edt-Keeps st d g t p pv q qv f
    api-Keeps (Call.ocr_add_dependence a b slot mode) = search (add_dependence-Keeps st d, keeping)
    api-Keeps (Call.ocr_guid_range_create n kind) = search (guid_range_create-Keeps st, keeping)
    api-Keeps (Call.ocr_guid_from_index g idx) = search (guid_from_index-Keeps st, keeping)
    api-Keeps (Call.ocr_get_guid g) = search reading
    api-Keeps (Call.ocr_els_user_get offset) = search reading
    api-Keeps (Call.ocr_els_user_set offset v) = search (els_set-Keeps st, keeping)
    api-Keeps Call.current_edt_user_get = search reading
    api-Keeps Call.ocr_shutdown = search (shutdown-Keeps st, keeping)
    api-Keeps (Call.ocr_abort code) = search (abort-Keeps st, keeping)
    api-Keeps (Call.load g offset) = search reading
    api-Keeps (Call.store g offset byte) = search (writes, keeping)

    run_program-Keeps : (p : Program) → Keeps P (run_program deliver p)
    unfolding run_program
    run_program-Keeps (finish g) = Keeps-pure g
    run_program-Keeps (call c next) = Keeps-bind (api-Keeps c) λ r. run_program-Keeps (next r)

  acquire_dep-Keeps : (p : Preslot) → Keeps P (acquire_dep p)
  unfolding acquire_dep
  acquire_dep-Keeps p = Keeps-if _ (Keeps-pure _) (
      Keeps-bind (get_db-Keeps _) λ b. Keeps-bind current_blocks-Keeps λ blocks.
        Keeps-then
          (Keeps-if _ (Keeps-pure tt) (Keeps-then (acquires _ _) (add_acquired_block-Keeps st _)))
          (Keeps-pure _))

  acquire_deps-Keeps : (ps : List Preslot) → Keeps P (acquire_deps ps)
  unfolding acquire_deps
  acquire_deps-Keeps [] = Keeps-pure []
  acquire_deps-Keeps (p ∷ ps) =
      Keeps-bind (acquire_dep-Keeps p)
        λ x. Keeps-bind (acquire_deps-Keeps ps) λ xs. Keeps-pure (x ∷ xs)

  release_blocks-Keeps : (blocks : List ℕ) → Keeps P (release_blocks blocks)
  unfolding release_blocks
  release_blocks-Keeps [] = Keeps-pure tt
  release_blocks-Keeps (g ∷ blocks) = Keeps-then (releases g) (release_blocks-Keeps blocks)

  set_this_edt-Keeps : (t : Option Edt) → Keeps P (set_this_edt t)
  unfolding set_this_edt
  set_this_edt-Keeps t = record { keep = λ s p. on_this_edt s t p }

  module _ {deliver : Deliver} (d : (g arg slot : ℕ) → Keeps P (deliver g arg slot)) where
    handle_finished-Keeps :
        (ps : List Postslot) (res : ℕ) → Keeps P (handle_finished deliver ps res)
    unfolding handle_finished
    handle_finished-Keeps [] res = Keeps-stop _
    handle_finished-Keeps (p ∷ []) res =
        Keeps-bind (get_event-Keeps _) λ e. node_satisfy-Keeps st d _ _ _
    handle_finished-Keeps (p ∷ q ∷ ps) res = Keeps-stop _

    pub run_edt-Keeps : (app : App) (e : Edt) → Keeps P (run_edt app deliver e)
    unfolding run_edt
    run_edt-Keeps app e = Keeps-bind (acquire_deps-Keeps e.preslots) λ deps.
        Keeps-bind (run_program-Keeps d _) λ res. Keeps-bind current_edt-Keeps λ e'.
          Keeps-then (release_blocks-Keeps _) (
            Keeps-then (handle_finished-Keeps _ res)
              (Keeps-then (remove_lids-Keeps st _) (set_this_edt-Keeps none)))

    pub run_next-Keeps : (app : App) → Keeps P start_edt → Keeps P (run_next app deliver)
    unfolding run_next
    run_next-Keeps app begins = Keeps-bind begins (run_edt-Keeps app)

    main_loop-Keeps :
        (app : App) (rounds : ℕ) → Keeps P start_edt → Keeps P (main_loop app deliver rounds)
    unfolding main_loop
    main_loop-Keeps app zero begins =
        Keeps-bind is_down-Keeps λ down. Keeps-if down (Keeps-pure tt) (Keeps-stop _)
    main_loop-Keeps app (suc rounds) begins = Keeps-bind is_down-Keeps λ down.
        Keeps-if down (Keeps-pure tt)
          (Keeps-then (run_next-Keeps app begins) (main_loop-Keeps app rounds begins))

    boot-Keeps :
        (main_edt copy_edt : ℕ) (args : List ℕ) → Keeps P (boot deliver main_edt copy_edt args)
    unfolding boot is_passive
    boot-Keeps main_edt copy_edt args = Keeps-then (add_passive 1 _ refl) (
        Keeps-bind (create_db-Keeps st _ _) λ arg_db.
          Keeps-then (write_bytes-Keeps st arg_db 0 args) (
            Keeps-then (release_db-Keeps st arg_db) (
              Keeps-bind (create_edt_template-Keeps st _ _ _) λ template.
                Keeps-bind (create_edt-Keeps st d _ _ _ _ _ _ _) λ main.
                  Keeps-then (destroy_edt_template-Keeps st template)
                    (create_edt_template-Keeps st _ _ _))))

  -- The whole program, from the constructor of the runtime to the exit code.
  pub start-Keeps :
      (app : App) (main_edt copy_edt fuel rounds : ℕ) (args : List ℕ)
      → Keeps P start_edt
      → Keeps P (start app main_edt copy_edt fuel rounds args)
  unfolding start
  start-Keeps app main_edt copy_edt fuel rounds args begins =
      Keeps-bind (boot-Keeps (event_satisfy-Keeps st fuel) main_edt copy_edt args) λ template.
        Keeps-then (main_loop-Keeps (event_satisfy-Keeps st fuel) app rounds begins)
          (Keeps-then (destroy_edt_template-Keeps st template) exit_code-Keeps)

-- ===== src/One/Tests.antt =====
-- The properties of the runtime at concrete inputs.
use ocr_vx.Prelude.{
  if◌then◌else◌, arith, ℕ, ◌≡◌, refl, true, false, [], ◌∷◌, none, some, count, ◌==◌, Bool-cases,
  inl, inr,
}
use ocr_vx.One.Types.{
  read_only_modified, Runtime, Edt, Event, Db, event_object, edt_object, db_object, initial_runtime,
  empty_preslot, sticky_t, once_t, latch_t, db_mode_rw, db_mode_ro,
}
use ocr_vx.One.Monad.{ok, fault, ◌>>◌, update, remove_as, event_kind}
use ocr_vx.One.Logic.{Post}
use ocr_vx.One.Db.{new_db, write_db, release_held, acquire_db, read_db}
use ocr_vx.One.Node.{event_satisfy, all_satisfied, satisfy_event, notify, local_data}
use ocr_vx.One.Create.{new_event, is_latch, create_event, event_type_is_valid}
use ocr_vx.One.Tasks.{new_edt}
use ocr_vx.One.Labels.{checked, create_event-checked_twice}
use ocr_vx.One.Run.{
  finish, App, ocr_event_satisfy_slot, ocr_shutdown, api, run_next, start, start_edt,
}
use ocr_vx.One.Samples.{step, relay, machine}
use ocr_vx.One.Schedule.Defs.{IsScheduled, write-IsScheduled}
use ocr_vx.One.Schedule.Preslots.{spawned-IsScheduled}
use ocr_vx.One.ReadyQueue.{
  start-IsScheduled, api-IsScheduled, run_next-IsScheduled, start_edt-succeeds,
}
use ocr_vx.One.Cascade.Logic.{Any, Halted}
use ocr_vx.One.Cascade.Defs.{Ranked, write-Ranked}
use ocr_vx.One.Cascade.{event_satisfy-Halted, satisfy_event-Halted}
use ocr_vx.One.EventStates.{with_event}
use ocr_vx.One.Edges.{add_dependence}
use ocr_vx.One.Node.{edt_satisfy}
use ocr_vx.One.Types.{db_mode_null}
use ocr_vx.One.AnyOrder.{connect-satisfy_any_order, connect-satisfy_null}
use ocr_vx.One.Latch.{satisfy_latch, latch_at, latch-counts}
use ocr_vx.One.Blocks.RoundTrip.{with_db, store-release-acquire-load, store-release_read_only}
use ocr_vx.One.Order.Defs.{Extends}
use ocr_vx.One.Order.{run_next-Extends}
use ocr_vx.One.Blocks.Defs.{BlocksAreValid}
use ocr_vx.One.Blocks.{start-BlocksAreValid}

start-IsScheduled_example : Post IsScheduled (start relay 1 9 5 3 (1 ∷ 2 ∷ []) initial_runtime)
start-IsScheduled_example = start-IsScheduled relay 1 9 5 3 (1 ∷ 2 ∷ [])

start-BlocksAreValid_example :
    Post BlocksAreValid (start relay 1 9 5 3 (1 ∷ 2 ∷ []) initial_runtime)
start-BlocksAreValid_example = start-BlocksAreValid relay 1 9 5 3 (1 ∷ 2 ∷ [])

-- A task with `n` preslots, whose output event is 9.
abbrev task : ℕ → Edt
task n = new_edt 8 (record { func = 1; paramc = 0; depc = n }) [] n 9 false 0

-- A sticky event 9 that passes its block to slot 0 of the task 8.
abbrev source_event : Event
source_event = record (new_event sticky_t true) {
  postslots = record { destination = 8; preslot_index = 0; preslot_mode = db_mode_rw } ∷ [];
}

abbrev waiting : Runtime
waiting = record initial_runtime {
  objects =
      update (update initial_runtime.objects 8 (some (edt_object (task 1)))) 9
        (some (event_object source_event));
}

waiting-IsScheduled : IsScheduled waiting
unfolding new_event new_edt count all_satisfied
waiting-IsScheduled =
    write-IsScheduled
      (record initial_runtime {
        objects = update initial_runtime.objects 8 (some (edt_object (task 1)));
      })
      9 (some (event_object source_event)) refl
      (write-IsScheduled initial_runtime 8 (some (edt_object (task 1))) refl (λ g. refl))

-- Satisfying the event makes the task ready.
api-IsScheduled_example :
    Post IsScheduled (api (event_satisfy 2) (ocr_event_satisfy_slot 9 0 0) waiting)
api-IsScheduled_example =
    api-IsScheduled 2 (ocr_event_satisfy_slot 9 0 0) waiting waiting-IsScheduled

abbrev queued : Runtime
queued = record initial_runtime {
  objects = update initial_runtime.objects 8 (some (edt_object (task 0)));
  ready_tasks = 8 ∷ [];
}

queued-IsScheduled : IsScheduled queued
unfolding new_edt count all_satisfied
queued-IsScheduled =
    spawned-IsScheduled initial_runtime 8 (edt_object (task 0)) refl refl (λ g. refl)

-- The task calls shutdown.
abbrev shut_down : App
shut_down func params deps = step ocr_shutdown (finish 0)

-- A ready task 8 with its output event 9
abbrev with_output : Runtime
with_output = record initial_runtime {
  objects =
      update (update initial_runtime.objects 9 (some (event_object (new_event sticky_t true)))) 8
        (some (edt_object (task 0)));
  ready_tasks = 8 ∷ [];
}

with_output-IsScheduled : IsScheduled with_output
unfolding new_event new_edt count all_satisfied
with_output-IsScheduled =
    spawned-IsScheduled
      (record initial_runtime {
        objects = update initial_runtime.objects 9 (some (event_object (new_event sticky_t true)));
      })
      8 (edt_object (task 0)) refl refl
      (write-IsScheduled initial_runtime 9 (some (event_object (new_event sticky_t true))) refl
        (λ g. refl))

-- The run of the task returns.
with_output-returns :
    (t : Runtime) × (run_next shut_down (event_satisfy 2) with_output ≡ ok (tt, t))
    × (t.ready_tasks ≡ [])
unfolding machine
with_output-returns = (_, refl, refl)

run_next-IsScheduled_example : Post IsScheduled (run_next shut_down (event_satisfy 2) with_output)
run_next-IsScheduled_example = run_next-IsScheduled shut_down 2 with_output with_output-IsScheduled

start_edt-succeeds_example :
    (e : Edt) × (t : Runtime) × (start_edt queued ≡ ok (e, t))
    × (queued.objects 8 ≡ some (edt_object e))
    × (all_satisfied e.preslots ≡ true)
    × (t.this_edt ≡ some e)
    × (t.ready_tasks ≡ [])
    × (t.objects 8 ≡ none)
start_edt-succeeds_example = start_edt-succeeds queued 8 [] refl queued-IsScheduled

-- A held block of two bytes.
abbrev held_block : Db
held_block = record (new_db 2) {
  acquired = true;
  acquire_mode = db_mode_rw;
  buffer_public = 5 ∷ 6 ∷ [];
}

abbrev holding : Runtime
holding = record initial_runtime {
  objects = update initial_runtime.objects 8 (some (db_object held_block));
}

holding-BlocksAreValid : BlocksAreValid holding
unfolding new_db
holding-BlocksAreValid g = elim (Bool-cases (8 == g)) [
  | inl same ↦ rw same (refl, refl)
  | inr other ↦ rw other tt
]

-- Event 9 ranks above the task behind its edge.
abbrev rank : ℕ → ℕ
rank g = if g == 9 then 1 else 0

waiting-Ranked : Ranked rank waiting
unfolding new_event new_edt
waiting-Ranked =
    write-Ranked rank
      (record initial_runtime {
        objects = update initial_runtime.objects 8 (some (edt_object (task 1)));
      })
      9 (some (event_object source_event)) ((omega arith, tt), tt)
      (write-Ranked rank initial_runtime 8 (some (edt_object (task 1))) tt (λ g. tt))

event_satisfy-Halted_example : Halted (Ranked rank) Any (event_satisfy 2 9 0 0 waiting)
event_satisfy-Halted_example =
    event_satisfy-Halted rank 2 9 0 0 waiting (omega arith) waiting-Ranked

satisfy_event-Halted_example :
    Halted (Ranked rank) Any (satisfy_event (event_satisfy 2) 9 0 0 waiting)
satisfy_event-Halted_example =
    satisfy_event-Halted rank 2 9 0 0 waiting (omega arith) waiting-Ranked

-- Two increments and two decrements.
latch-counts_example :
    satisfy_latch 1 8
      (true ∷ true ∷ false ∷ false ∷ [])
      (with_event initial_runtime 8 (latch_at (new_event latch_t false) 0))
    ≡ (notify (event_satisfy 0) 8 (new_event latch_t false).postslots >> remove_as event_kind 8)
        (with_event initial_runtime 8 (latch_at (new_event latch_t false) 0))
unfolding new_event is_latch
latch-counts_example =
    latch-counts 0 8 initial_runtime (new_event latch_t false) empty_preslot empty_preslot refl refl
      (true ∷ true ∷ false ∷ []) 0 refl (omega arith)

store-release-acquire-load_example :
    (t : Runtime) × ((write_db 8 1 7 >> release_held 8 >> acquire_db 8 db_mode_ro >> read_db 8 1)
        holding
      ≡ ok (7, t))
store-release-acquire-load_example =
    store-release-acquire-load holding 8 held_block 1 7 1 6 refl refl refl db_mode_ro refl refl

abbrev read_only_block : Db
read_only_block = record (new_db 2) {
  acquired = true;
  acquire_mode = db_mode_ro;
  buffer_public = 0 ∷ 0 ∷ [];
}

-- The byte is changed, so the release stops.
store-release_read_only_example :
    (write_db 8 1 7 >> release_held 8) (with_db initial_runtime 8 read_only_block)
    ≡ fault read_only_modified
unfolding new_db
store-release_read_only_example =
    store-release_read_only (with_db initial_runtime 8 read_only_block) 8 read_only_block 1 7 0 refl
      refl refl refl refl

-- Behind the task 8 stands the task 12, and event 9 makes the task 13 ready.
abbrev two_ready : Runtime
two_ready = record initial_runtime {
  objects =
      update
        (update
          (update initial_runtime.objects 9 (
            some (
              event_object (record source_event {
                postslots =
                    record { destination = 13; preslot_index = 0; preslot_mode = db_mode_rw } ∷ [];
              }))))
          8 (some (edt_object (task 0))))
        13 (some (edt_object (task 1)));
  ready_tasks = 8 ∷ 12 ∷ [];
}

two_ready-returns :
    (t : Runtime) × (run_next shut_down (event_satisfy 2) two_ready ≡ ok (tt, t))
    × (t.ready_tasks ≡ 12 ∷ 13 ∷ [])
unfolding machine
two_ready-returns = (_, refl, refl)

run_next-Extends_example : Post (Extends (12 ∷ [])) (run_next shut_down (event_satisfy 2) two_ready)
run_next-Extends_example = run_next-Extends shut_down 2 two_ready 8 (12 ∷ []) refl

-- The second creation asks for another type.
create_event-checked_twice_example :
    (t : Runtime) × (create_event 77 once_t (checked true) initial_runtime ≡ ok (77, t))
    × (create_event 77 sticky_t (checked false) t ≡ ok (77, t))
    × ((h : ℕ)
        → t.objects h ≡ (if 77 == h then some (event_object (new_event once_t true)) else none))
unfolding event_type_is_valid is_latch
create_event-checked_twice_example =
    create_event-checked_twice 77 refl once_t sticky_t true false initial_runtime (refl, refl)
      (refl, refl)

-- A task with one preslot and a sticky event without edges.
abbrev apart_objects : Runtime
apart_objects = record initial_runtime {
  objects =
      update (update initial_runtime.objects 8 (some (edt_object (task 1)))) 9
        (some (event_object (new_event sticky_t true)));
}

connect-satisfy_any_order_example :
    (add_dependence (event_satisfy 2) 9 8 0 db_mode_ro >> event_satisfy 2 9 5 0) apart_objects
    ≡ (event_satisfy 2 9 5 0 >> add_dependence (event_satisfy 2) 9 8 0 db_mode_ro) apart_objects
unfolding new_event new_edt is_latch
connect-satisfy_any_order_example =
    connect-satisfy_any_order 1 9 8 0 5 db_mode_ro apart_objects (new_event sticky_t true)
      empty_preslot (task 1) empty_preslot (refl, refl, refl) (refl, refl) (refl, refl, refl)
      (refl, refl) (λ e. cc)

connect-satisfy_null_example :
    (u : Runtime) × ((add_dependence (event_satisfy 2) 9 8 0 db_mode_null >> event_satisfy 2 9 5 0)
        apart_objects
      ≡ edt_satisfy 8 0 0 u)
    × ((event_satisfy 2 9 5 0 >> add_dependence (event_satisfy 2) 9 8 0 db_mode_null) apart_objects
        ≡ edt_satisfy 8 5 0 u)
unfolding new_event new_edt is_latch local_data
connect-satisfy_null_example =
    connect-satisfy_null 1 9 8 0 5 apart_objects (new_event sticky_t true) empty_preslot (task 1)
      empty_preslot (refl, refl, refl) (refl, refl) (refl, refl, refl) (refl, refl)

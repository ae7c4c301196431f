-- ===== src/One/ReadyQueue.antt =====
-- What the queue of ready tasks promises, for every application: src/one/ocr_one.cpp and
-- include/one/runtime.h.
use ocr_vx.Prelude.{ℕ, ◌≡◌, refl, true, List, ◌∷◌, Option, none, some, count, arith, ==_refl, subst}
use ocr_vx.One.Types.{
  Runtime, Object, event_object, edt_object, edt_template_object, db_object, lid_object,
  range_object, system_object, Edt, initial_runtime,
}
use ocr_vx.One.Monad.{ok, get, as_edt, remove_object, update}
use ocr_vx.One.Logic.{Post}
use ocr_vx.One.Node.{event_satisfy, all_satisfied, get_edt}
use ocr_vx.One.Keep.Satisfy.{event_satisfy-Keeps}
use ocr_vx.One.Keep.Api.{api-Keeps, run_next-Keeps, start-Keeps}
use ocr_vx.One.Schedule.Defs.{is_ready, bit, IsScheduled}
use ocr_vx.One.Schedule.{scheduled}
use ocr_vx.One.Schedule.Start.{start_edt-Keeps}
use ocr_vx.One.Run.{Call, api, App, run_next, start, next_task, start_edt, set_this_edt}

-- If the start, the run of an application and the shutdown return, every EDT whose preslots are all
-- satisfied is in the queue of ready tasks exactly once, and no other GUID is in it.
pub start-IsScheduled :
    (app : App) (main_edt copy_edt fuel rounds : ℕ) (args : List ℕ)
    → Post IsScheduled (start app main_edt copy_edt fuel rounds args initial_runtime)
unfolding count
start-IsScheduled app main_edt copy_edt fuel rounds args =
    (start-Keeps scheduled app main_edt copy_edt fuel rounds args start_edt-Keeps).keep
      initial_runtime (λ g. refl)

-- Each call of the API that returns leaves the queue of ready tasks right: it holds the EDTs whose
-- preslots are all satisfied, each once, if it did so before the call.
pub api-IsScheduled :
    (fuel : ℕ) (c : Call) (s : Runtime)
    → IsScheduled s
    → Post IsScheduled (api (event_satisfy fuel) c s)
api-IsScheduled fuel c s p = (api-Keeps scheduled (event_satisfy-Keeps scheduled fuel) c).keep s p

-- Running the next task keeps the queue right, whatever the task's code does.
pub run_next-IsScheduled :
    (app : App) (fuel : ℕ) (s : Runtime)
    → IsScheduled s
    → Post IsScheduled (run_next app (event_satisfy fuel) s)
run_next-IsScheduled app fuel s p =
    (run_next-Keeps scheduled (event_satisfy-Keeps scheduled fuel) app start_edt-Keeps).keep s p

-- The object of a GUID that is ready
ready_edt :
    (o : Option Object)
    → is_ready o ≡ true
    → (e : Edt) × (o ≡ some (edt_object e)) × (all_satisfied e.preslots ≡ true)
ready_edt none h = cc
ready_edt (some (event_object e)) h = cc
ready_edt (some (edt_object e)) h = (e, refl, h)
ready_edt (some (edt_template_object e)) h = cc
ready_edt (some (db_object e)) h = cc
ready_edt (some (lid_object e)) h = cc
ready_edt (some (range_object e)) h = cc
ready_edt (some system_object) h = cc

front_ready :
    (s : Runtime) (g : ℕ) (rest : List ℕ)
    → s.ready_tasks ≡ g ∷ rest
    → IsScheduled s
    → is_ready (s.objects g) ≡ true
unfolding count
front_ready s g rest e p =
    ground (arith, subst (λ ts. count g ts ≡ bit (is_ready (s.objects g))) e (p g), ==_refl g)

-- Where the queue is right and not empty, taking the next task succeeds: its first GUID names an
-- EDT with all preslots satisfied, which becomes the current EDT; its GUID leaves the queue and
-- the object list.
pub start_edt-succeeds :
    (s : Runtime) (g : ℕ) (rest : List ℕ)
    → s.ready_tasks ≡ g ∷ rest
    → IsScheduled s
    → (e : Edt) × (t : Runtime) × (start_edt s ≡ ok (e, t))
      × (s.objects g ≡ some (edt_object e))
      × (all_satisfied e.preslots ≡ true)
      × (t.this_edt ≡ some e)
      × (t.ready_tasks ≡ rest)
      × (t.objects g ≡ none)
unfolding start_edt next_task get_edt get as_edt remove_object set_this_edt
start_edt-succeeds s g rest q p =
    let (e, o, full) = ready_edt (s.objects g) (front_ready s g rest q p) in
    (
      e,
      record s { this_edt = some e; ready_tasks = rest; objects = update s.objects g none },
      ground (arith, q, o, full),
      o,
      full,
      refl,
      refl,
      rw (==_refl g),
    )

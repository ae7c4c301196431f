-- ===== src/One/Order.antt =====
-- The order in which tasks run: `task_list` of include/one/runtime.h is a queue.
pub mod Defs
use ocr_vx.Prelude.{append_nil, ℕ, ◌≡◌, refl, ap, List, [], ◌∷◌, ◌++◌, none, some, sym}
use ocr_vx.One.Types.{Runtime, Edt, not_ready}
use ocr_vx.One.Monad.{M, ◌>>=◌, ◌>>◌, pure, guard, remove_object}
use ocr_vx.One.Logic.{Post, Keeps, keeping, Keeps-bind}
use ocr_vx.One.Reads.{reading, get_edt-Keeps}
use ocr_vx.One.Node.{event_satisfy, get_edt, all_satisfied}
use ocr_vx.One.Run.{next_task, set_this_edt, start_edt, run_next, App, Call, api}
use ocr_vx.One.Stable.{Stable}
use ocr_vx.One.Keep.Satisfy.{event_satisfy-Keeps}
use ocr_vx.One.Keep.Api.{api-Keeps, run_edt-Keeps}
use ocr_vx.One.Order.Defs.{Extends, extended, remove_object-Keeps}

-- A call of the API that returns adds the tasks that it makes ready behind those that are in the
-- queue, which stay as they are.
pub api-Extends :
    (fuel : ℕ) (c : Call) (s : Runtime)
    → Post (Extends s.ready_tasks) (api (event_satisfy fuel) c s)
api-Extends fuel c s =
    (api-Keeps (extended s.ready_tasks) (event_satisfy-Keeps (extended s.ready_tasks) fuel) c).keep
      s ([], append_nil s.ready_tasks)

set_this_edt-Keeps : (q : List ℕ) (e : Edt) → Keeps (Extends q) (set_this_edt (some e))
unfolding set_this_edt
set_this_edt-Keeps q e = record { keep = λ s p. p }

-- Tasks run first in, first out: the round that takes the first task of the queue, if it returns,
-- leaves the other tasks at the front in their order, before those that the task made ready.
pub run_next-Extends :
    (app : App) (fuel : ℕ) (s : Runtime) (g : ℕ) (rest : List ℕ)
    → s.ready_tasks ≡ g ∷ rest
    → Post (Extends rest) (run_next app (event_satisfy fuel) s)
unfolding run_next start_edt next_task
run_next-Extends app fuel s g rest h =
    rw (h, next_task)
      ((Keeps-bind begin
          (run_edt-Keeps (extended rest) (event_satisfy-Keeps (extended rest) fuel) app)).keep
        (record s { ready_tasks = rest }) ([], append_nil rest))
  where
    begin : Keeps (Extends rest) (do
      e ← get_edt g
      guard (all_satisfied e.preslots) not_ready
      remove_object g
      set_this_edt (some e)
      pure e)
    begin = search (remove_object-Keeps rest, set_this_edt-Keeps, reading) depth 12

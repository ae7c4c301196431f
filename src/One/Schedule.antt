-- ===== src/One/Schedule.antt =====
-- That an EDT is queued when and only when it is ready is stable.
pub mod Defs
pub mod Objects
pub mod Preslots
pub mod Start
use ocr_vx.Prelude.{
  ℕ, zero, suc, ◌≡◌, refl, sym, ◌∙◌, Bool, true, false, List, [], ◌∷◌, ◌++◌, Option, none, some,
  ◌==◌, if◌then◌else◌, count, count-snoc, arith, set, get_elem?, Option-cases, Bool-cases, inl, inr,
  ==_refl, ==_iff, ap, subst,
}
use ocr_vx.One.Types.{
  Runtime, Object, event_object, edt_object, db_object, lid_object, range_object, Edt, Event, Db,
  Mode, Preslot, invalid_slot, not_ready,
}
use ocr_vx.One.Monad.{
  ok, M, ◌>>=◌, ◌>>◌, pure, guard, get, add_object, remove_object, put, update, as_edt, Kind,
  event_kind, template_kind, db_kind, lid_kind, has_kind, remove_as, write_lid, update_lid,
}
use ocr_vx.One.Logic.{Post, Post-map, Keeps, Keeps-bind, Keeps-stop}
use ocr_vx.One.Reads.{get-bind, at_slot-Keeps, reading}
use ocr_vx.One.Create.{write_index, update_range}
use ocr_vx.One.Edges.{set_preslot, set_preslot_of}
use ocr_vx.One.Db.{
  put_db, acquire_db, acquire_object, release_held, release_object, write_db, write_object,
}
use ocr_vx.One.Node.{
  all_satisfied, at_slot, append_task, spawn, get_edt, satisfy_edt_slot, satisfy_edt_object,
  edt_satisfy, write_event, update_event,
}
use ocr_vx.One.Run.{next_task, set_this_edt, start_edt}
use ocr_vx.One.Stable.{is_passive, Stable}
use ocr_vx.One.Schedule.Defs.{
  is_ready, bit, IsScheduled, write-IsScheduled, Ready, put-Keeps, at-IsScheduled,
}
use ocr_vx.One.Schedule.Objects.{
  add_object-Keeps, passive-not-ready, has_kind-not-ready, remove_as-Keeps, update_lid-Keeps,
  update_event-Keeps, put_db-Keeps, acquire_db-Keeps, release_held-Keeps, write_db-Keeps,
  update_range-Keeps,
}
use ocr_vx.One.Schedule.Preslots.{
  spawned-IsScheduled, spawn-at, add_ready-Keeps, all_satisfied-set_same, all_satisfied-false,
  set_preslot-Keeps, satisfy_edt_slot-Keeps, edt_satisfy-Keeps,
}
use ocr_vx.One.Schedule.Start.{
  take_task-IsScheduled, start_object, start_object-Post, start_edt-Keeps,
}

-- The invariant as an instance of the interface.
pub scheduled : Stable IsScheduled
scheduled = record {
  on_sequence = λ s n p. p;
  on_this_edt = λ s t p. p;
  on_shutdown = λ s b p. p;
  on_abort = λ s b code p. p;
  add_passive = λ g o h. add_object-Keeps g o (passive-not-ready o h);
  add_db = λ g len. add_object-Keeps g _ refl;
  add_waiting = λ g e h. add_object-Keeps g (edt_object e) h;
  add_ready = add_ready-Keeps;
  removes = remove_as-Keeps;
  updates_lid = update_lid-Keeps;
  updates_event = update_event-Keeps;
  updates_range = update_range-Keeps;
  acquires = acquire_db-Keeps;
  releases = release_held-Keeps;
  writes = write_db-Keeps;
  sets_preslot = set_preslot-Keeps;
  satisfies = edt_satisfy-Keeps;
}

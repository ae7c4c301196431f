-- ===== src/One/Blocks.antt =====
-- The sizes of the buffers of data blocks (include/one/db.h), as a stable predicate, and what it
-- gives for every application.
pub mod Defs
pub mod Others
pub mod Buffers
pub mod RoundTrip
use ocr_vx.Prelude.{
  ℕ, ◌≡◌, refl, ◌∙◌, true, false, not, List, [], ◌∷◌, Option, none, some, ◌==◌, ltb, if◌then◌else◌,
  length, length-set, length-replicate, Option-cases, Bool-cases, inl, inr, set, subst,
}
use ocr_vx.One.Types.{
  Runtime, Object, event_object, edt_object, db_object, lid_object, range_object, Edt, Event, Db,
  Mode, invalid_slot, db_not_acquired, db_already_acquired, read_only_modified, out_of_bounds,
}
use ocr_vx.One.Monad.{
  M, ◌>>=◌, get, add_object, remove_object, put, update, Kind, remove_as, write_lid, update_lid,
}
use ocr_vx.One.Logic.{
  Post, Keeps, Keeps-bind, Keeps-then, Keeps-if, Keeps-stop, Keeps-guard, Keeps-pure, Gives,
  Gives-bind, Gives-pure, Gives-guard, Gives-if,
}
use ocr_vx.One.Reads.{reading, get-bind, at_slot-Keeps, get_current_edt_guid-Keeps}
use ocr_vx.One.Db.{
  new_db, put_db, acquire, release, acquire_db, acquire_object, release_held, release_object,
  is_empty, was_modified, write_db, write_object, may_be_modified, is_read_only,
}
use ocr_vx.One.Node.{
  append_task, spawn, satisfy_edt_slot, satisfy_edt_object, edt_satisfy, write_event, update_event,
}
use ocr_vx.One.Edges.{set_preslot, set_preslot_of}
use ocr_vx.One.Create.{write_index, update_range}
use ocr_vx.One.Run.{next_task, set_this_edt, start_edt}
use ocr_vx.One.Stable.{is_passive, Stable}
use ocr_vx.One.Types.{initial_runtime}
use ocr_vx.One.Node.{event_satisfy}
use ocr_vx.One.Keep.Satisfy.{event_satisfy-Keeps}
use ocr_vx.One.Keep.Api.{api-Keeps, start-Keeps}
use ocr_vx.One.Run.{Call, api, App, start}
use ocr_vx.One.Blocks.Defs.{
  IsBlock, ObjectIsBlock, BlocksAreValid, write-BlocksAreValid, put-Keeps, add_object-Keeps,
  remove_object-Keeps, at-valid,
}
use ocr_vx.One.Blocks.Others.{
  passive-IsBlock, append_task-Keeps, spawn-Keeps, remove_as-Keeps, update_lid-Keeps,
  update_event-Keeps, update_range-Keeps, set_preslot-Keeps, edt_satisfy-Keeps, next_task-Keeps,
  set_this_edt-Keeps, start_edt-Keeps,
}
use ocr_vx.One.Blocks.Buffers.{
  new_db-IsBlock, put_db-Keeps, acquire-IsBlock, public_size, release-IsBlock, acquire_db-Keeps,
  release_held-Keeps, write_db-Keeps,
}

pub blocks_valid : Stable BlocksAreValid
blocks_valid = record {
  on_sequence = λ s n p. p;
  on_this_edt = λ s t p. p;
  on_shutdown = λ s b p. p;
  on_abort = λ s b code p. p;
  add_passive = λ g o h. add_object-Keeps g o (passive-IsBlock o h);
  add_db = λ g len. add_object-Keeps g _ (new_db-IsBlock len);
  add_waiting = λ g e h. add_object-Keeps g (edt_object e) tt;
  add_ready = λ g e h. Keeps-then (add_object-Keeps g (edt_object e) tt) (spawn-Keeps g);
  removes = remove_as-Keeps;
  updates_lid = update_lid-Keeps;
  updates_event = update_event-Keeps;
  updates_range = update_range-Keeps;
  acquires = acquire_db-Keeps;
  releases = release_held-Keeps;
  writes = write_db-Keeps;
  sets_preslot = set_preslot-Keeps;
  satisfies = edt_satisfy-Keeps;
}

-- If the start, the run of an application and the shutdown return, in every data block the private
-- buffer has the block's size, and the public one has it while the block is held and is else empty.
pub start-BlocksAreValid :
    (app : App) (main_edt copy_edt fuel rounds : ℕ) (args : List ℕ)
    → Post BlocksAreValid (start app main_edt copy_edt fuel rounds args initial_runtime)
start-BlocksAreValid app main_edt copy_edt fuel rounds args =
    (start-Keeps blocks_valid app main_edt copy_edt fuel rounds args start_edt-Keeps).keep
      initial_runtime (λ g. tt)

-- Each call of the API that returns keeps the sizes of the buffers of all data blocks: the private
-- buffer has the block's size, and the public one has it while the block is held and is else empty.
pub api-BlocksAreValid :
    (fuel : ℕ) (c : Call) (s : Runtime)
    → BlocksAreValid s
    → Post BlocksAreValid (api (event_satisfy fuel) c s)
api-BlocksAreValid fuel c s p =
    (api-Keeps blocks_valid (event_satisfy-Keeps blocks_valid fuel) c).keep s p

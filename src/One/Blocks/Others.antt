-- ===== src/One/Blocks/Others.antt =====
-- Calls on other objects than blocks leave the buffers alone.
use ocr_vx.Prelude.{ℕ, ◌≡◌, refl, true, List, [], ◌∷◌, Option, some}
use ocr_vx.One.Types.{
  Runtime, Object, event_object, edt_object, db_object, lid_object, range_object, Edt, Event, Mode,
  invalid_slot,
}
use ocr_vx.One.Monad.{Kind, remove_as, write_lid, update_lid}
use ocr_vx.One.Logic.{
  Post, Keeps, Keeps-bind, Keeps-then, Keeps-if, Keeps-stop, Keeps-guard, Keeps-pure,
}
use ocr_vx.One.Reads.{reading, at_slot-Keeps}
use ocr_vx.One.Node.{
  append_task, spawn, satisfy_edt_slot, satisfy_edt_object, edt_satisfy, write_event, update_event,
}
use ocr_vx.One.Edges.{set_preslot, set_preslot_of}
use ocr_vx.One.Create.{write_index, update_range}
use ocr_vx.One.Run.{next_task, set_this_edt, start_edt}
use ocr_vx.One.Stable.{is_passive}
use ocr_vx.One.Blocks.Defs.{ObjectIsBlock, BlocksAreValid, put-Keeps, remove_object-Keeps, at-valid}

pub passive-IsBlock : (o : Object) → is_passive o ≡ true → ObjectIsBlock (some o)
unfolding is_passive
passive-IsBlock (db_object b) h = cc
passive-IsBlock _ h = tt

pub append_task-Keeps : (g : ℕ) → Keeps BlocksAreValid (append_task g)
unfolding append_task
append_task-Keeps g = record { keep = λ s p. p }

pub spawn-Keeps : (g : ℕ) → Keeps BlocksAreValid (spawn g)
unfolding spawn
spawn-Keeps g = search (append_task-Keeps, reading)

pub remove_as-Keeps : (kind : Kind) (g : ℕ) → Keeps BlocksAreValid (remove_as kind g)
unfolding remove_as
remove_as-Keeps kind g = search (remove_object-Keeps, reading)

pub update_lid-Keeps : (g target : ℕ) → Keeps BlocksAreValid (update_lid g target)
unfolding update_lid write_lid
update_lid-Keeps g target = at-valid g _ go
  where
    go : (o : Object) → ObjectIsBlock (some o) → Keeps BlocksAreValid (write_lid g target o)
    go (lid_object x) h = put-Keeps g _ tt
    go _ h = Keeps-stop _

pub update_event-Keeps : (g : ℕ) (f : Event → Event) → Keeps BlocksAreValid (update_event g f)
unfolding update_event write_event
update_event-Keeps g f = at-valid g _ go
  where
    go : (o : Object) → ObjectIsBlock (some o) → Keeps BlocksAreValid (write_event g f o)
    go (event_object x) h = put-Keeps g _ tt
    go _ h = Keeps-stop _

pub update_range-Keeps : (g idx v : ℕ) → Keeps BlocksAreValid (update_range g idx v)
unfolding update_range write_index
update_range-Keeps g idx v = at-valid g _ go
  where
    go : (o : Object) → ObjectIsBlock (some o) → Keeps BlocksAreValid (write_index g idx v o)
    go (range_object x) h = put-Keeps g _ tt
    go _ h = Keeps-stop _

pub set_preslot-Keeps :
    (g i : ℕ) (mode : Mode) (source : ℕ) → Keeps BlocksAreValid (set_preslot g i mode source)
unfolding set_preslot set_preslot_of
set_preslot-Keeps g i mode source = at-valid g _ go
  where
    go :
        (o : Object)
        → ObjectIsBlock (some o)
        → Keeps BlocksAreValid (set_preslot_of o g i mode source)
    go (event_object x) h =
        Keeps-bind (at_slot-Keeps x.preslots i invalid_slot) λ p. put-Keeps g _ tt
    go (edt_object x) h = Keeps-bind (at_slot-Keeps x.preslots i invalid_slot) λ p. put-Keeps g _ tt
    go _ h = Keeps-stop _

pub edt_satisfy-Keeps : (g arg slot : ℕ) → Keeps BlocksAreValid (edt_satisfy g arg slot)
unfolding edt_satisfy satisfy_edt_object satisfy_edt_slot
edt_satisfy-Keeps g arg slot = at-valid g _ go
  where
    go :
        (o : Object)
        → ObjectIsBlock (some o)
        → Keeps BlocksAreValid (satisfy_edt_object g arg slot o)
    go (edt_object x) h = Keeps-bind (at_slot-Keeps x.preslots slot invalid_slot) λ p.
        Keeps-then (Keeps-guard _ _)
          (Keeps-then (put-Keeps g _ tt) (Keeps-if _ (spawn-Keeps g) (Keeps-pure tt)))
    go _ h = Keeps-stop _

pub next_task-Keeps : Keeps BlocksAreValid next_task
unfolding next_task
next_task-Keeps = record { keep = λ s p. go s s.ready_tasks refl p }
  where
    go :
        (s : Runtime) (tasks : List ℕ)
        → s.ready_tasks ≡ tasks
        → BlocksAreValid s
        → Post BlocksAreValid (next_task s)
    go s [] r p = rw (r, next_task) tt
    go s (g ∷ rest) r p = rw (r, next_task) p

pub set_this_edt-Keeps : (t : Option Edt) → Keeps BlocksAreValid (set_this_edt t)
unfolding set_this_edt
set_this_edt-Keeps t = record { keep = λ s p. p }

pub start_edt-Keeps : Keeps BlocksAreValid start_edt
unfolding start_edt
start_edt-Keeps =
    search (next_task-Keeps, remove_object-Keeps, set_this_edt-Keeps, reading) depth 12

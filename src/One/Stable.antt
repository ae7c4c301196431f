-- ===== src/One/Stable.antt =====
-- A predicate that the primitive writes keep is kept by every call of the API, by every EDT that
-- runs and so by the whole program: the interface between an invariant and the runtime.
use ocr_vx.Prelude.{ℕ, ◌≡◌, Bool, true, false, Option}
use ocr_vx.One.Types.{Runtime, Object, Mode, Event, Edt, edt_object, db_object}
use ocr_vx.One.Monad.{◌>>◌, add_object, remove_as, Kind, update_lid}
use ocr_vx.One.Logic.{Keeps}
use ocr_vx.One.Db.{new_db, acquire_db, release_held, write_db}
use ocr_vx.One.Node.{update_event, edt_satisfy, all_satisfied, spawn}
use ocr_vx.One.Edges.{set_preslot}
use ocr_vx.One.Create.{update_range}

-- Objects that no task waits for in the queue: all but an EDT.
unfoldable pub is_passive : Object → Bool
is_passive (edt_object e) = false
is_passive (db_object b) = false
is_passive _ = true

pub record Stable (P : Runtime → Type 0) : Type 0 where
  pub on_sequence : (s : Runtime) (n : ℕ) → P s → P (record s { sequence = n })
  pub on_this_edt : (s : Runtime) (t : Option Edt) → P s → P (record s { this_edt = t })
  pub on_shutdown : (s : Runtime) (b : Bool) → P s → P (record s { shutdown_issued = b })
  pub on_abort :
      (s : Runtime) (b : Bool) (code : ℕ)
      → P s
      → P (record s { abort_issued = b; abort_error_code = code })
  pub add_passive : (g : ℕ) (o : Object) → is_passive o ≡ true → Keeps P (add_object g o)
  pub add_db : (g len : ℕ) → Keeps P (add_object g (db_object (new_db len)))
  pub add_waiting :
      (g : ℕ) (e : Edt) → all_satisfied e.preslots ≡ false → Keeps P (add_object g (edt_object e))
  pub add_ready :
      (g : ℕ) (e : Edt)
      → all_satisfied e.preslots ≡ true
      → Keeps P (add_object g (edt_object e) >> spawn g)
  pub removes : (kind : Kind) (g : ℕ) → Keeps P (remove_as kind g)
  pub updates_lid : (g target : ℕ) → Keeps P (update_lid g target)
  pub updates_event : (g : ℕ) (f : Event → Event) → Keeps P (update_event g f)
  pub updates_range : (g idx v : ℕ) → Keeps P (update_range g idx v)
  pub acquires : (g : ℕ) (mode : Mode) → Keeps P (acquire_db g mode)
  pub releases : (g : ℕ) → Keeps P (release_held g)
  pub writes : (g offset byte : ℕ) → Keeps P (write_db g offset byte)
  pub sets_preslot : (g i : ℕ) (mode : Mode) (source : ℕ) → Keeps P (set_preslot g i mode source)
  pub satisfies : (g arg slot : ℕ) → Keeps P (edt_satisfy g arg slot)

-- ===== src/One/Schedule/Objects.antt =====
-- Calls on events, blocks, lids, ranges and templates leave the queue of ready tasks alone.
use ocr_vx.Prelude.{ℕ, ◌≡◌, refl, sym, true, false, none, some, Option-cases, Bool-cases, inl, inr}
use ocr_vx.One.Types.{
  Runtime, Object, event_object, edt_object, db_object, lid_object, range_object, Event, Db, Mode,
}
use ocr_vx.One.Monad.{
  add_object, remove_object, put, Kind, event_kind, template_kind, db_kind, lid_kind, has_kind,
  remove_as, write_lid, update_lid,
}
use ocr_vx.One.Logic.{Post, Keeps, Keeps-stop}
use ocr_vx.One.Reads.{get-bind, reading}
use ocr_vx.One.Create.{write_index, update_range}
use ocr_vx.One.Db.{
  put_db, acquire_db, acquire_object, release_held, release_object, write_db, write_object,
}
use ocr_vx.One.Node.{write_event, update_event}
use ocr_vx.One.Stable.{is_passive}
use ocr_vx.One.Schedule.Defs.{
  is_ready, IsScheduled, write-IsScheduled, Ready, put-Keeps, at-IsScheduled,
}

-- `add_object` succeeds on a GUID that names nothing.
pub add_object-Keeps :
    (g : ℕ) (o : Object) → is_ready (some o) ≡ false → Keeps IsScheduled (add_object g o)
unfolding add_object
add_object-Keeps g o h = record {
  keep = λ s p. elim (Option-cases (s.objects g)) [
    | inl e ↦ simp (e, add_object) (write-IsScheduled s g (some o) (rw e (sym h)) p)
    | inr (x, e) ↦ simp (e, add_object) tt
  ];
}

pub passive-not-ready : (o : Object) → is_passive o ≡ true → is_ready (some o) ≡ false
unfolding is_passive
passive-not-ready (edt_object e) h = cc
passive-not-ready _ h = refl

pub has_kind-not-ready :
    (kind : Kind) (o : Object) → has_kind kind o ≡ true → is_ready (some o) ≡ false
unfolding has_kind
has_kind-not-ready event_kind (edt_object e) h = cc
has_kind-not-ready template_kind (edt_object e) h = cc
has_kind-not-ready db_kind (edt_object e) h = cc
has_kind-not-ready lid_kind (edt_object e) h = cc
has_kind-not-ready _ _ h = refl

pub remove_as-Keeps : (kind : Kind) (g : ℕ) → Keeps IsScheduled (remove_as kind g)
unfolding remove_as remove_object
remove_as-Keeps kind g = get-bind g _ λ s o e p. elim (Bool-cases (has_kind kind o)) [
  | inl yes' ↦
      simp (yes', e, remove_object)
        (write-IsScheduled s g none (rw e (has_kind-not-ready kind o yes')) p)
  | inr no' ↦ simp no' tt
]

pub update_lid-Keeps : (g target : ℕ) → Keeps IsScheduled (update_lid g target)
unfolding update_lid write_lid put
update_lid-Keeps g target = get-bind g _ go
  where
    go :
        (s : Runtime) (o : Object)
        → s.objects g ≡ some o
        → IsScheduled s
        → Post IsScheduled (write_lid g target o s)
    go s (lid_object old) e p = write-IsScheduled s g _ (rw e refl) p
    go s _ e p = tt

pub update_event-Keeps : (g : ℕ) (f : Event → Event) → Keeps IsScheduled (update_event g f)
unfolding update_event write_event put
update_event-Keeps g f = get-bind g _ go
  where
    go :
        (s : Runtime) (o : Object)
        → s.objects g ≡ some o
        → IsScheduled s
        → Post IsScheduled (write_event g f o s)
    go s (event_object old) e p = write-IsScheduled s g _ (rw e refl) p
    go s _ e p = tt

pub put_db-Keeps : (g : ℕ) (b : Db) → Keeps (Ready g false) (put_db g b)
unfolding put_db
put_db-Keeps g b = put-Keeps g (db_object b) false refl

pub acquire_db-Keeps : (g : ℕ) (mode : Mode) → Keeps IsScheduled (acquire_db g mode)
unfolding acquire_db acquire_object
acquire_db-Keeps g mode = at-IsScheduled g _ go
  where
    go : (o : Object) → Keeps (Ready g (is_ready (some o))) (acquire_object g mode o)
    go (db_object b) = search (put_db-Keeps, reading) depth 8
    go _ = Keeps-stop _

pub release_held-Keeps : (g : ℕ) → Keeps IsScheduled (release_held g)
unfolding release_held release_object
release_held-Keeps g = at-IsScheduled g _ go
  where
    go : (o : Object) → Keeps (Ready g (is_ready (some o))) (release_object g o)
    go (db_object b) = search (put_db-Keeps, reading) depth 8
    go _ = Keeps-stop _

pub write_db-Keeps : (g offset byte : ℕ) → Keeps IsScheduled (write_db g offset byte)
unfolding write_db write_object
write_db-Keeps g offset byte = at-IsScheduled g _ go
  where
    go : (o : Object) → Keeps (Ready g (is_ready (some o))) (write_object g offset byte o)
    go (db_object b) = search (put_db-Keeps, reading) depth 8
    go _ = Keeps-stop _

pub update_range-Keeps : (g idx v : ℕ) → Keeps IsScheduled (update_range g idx v)
unfolding update_range write_index
update_range-Keeps g idx v = at-IsScheduled g _ go
  where
    go : (o : Object) → Keeps (Ready g (is_ready (some o))) (write_index g idx v o)
    go (range_object r) = put-Keeps g _ false refl
    go _ = Keeps-stop _

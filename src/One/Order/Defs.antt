-- ===== src/One/Order/Defs.antt =====
-- Each call adds to the end of the queue of ready tasks (`task_list` of include/one/runtime.h).
use ocr_vx.Prelude.{ℕ, ◌≡◌, refl, ◌∙◌, ap, List, [], ◌∷◌, ◌++◌, Option-cases, inl, inr}
use ocr_vx.One.Types.{
  Runtime, Object, Event, Mode, event_object, edt_object, lid_object, range_object, db_object,
  invalid_slot,
}
use ocr_vx.One.Monad.{
  M, ◌>>=◌, get, add_object, remove_object, put, Kind, remove_as, write_lid, update_lid,
}
use ocr_vx.One.Logic.{Keeps, Keeps-bind, Keeps-then, Keeps-pure, Keeps-stop, Keeps-if, Keeps-guard}
use ocr_vx.One.Reads.{reading, get-bind, at_slot-Keeps}
use ocr_vx.One.Db.{
  put_db, acquire_db, acquire_object, release_held, release_object, write_db, write_object,
}
use ocr_vx.One.Node.{
  append_task, spawn, satisfy_edt_slot, satisfy_edt_object, edt_satisfy, write_event, update_event,
}
use ocr_vx.One.Edges.{set_preslot, set_preslot_of}
use ocr_vx.One.Create.{write_index, update_range}
use ocr_vx.One.Stable.{Stable}

-- The queue `q` is a prefix of the runtime's.
abbrev pub Extends : List ℕ → Runtime → Type 0
Extends q s = (added : List ℕ) × (s.ready_tasks ≡ q ++ added)

snoc_assoc : (q added : List ℕ) (g : ℕ) → (q ++ added) ++ (g ∷ []) ≡ q ++ (added ++ (g ∷ []))
snoc_assoc [] added g = refl
snoc_assoc (x ∷ q) added g = ap (λ ts. x ∷ ts) (snoc_assoc q added g)

module _ (q : List ℕ) where
  append_task-Keeps : (g : ℕ) → Keeps (Extends q) (append_task g)
  unfolding append_task
  append_task-Keeps g = record {
    keep = λ s p. (p.0 ++ (g ∷ []), ap (λ ts. ts ++ (g ∷ [])) p.1 ∙ snoc_assoc q p.0 g);
  }

  put-Keeps : (g : ℕ) (o : Object) → Keeps (Extends q) (put g o)
  unfolding put
  put-Keeps g o = record { keep = λ s p. p }

  add_object-Keeps : (g : ℕ) (o : Object) → Keeps (Extends q) (add_object g o)
  unfolding add_object
  add_object-Keeps g o = record {
    keep = λ s p. elim (Option-cases (s.objects g)) [
      | inl e ↦ simp (e, add_object) p
      | inr (x, e) ↦ simp (e, add_object) tt
    ];
  }

  pub remove_object-Keeps : (g : ℕ) → Keeps (Extends q) (remove_object g)
  unfolding remove_object
  remove_object-Keeps g = record {
    keep = λ s p. elim (Option-cases (s.objects g)) [
      | inl e ↦ simp (e, remove_object) tt
      | inr (x, e) ↦ simp (e, remove_object) p
    ];
  }

  put_db-Keeps : (g : ℕ) (b : _) → Keeps (Extends q) (put_db g b)
  unfolding put_db
  put_db-Keeps g b = put-Keeps g (db_object b)

  spawn-Keeps : (g : ℕ) → Keeps (Extends q) (spawn g)
  unfolding spawn
  spawn-Keeps g = search (append_task-Keeps, reading)

  remove_as-Keeps : (kind : Kind) (g : ℕ) → Keeps (Extends q) (remove_as kind g)
  unfolding remove_as
  remove_as-Keeps kind g = search (remove_object-Keeps, reading)

  -- A call on the object that `get` finds.
  at-object :
      {B : Type 0} (g : ℕ) (f : Object → M B)
      → ((o : Object) → Keeps (Extends q) (f o))
      → Keeps (Extends q) (get g >>= f)
  at-object g f h = get-bind g f λ s o e p. (h o).keep s p

  update_lid-Keeps : (g target : ℕ) → Keeps (Extends q) (update_lid g target)
  unfolding update_lid write_lid
  update_lid-Keeps g target = at-object g (write_lid g target) go
    where
      go : (o : Object) → Keeps (Extends q) (write_lid g target o)
      go (lid_object x) = put-Keeps g _
      go _ = Keeps-stop _

  update_event-Keeps : (g : ℕ) (f : Event → Event) → Keeps (Extends q) (update_event g f)
  unfolding update_event write_event
  update_event-Keeps g f = at-object g (write_event g f) go
    where
      go : (o : Object) → Keeps (Extends q) (write_event g f o)
      go (event_object x) = put-Keeps g _
      go _ = Keeps-stop _

  update_range-Keeps : (g idx v : ℕ) → Keeps (Extends q) (update_range g idx v)
  unfolding update_range write_index
  update_range-Keeps g idx v = at-object g (write_index g idx v) go
    where
      go : (o : Object) → Keeps (Extends q) (write_index g idx v o)
      go (range_object x) = put-Keeps g _
      go _ = Keeps-stop _

  acquire_db-Keeps : (g : ℕ) (mode : Mode) → Keeps (Extends q) (acquire_db g mode)
  unfolding acquire_db acquire_object
  acquire_db-Keeps g mode = at-object g (acquire_object g mode) go
    where
      go : (o : Object) → Keeps (Extends q) (acquire_object g mode o)
      go (db_object b) = search (put_db-Keeps, reading) depth 8
      go _ = Keeps-stop _

  release_held-Keeps : (g : ℕ) → Keeps (Extends q) (release_held g)
  unfolding release_held release_object
  release_held-Keeps g = at-object g (release_object g) go
    where
      go : (o : Object) → Keeps (Extends q) (release_object g o)
      go (db_object b) = search (put_db-Keeps, reading) depth 8
      go _ = Keeps-stop _

  write_db-Keeps : (g offset byte : ℕ) → Keeps (Extends q) (write_db g offset byte)
  unfolding write_db write_object
  write_db-Keeps g offset byte = at-object g (write_object g offset byte) go
    where
      go : (o : Object) → Keeps (Extends q) (write_object g offset byte o)
      go (db_object b) = search (put_db-Keeps, reading) depth 8
      go _ = Keeps-stop _

  set_preslot-Keeps :
      (g i : ℕ) (mode : Mode) (source : ℕ) → Keeps (Extends q) (set_preslot g i mode source)
  unfolding set_preslot set_preslot_of
  set_preslot-Keeps g i mode source = at-object g (λ o. set_preslot_of o g i mode source) go
    where
      go : (o : Object) → Keeps (Extends q) (set_preslot_of o g i mode source)
      go (event_object e) = search (put-Keeps, reading) depth 8
      go (edt_object e) = search (put-Keeps, reading) depth 8
      go _ = Keeps-stop _

  edt_satisfy-Keeps : (g arg slot : ℕ) → Keeps (Extends q) (edt_satisfy g arg slot)
  unfolding edt_satisfy satisfy_edt_object satisfy_edt_slot
  edt_satisfy-Keeps g arg slot = at-object g (satisfy_edt_object g arg slot) go
    where
      go : (o : Object) → Keeps (Extends q) (satisfy_edt_object g arg slot o)
      go (edt_object e) = Keeps-bind (at_slot-Keeps e.preslots slot invalid_slot) λ p.
          Keeps-then (Keeps-guard _ _)
            (Keeps-then (put-Keeps g _) (Keeps-if _ (spawn-Keeps g) (Keeps-pure tt)))
      go _ = Keeps-stop _

  -- What a call adds to the queue comes after what is in it.
  pub extended : Stable (Extends q)
  extended = record {
    on_sequence = λ s n p. p;
    on_this_edt = λ s t p. p;
    on_shutdown = λ s b p. p;
    on_abort = λ s b code p. p;
    add_passive = λ g o h. add_object-Keeps g o;
    add_db = λ g len. add_object-Keeps g _;
    add_waiting = λ g e h. add_object-Keeps g (edt_object e);
    add_ready = λ g e h. Keeps-then (add_object-Keeps g (edt_object e)) (spawn-Keeps g);
    removes = remove_as-Keeps;
    updates_lid = update_lid-Keeps;
    updates_event = update_event-Keeps;
    updates_range = update_range-Keeps;
    acquires = acquire_db-Keeps;
    releases = release_held-Keeps;
    writes = write_db-Keeps;
    sets_preslot = set_preslot-Keeps;
    satisfies = edt_satisfy-Keeps;
  }

-- ===== src/One/Labels.antt =====
-- Labeled GUIDs (`guid_from_index` and the GUID that `create_event` takes, include/one/runtime.h) and
-- event-local storage.
use ocr_vx.Prelude.{
  ℕ, zero, suc, ◌+◌, ◌≡◌, refl, Bool, true, false, List, [], ◌∷◌, none, some, ◌==◌, ==_refl,
  get_elem?, if◌then◌else◌, Option, Bool-cases, ap, sym, ◌∙◌, ==_iff, Option-cases, zero_other,
  suc_other, suc_same, inl, inr,
}
use ocr_vx.One.EventStates.{with_event}
use ocr_vx.One.Types.{Runtime, Object, EventType, Edt, event_object, null_guid}
use ocr_vx.One.Monad.{ok, exists, add_object}
use ocr_vx.One.Node.{at_slot}
use ocr_vx.One.Create.{
  event_type_is_valid, is_latch, choose_guid, new_event, finish_event, create_event,
  guid_prop_check,
}
use ocr_vx.One.Tasks.{els_entry, els_get, set_growing, els_set}

-- `GUID_PROP_CHECK` with and without the argument of the event
abbrev pub checked : Bool → ℕ
checked takes_arg = guid_prop_check + (if takes_arg then 1 else 0)

-- What is at the GUID already, or else the new object
abbrev pub or_new : Option Object → Object → Object
or_new none new_object = new_object
or_new (some old) new_object = old

module _ (g : ℕ) (named : (g == null_guid) ≡ false) where
  create_event-present :
      (type : EventType) (takes_arg : Bool) (s : Runtime) (o : Object)
      → event_type_is_valid type ≡ true
      → is_latch type ≡ false
      → s.objects g ≡ some o
      → create_event g type (checked takes_arg) s ≡ ok (g, s)
  unfolding create_event choose_guid exists finish_event
  create_event-present type true s o v l h = rw (v, l, named) (rw (h, exists) refl)
  create_event-present type false s o v l h = rw (v, l, named) (rw (h, exists) refl)

  create_event-absent :
      (type : EventType) (takes_arg : Bool) (s : Runtime)
      → event_type_is_valid type ≡ true
      → is_latch type ≡ false
      → s.objects g ≡ none
      → create_event g type (checked takes_arg) s
        ≡ ok (g, with_event s g (new_event type takes_arg))
  unfolding create_event choose_guid exists finish_event add_object
  create_event-absent type true s v l h =
      rw (v, l, named) (rw (h, exists) (rw (h, add_object) refl))
  create_event-absent type false s v l h =
      rw (v, l, named) (rw (h, exists) (rw (h, add_object) refl))

  -- Creating events at a labeled GUID with `GUID_PROP_CHECK` makes one object. The first creation
  -- returns the GUID: it leaves there the object that was there or else a new event of its type, and
  -- each other GUID as it was. A second creation, even of another type, returns the same GUID and
  -- changes nothing in the runtime. Both types must be valid and not a latch, and the GUID must not
  -- be null.
  pub create_event-checked_twice :
      (type type' : EventType) (takes_arg takes_arg' : Bool) (s : Runtime)
      → (event_type_is_valid type ≡ true) × (is_latch type ≡ false)
      → (event_type_is_valid type' ≡ true) × (is_latch type' ≡ false)
      → (t : Runtime) × (create_event g type (checked takes_arg) s ≡ ok (g, t))
        × (create_event g type' (checked takes_arg') t ≡ ok (g, t))
        × ((h : ℕ)
            → t.objects h ≡ (
                if g == h
                then some (or_new (s.objects g) (event_object (new_event type takes_arg)))
                else s.objects h))
  create_event-checked_twice type type' takes_arg takes_arg' s v v' =
      elim (Option-cases (s.objects g)) [
        | inl e ↦ (
          with_event s g (new_event type takes_arg),
          create_event-absent type takes_arg s (v.0) (v.1) e,
          create_event-present type' takes_arg' (with_event s g (new_event type takes_arg))
              (event_object (new_event type takes_arg)) (v'.0) (v'.1) (rw (==_refl g)),
          λ h. rw e refl,
        )
        | inr (o, e) ↦ (
          s,
          create_event-present type takes_arg s o (v.0) (v.1) e,
          create_event-present type' takes_arg' s o (v'.0) (v'.1) e,
          λ h. elim (Bool-cases (g == h)) [
            | inl here ↦ rw (here, e) (ap s.objects (sym ((==_iff g h).0 here)) ∙ e)
            | inr there ↦ rw there refl
          ],
        )
      ]

get_elem?-set_growing :
    (xs : List ℕ) (i j v old : ℕ)
    → get_elem? xs j ≡ some old
    → get_elem? (set_growing xs i v) j ≡ some (if i == j then v else old)
unfolding set_growing
get_elem?-set_growing [] i j v old h = cc
get_elem?-set_growing (x ∷ xs) zero zero v old h = refl
get_elem?-set_growing (x ∷ xs) zero (suc j) v old h = rw (zero_other j) h
get_elem?-set_growing (x ∷ xs) (suc i) zero v old h = rw (suc_other i) h
get_elem?-set_growing (x ∷ xs) (suc i) (suc j) v old h =
    rw (suc_same i j) (get_elem?-set_growing xs i j v old h)

get_elem?-set_growing_same : (xs : List ℕ) (i v : ℕ) → get_elem? (set_growing xs i v) i ≡ some v
unfolding set_growing
get_elem?-set_growing_same [] zero v = refl
get_elem?-set_growing_same [] (suc i) v = get_elem?-set_growing_same [] i v
get_elem?-set_growing_same (x ∷ xs) zero v = refl
get_elem?-set_growing_same (x ∷ xs) (suc i) v = get_elem?-set_growing_same xs i v

-- What an EDT stores in its local storage it reads back at the same offset, and the entries at the
-- other offsets that were there keep their values; the storage grows to the offset.
pub els_set-els_get :
    (s : Runtime) (e : Edt) (i v : ℕ)
    → s.this_edt ≡ some e
    → (t : Runtime) × (els_set i v s ≡ ok (tt, t))
      × (els_get i t ≡ ok (v, t))
      × ((j old : ℕ)
          → get_elem? e.els j ≡ some old
          → els_get j t ≡ ok (if i == j then v else old, t))
unfolding els_set els_get els_entry at_slot
els_set-els_get s e i v h = (
  record s { this_edt = some (record e { els = set_growing e.els i v }) },
  simp (h, els_set),
  rw (get_elem?-set_growing_same e.els i v, at_slot),
  λ j old there. rw (get_elem?-set_growing e.els i j v old there, at_slot),
)

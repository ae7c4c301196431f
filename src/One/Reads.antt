-- ===== src/One/Reads.antt =====
-- Calls that only read the runtime keep every predicate.
use ocr_vx.Prelude.{ℕ, ◌≡◌, List, Option, none, some, Option-cases, inl, inr, get_elem?}
use ocr_vx.One.Types.{
  Runtime, Object, Fault, Db, Edt, event_object, edt_object, edt_template_object, db_object,
  lid_object, range_object, Mode, undefined_lid,
}
use ocr_vx.One.Monad.{
  M, ◌>>=◌, get, exists, as_event, as_edt, as_edt_template, as_db, as_range, resolve_object,
  resolve_lid,
}
use ocr_vx.One.Logic.{Post, Keeps, keeping, Keeps-pure, Keeps-stop, Keeps-if}
use ocr_vx.One.Db.{get_db, acquire, release, get_current_edt_guid, at_or_fault, read_db}
use ocr_vx.One.Node.{at_slot, get_event, get_edt, check_data}
use ocr_vx.One.Create.{get_edt_template, get_range, is_unused}
use ocr_vx.One.Tasks.{
  current_latch, read_array, read_params, read_deps, param_count, els_get, els_entry,
}
use ocr_vx.One.Run.{current_blocks, current_edt, is_down, exit_code}

module _ {P : Runtime → Type 0} where
  -- A call on the object that `get` finds is judged at that object.
  pub get-bind :
      {B : Type 0} (g : ℕ) (f : Object → M B)
      → ((s : Runtime) (o : Object) → s.objects g ≡ some o → P s → Post P (f o s))
      → Keeps P (get g >>= f)
  unfolding get
  get-bind g f h = record {
    keep = λ s p. elim (Option-cases (s.objects g)) [
      | inl e ↦ rw (e, get) tt
      | inr (o, e) ↦ rw (e, get) (h s o e p)
    ];
  }

  pub get-Keeps : (g : ℕ) → Keeps P (get g)
  unfolding get
  get-Keeps g = record {
    keep = λ s p. elim (Option-cases (s.objects g)) [
      | inl e ↦ rw (e, get) tt
      | inr (o, e) ↦ rw (e, get) p
    ];
  }

  pub exists-Keeps : (g : ℕ) → Keeps P (exists g)
  unfolding exists
  exists-Keeps g = record {
    keep = λ s p. elim (Option-cases (s.objects g)) [
      | inl e ↦ rw (e, exists) p
      | inr (o, e) ↦ rw (e, exists) p
    ];
  }

  pub as_event-Keeps : (o : Object) → Keeps P (as_event o)
  unfolding as_event
  as_event-Keeps (event_object e) = Keeps-pure e
  as_event-Keeps _ = Keeps-stop _

  pub as_edt-Keeps : (o : Object) → Keeps P (as_edt o)
  unfolding as_edt
  as_edt-Keeps (edt_object e) = Keeps-pure e
  as_edt-Keeps _ = Keeps-stop _

  pub as_edt_template-Keeps : (o : Object) → Keeps P (as_edt_template o)
  unfolding as_edt_template
  as_edt_template-Keeps (edt_template_object e) = Keeps-pure e
  as_edt_template-Keeps _ = Keeps-stop _

  pub as_db-Keeps : (o : Object) → Keeps P (as_db o)
  unfolding as_db
  as_db-Keeps (db_object e) = Keeps-pure e
  as_db-Keeps _ = Keeps-stop _

  pub as_range-Keeps : (o : Object) → Keeps P (as_range o)
  unfolding as_range
  as_range-Keeps (range_object e) = Keeps-pure e
  as_range-Keeps _ = Keeps-stop _

  pub resolve_object-Keeps : (g : ℕ) (o : Object) → Keeps P (resolve_object g o)
  unfolding resolve_object
  resolve_object-Keeps g (lid_object t) = Keeps-if _ (Keeps-stop undefined_lid) (Keeps-pure t)
  resolve_object-Keeps g _ = Keeps-pure g

pub ruleset casts = (
  get-Keeps, exists-Keeps, as_event-Keeps, as_edt-Keeps, as_edt_template-Keeps, as_db-Keeps,
  as_range-Keeps, resolve_object-Keeps, keeping,
)

module _ {P : Runtime → Type 0} where
  pub resolve_lid-Keeps : (g : ℕ) → Keeps P (resolve_lid g)
  unfolding resolve_lid
  resolve_lid-Keeps g = search casts

  pub get_db-Keeps : (g : ℕ) → Keeps P (get_db g)
  unfolding get_db
  get_db-Keeps g = search casts

  pub get_event-Keeps : (g : ℕ) → Keeps P (get_event g)
  unfolding get_event
  get_event-Keeps g = search casts

  pub get_edt-Keeps : (g : ℕ) → Keeps P (get_edt g)
  unfolding get_edt
  get_edt-Keeps g = search casts

  pub get_edt_template-Keeps : (g : ℕ) → Keeps P (get_edt_template g)
  unfolding get_edt_template
  get_edt_template-Keeps g = search casts

  pub get_range-Keeps : (g : ℕ) → Keeps P (get_range g)
  unfolding get_range
  get_range-Keeps g = search casts

  pub at_slot-Keeps : {A : Type 0} (xs : List A) (i : ℕ) (e : Fault) → Keeps P (at_slot xs i e)
  unfolding at_slot
  at_slot-Keeps xs i e = record {
    keep = λ s p. elim (Option-cases (get_elem? xs i)) [
      | inl h ↦ rw (h, at_slot) tt
      | inr (x, h) ↦ rw (h, at_slot) p
    ];
  }

  pub check_data-Keeps : (g : ℕ) → Keeps P (check_data g)
  unfolding check_data
  check_data-Keeps g = search (get_db-Keeps, keeping)

  pub is_unused-Keeps : (g : ℕ) → Keeps P (is_unused g)
  unfolding is_unused
  is_unused-Keeps g = search casts

  pub current_latch-Keeps : Keeps P current_latch
  unfolding current_latch
  current_latch-Keeps = record {
    keep = λ s p. elim (Option-cases s.this_edt) [
      | inl h ↦ rw (h, current_latch) p
      | inr (x, h) ↦ rw (h, current_latch) p
    ];
  }

  pub current_blocks-Keeps : Keeps P current_blocks
  unfolding current_blocks
  current_blocks-Keeps = record {
    keep = λ s p. elim (Option-cases s.this_edt) [
      | inl h ↦ rw (h, current_blocks) p
      | inr (x, h) ↦ rw (h, current_blocks) p
    ];
  }

  pub current_edt-Keeps : Keeps P current_edt
  unfolding current_edt
  current_edt-Keeps = record {
    keep = λ s p. elim (Option-cases s.this_edt) [
      | inl h ↦ rw (h, current_edt) tt
      | inr (x, h) ↦ rw (h, current_edt) p
    ];
  }

  pub get_current_edt_guid-Keeps : Keeps P get_current_edt_guid
  unfolding get_current_edt_guid
  get_current_edt_guid-Keeps = record {
    keep = λ s p. elim (Option-cases s.this_edt) [
      | inl h ↦ rw (h, get_current_edt_guid) p
      | inr (x, h) ↦ rw (h, get_current_edt_guid) p
    ];
  }

  els_entry-Keeps : (t : Option Edt) (offset : ℕ) → Keeps P (els_entry t offset)
  unfolding els_entry
  els_entry-Keeps none offset = Keeps-stop _
  els_entry-Keeps (some e) offset = at_slot-Keeps e.els offset _

  pub els_get-Keeps : (offset : ℕ) → Keeps P (els_get offset)
  unfolding els_get
  els_get-Keeps offset = record { keep = λ s p. (els_entry-Keeps s.this_edt offset).keep s p }

  pub read_params-Keeps : (n : ℕ) (xs : Option (List ℕ)) → Keeps P (read_params n xs)
  unfolding read_params read_array
  read_params-Keeps n none = search keeping
  read_params-Keeps n (some xs) = search keeping

  pub read_deps-Keeps : (n : ℕ) (xs : Option (List ℕ)) → Keeps P (read_deps n xs)
  unfolding read_deps read_array
  read_deps-Keeps n none = search keeping
  read_deps-Keeps n (some xs) = search keeping

  pub param_count-Keeps : (a b : ℕ) → Keeps P (param_count a b)
  unfolding param_count
  param_count-Keeps a b = search keeping

  pub is_down-Keeps : Keeps P is_down
  unfolding is_down
  is_down-Keeps = record { keep = λ s p. p }

  pub exit_code-Keeps : Keeps P exit_code
  unfolding exit_code
  exit_code-Keeps = record { keep = λ s p. p }

  pub acquire-Keeps : (b : Db) (mode : Mode) (owner : ℕ) → Keeps P (acquire b mode owner)
  unfolding acquire
  acquire-Keeps b mode owner = search keeping

  pub release-Keeps : (b : Db) → Keeps P (release b)
  unfolding release
  release-Keeps b = search keeping

  at_or_fault-Keeps : (o : Option ℕ) → Keeps P (at_or_fault o)
  unfolding at_or_fault
  at_or_fault-Keeps none = Keeps-stop _
  at_or_fault-Keeps (some v) = Keeps-pure v

  pub read_db-Keeps : (g offset : ℕ) → Keeps P (read_db g offset)
  unfolding read_db
  read_db-Keeps g offset = search (get_db-Keeps, at_or_fault-Keeps, keeping)

pub ruleset reading = (
  casts, resolve_lid-Keeps, get_db-Keeps, get_event-Keeps, get_edt-Keeps, get_edt_template-Keeps,
  get_range-Keeps, at_slot-Keeps, check_data-Keeps, is_unused-Keeps, current_latch-Keeps,
  current_blocks-Keeps, current_edt-Keeps, get_current_edt_guid-Keeps, els_get-Keeps,
  read_params-Keeps, read_deps-Keeps, param_count-Keeps, exit_code-Keeps, read_db-Keeps,
  acquire-Keeps, release-Keeps,
)

-- ===== src/One/Monad.antt =====
-- Calls on the runtime: a state that is passed on, or the fault that ends the program.
-- `object_list` and `guid_generator` of include/one/runtime.h, and the casts of src/one/guid.cpp.
use ocr_vx.Prelude.{ℕ, ◌+◌, ◌%◌, ◌^◌, Bool, true, false, Option, none, some, ◌==◌, if◌then◌else◌}
use ocr_vx.One.Types.{
  Fault, Runtime, Object, Event, Edt, EdtTemplate, Db, Range, event_object, edt_object,
  edt_template_object, db_object, lid_object, range_object, guid_missing, guid_taken, wrong_type,
  undefined_lid, null_guid,
}

pub data Result {ℓ} (A : Type ℓ) : Type ℓ where
  ok : A → Result A
  fault : Fault → Result A

abbrev pub M : Type 0 → Type 0
M A = Runtime → Result (A × Runtime)

abbrev pub bind_result : {A B : Type 0} → Result (A × Runtime) → (A → M B) → Result (B × Runtime)
bind_result (ok (a, s)) f = f a s
bind_result (fault e) f = fault e

infixl 5 ◌>>=◌ ◌>>◌
abbrev pub ◌>>=◌ : {A B : Type 0} → M A → (A → M B) → M B
◌>>=◌ m f s = bind_result (m s) f

abbrev pub ◌>>◌ : {B : Type 0} → M (Unit {0}) → M B → M B
m >> k = m >>= λ _. k

abbrev pub pure : {A : Type 0} → A → M A
pure a s = ok (a, s)

abbrev pub stop : {A : Type 0} → Fault → M A
stop e s = fault e

-- `ocr_assert`
abbrev pub guard : Bool → Fault → M (Unit {0})
guard b e = if b then pure tt else stop e

abbrev pub update : {A : Type 0} → (ℕ → Option A) → ℕ → Option A → ℕ → Option A
update f g o h = if g == h then o else f h

-- `object_list::get`
unfoldable pub get : ℕ → M Object
get g s = elim (s.objects g) [ some o ↦ ok (o, s) | none ↦ fault guid_missing ]

unfoldable pub exists : ℕ → M Bool
exists g s = elim (s.objects g) [ some o ↦ ok (true, s) | none ↦ ok (false, s) ]

-- `object_list::add`
unfoldable pub add_object : ℕ → Object → M (Unit {0})
add_object g o s = elim (s.objects g) [
  | some _ ↦ fault guid_taken
  | none ↦ ok (tt, record s { objects = update s.objects g (some o) })
]

-- `object_list::remove`
unfoldable pub remove_object : ℕ → M (Unit {0})
remove_object g s = elim (s.objects g) [
  | some _ ↦ ok (tt, record s { objects = update s.objects g none })
  | none ↦ fault guid_missing
]

-- A write through the pointer that `get` returns.
unfoldable pub put : ℕ → Object → M (Unit {0})
put g o s = ok (tt, record s { objects = update s.objects g (some o) })

-- `guid_generator::get_next`
unfoldable pub get_next : M ℕ
get_next s = ok (s.sequence, record s { sequence = (s.sequence + 1) % 2 ^ 64 })

unfoldable pub as_event : Object → M Event
as_event (event_object e) = pure e
as_event _ = stop wrong_type

unfoldable pub as_edt : Object → M Edt
as_edt (edt_object e) = pure e
as_edt _ = stop wrong_type

unfoldable pub as_edt_template : Object → M EdtTemplate
as_edt_template (edt_template_object t) = pure t
as_edt_template _ = stop wrong_type

unfoldable pub as_db : Object → M Db
as_db (db_object b) = pure b
as_db _ = stop wrong_type

unfoldable pub as_lid : Object → M ℕ
as_lid (lid_object g) = pure g
as_lid _ = stop wrong_type

unfoldable pub as_range : Object → M Range
as_range (range_object r) = pure r
as_range _ = stop wrong_type

unfoldable pub resolve_object : ℕ → Object → M ℕ
resolve_object g (lid_object target) =
    if target == null_guid then stop undefined_lid else pure target
resolve_object g _ = pure g

-- `runtime::resolve_lid`
unfoldable pub resolve_lid : ℕ → M ℕ
resolve_lid g = if g == null_guid then pure g else (get g >>= resolve_object g)

pub data Kind : Type 0 where
  event_kind template_kind db_kind lid_kind : Kind

-- `type() == G_...`
unfoldable pub has_kind : Kind → Object → Bool
has_kind event_kind (event_object e) = true
has_kind template_kind (edt_template_object t) = true
has_kind db_kind (db_object b) = true
has_kind lid_kind (lid_object g) = true
has_kind _ _ = false

-- Removing an object through a pointer that has been cast to its type.
unfoldable pub remove_as : Kind → ℕ → M (Unit {0})
remove_as kind g = do o ← get g; guard (has_kind kind o) wrong_type; remove_object g

unfoldable pub write_lid : ℕ → ℕ → Object → M (Unit {0})
write_lid g target (lid_object old) = put g (lid_object target)
write_lid g target _ = stop wrong_type

-- `get(g)->as_lid()->guid_ = target`
unfoldable pub update_lid : ℕ → ℕ → M (Unit {0})
update_lid g target = do o ← get g; write_lid g target o

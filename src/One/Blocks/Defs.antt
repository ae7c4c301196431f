-- ===== src/One/Blocks/Defs.antt =====
-- The two buffers of every data block (include/one/db.h).
use ocr_vx.Prelude.{
  ℕ, ◌≡◌, Option, none, some, ◌==◌, if◌then◌else◌, length, Option-cases, Bool-cases, inl, inr,
  subst,
}
use ocr_vx.One.Types.{Runtime, Object, db_object, Db}
use ocr_vx.One.Monad.{M, ◌>>=◌, get, add_object, remove_object, put, update}
use ocr_vx.One.Logic.{Keeps}
use ocr_vx.One.Reads.{get-bind}

-- Both buffers have the block's size: the private one always, the public one while the block is
-- held, and else it is gone.
abbrev pub IsBlock : Db → Type 0
IsBlock b =
    (length b.buffer_private ≡ b.size)
    × (length b.buffer_public ≡ (if b.acquired then b.size else 0))

abbrev pub ObjectIsBlock : Option Object → Type 0
ObjectIsBlock (some (db_object b)) = IsBlock b
ObjectIsBlock _ = Unit

abbrev pub BlocksAreValid : Runtime → Type 0
BlocksAreValid s = (g : ℕ) → ObjectIsBlock (s.objects g)

pub write-BlocksAreValid :
    (s : Runtime) (g : ℕ) (o : Option Object)
    → ObjectIsBlock o
    → BlocksAreValid s
    → BlocksAreValid (record s { objects = update s.objects g o })
write-BlocksAreValid s g o h p k = elim (Bool-cases (g == k)) [
  | inl same ↦ rw same h
  | inr other ↦ rw other (p k)
]

pub put-Keeps : (g : ℕ) (o : Object) → ObjectIsBlock (some o) → Keeps BlocksAreValid (put g o)
unfolding put
put-Keeps g o h = record { keep = λ s p. write-BlocksAreValid s g (some o) h p }

pub add_object-Keeps :
    (g : ℕ) (o : Object) → ObjectIsBlock (some o) → Keeps BlocksAreValid (add_object g o)
unfolding add_object
add_object-Keeps g o h = record {
  keep = λ s p. elim (Option-cases (s.objects g)) [
    | inl e ↦ simp (e, add_object) (write-BlocksAreValid s g (some o) h p)
    | inr (x, e) ↦ simp (e, add_object) tt
  ];
}

pub remove_object-Keeps : (g : ℕ) → Keeps BlocksAreValid (remove_object g)
unfolding remove_object
remove_object-Keeps g = record {
  keep = λ s p. elim (Option-cases (s.objects g)) [
    | inl e ↦ simp (e, remove_object) tt
    | inr (x, e) ↦ simp (e, remove_object) (write-BlocksAreValid s g none tt p)
  ];
}

-- The object that `get` finds is valid.
pub at-valid :
    {B : Type 0} (g : ℕ) (f : Object → M B)
    → ((o : Object) → ObjectIsBlock (some o) → Keeps BlocksAreValid (f o))
    → Keeps BlocksAreValid (get g >>= f)
at-valid g f h = get-bind g f λ s o e p. (h o (subst ObjectIsBlock e (p g))).keep s p

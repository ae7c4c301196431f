-- ===== src/One/Schedule/Defs.antt =====
-- The queue of ready tasks (`task_list` of include/one/runtime.h) against the object list.
use ocr_vx.Prelude.{
  ℕ, ◌≡◌, refl, sym, ◌∙◌, Bool, false, Option, some, ◌==◌, if◌then◌else◌, count, arith, Bool-cases,
  inl, inr, ==_refl,
}
use ocr_vx.One.Types.{Runtime, Object, edt_object}
use ocr_vx.One.Monad.{M, ◌>>=◌, get, put, update}
use ocr_vx.One.Logic.{Post-map, Keeps}
use ocr_vx.One.Reads.{get-bind}
use ocr_vx.One.Node.{all_satisfied}

abbrev pub is_ready : Option Object → Bool
is_ready (some (edt_object e)) = all_satisfied e.preslots
is_ready _ = false

abbrev pub bit : Bool → ℕ
bit b = if b then 1 else 0

-- A GUID is in the queue once if it names an EDT whose slots are all satisfied, and else not at all.
abbrev pub IsScheduled : Runtime → Type 0
IsScheduled s = (g : ℕ) → count g s.ready_tasks ≡ bit (is_ready (s.objects g))

-- A write that leaves the readiness of its object alone.
pub write-IsScheduled :
    (s : Runtime) (g : ℕ) (o : Option Object)
    → is_ready (s.objects g) ≡ is_ready o
    → IsScheduled s
    → IsScheduled (record s { objects = update s.objects g o })
write-IsScheduled s g o e p h = elim (Bool-cases (g == h)) [
  | inl same ↦ rw same (ground (arith, p h))
  | inr other ↦ rw other (p h)
]

-- The queue is right, and `g` names an object of the given readiness.
abbrev pub Ready : ℕ → Bool → Runtime → Type 0
Ready g b s = IsScheduled s × (is_ready (s.objects g) ≡ b)

pub put-Keeps :
    (g : ℕ) (o : Object) (b : Bool) → is_ready (some o) ≡ b → Keeps (Ready g b) (put g o)
unfolding put
put-Keeps g o b h = record {
  keep = λ s p. (write-IsScheduled s g (some o) (p.1 ∙ sym h) p.0, rw (==_refl g) h);
}

-- A call on the object at `g` that leaves its readiness alone.
pub at-IsScheduled :
    {B : Type 0} (g : ℕ) (f : Object → M B)
    → ((o : Object) → Keeps (Ready g (is_ready (some o))) (f o))
    → Keeps IsScheduled (get g >>= f)
at-IsScheduled g f h =
    get-bind g f λ s o e p. Post-map (f o s) (λ t q. q.0) ((h o).keep s (p, rw e refl))

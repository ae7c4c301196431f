-- ===== src/One/Cascade/Logic.antt =====
-- Calls that return or stop for a reason of their own, and not because the fuel is spent. The value
-- that a call returns may have a property of its own.
use ocr_vx.Prelude.{ℕ, ◌≡◌, refl, Bool, true, false, if◌then◌else◌, Option-cases, inl, inr, some}
use ocr_vx.One.Types.{Runtime, Fault, Object, out_of_fuel}
use ocr_vx.One.Monad.{Result, ok, fault, M, bind_result, ◌>>=◌, ◌>>◌, pure, stop, guard, get}

abbrev pub is_out_of_fuel : Fault → Bool
is_out_of_fuel out_of_fuel = true
is_out_of_fuel _ = false

abbrev pub Halted : {A : Type 0} → (Runtime → Type 0) → (A → Type 0) → Result (A × Runtime) → Type 0
Halted P Q (ok (a, s)) = P s × Q a
Halted P Q (fault e) = is_out_of_fuel e ≡ false

abbrev pub Any : {A : Type 0} → A → Type 0
Any a = Unit

pub record Halts {A : Type 0} (P : Runtime → Type 0) (Q : A → Type 0) (m : M A) : Type 0 where
  pub halts : (s : Runtime) → P s → Halted P Q (m s)

module _ {P : Runtime → Type 0} where
  bind-Halted :
      {A B : Type 0} {Q : A → Type 0} {R : B → Type 0} (r : Result (A × Runtime)) (f : A → M B)
      → Halted P Q r
      → ((a : A) → Q a → Halts P R (f a))
      → Halted P R (bind_result r f)
  bind-Halted (ok (a, s)) f h k = (k a h.1).halts s h.0
  bind-Halted (fault e) f h k = h

  pub Halts-bind :
      {A B : Type 0} {Q : A → Type 0} {R : B → Type 0} {m : M A} {f : A → M B}
      → Halts P Q m
      → ((a : A) → Q a → Halts P R (f a))
      → Halts P R (m >>= f)
  Halts-bind {m = m} {f = f} h k = record { halts = λ s p. bind-Halted (m s) f (h.halts s p) k }

  pub Halts-then :
      {B : Type 0} {R : B → Type 0} {m : M (Unit {0})} {k : M B}
      → Halts P Any m
      → Halts P R k
      → Halts P R (m >> k)
  Halts-then h k = Halts-bind h (λ _ _. k)

  pub Halts-pure : {A : Type 0} {Q : A → Type 0} (a : A) → Q a → Halts P Q (pure a)
  Halts-pure a q = record { halts = λ s p. (p, q) }

  pub Halts-stop :
      {A : Type 0} {Q : A → Type 0} (e : Fault) → is_out_of_fuel e ≡ false → Halts P Q (stop e)
  Halts-stop e h = record { halts = λ s p. h }

  pub Halts-if :
      {A : Type 0} {Q : A → Type 0} (b : Bool) {m k : M A}
      → Halts P Q m
      → Halts P Q k
      → Halts P Q (if b then m else k)
  Halts-if true h k = h
  Halts-if false h k = k

  pub Halts-guard : (b : Bool) (e : Fault) → is_out_of_fuel e ≡ false → Halts P Any (guard b e)
  Halts-guard b e h = Halts-if b (Halts-pure tt tt) (Halts-stop e h)

  -- Looking an object up either finds it or stops.
  pub get-Halts :
      {B : Type 0} {R : B → Type 0} (g : ℕ) (f : Object → M B)
      → ((s : Runtime) (o : Object) → s.objects g ≡ some o → P s → Halted P R (f o s))
      → Halts P R (get g >>= f)
  unfolding get
  get-Halts g f h = record {
    halts = λ s p. elim (Option-cases (s.objects g)) [
      | inl e ↦ rw (e, get) refl
      | inr (o, e) ↦ rw (e, get) (h s o e p)
    ];
  }

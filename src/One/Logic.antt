-- ===== src/One/Logic.antt =====
-- What a call keeps: a predicate of the state that holds after every call that returns, if it held
-- before. The rules follow the shape of a `do` block, so that `search` applies them.
use ocr_vx.Prelude.{◌≡◌, refl, Bool, true, false, if◌then◌else◌}
use ocr_vx.One.Types.{Runtime, Fault}
use ocr_vx.One.Monad.{Result, ok, fault, M, bind_result, ◌>>=◌, ◌>>◌, pure, stop, guard}

abbrev pub Post : {A : Type 0} → (Runtime → Type 0) → Result (A × Runtime) → Type 0
Post P (ok (a, s)) = P s
Post P (fault e) = Unit

pub record Keeps {A : Type 0} (P : Runtime → Type 0) (m : M A) : Type 0 where
  pub keep : (s : Runtime) → P s → Post P (m s)

pub Post-map :
    {A : Type 0} {P Q : Runtime → Type 0} (r : Result (A × Runtime))
    → ((s : Runtime) → P s → Q s)
    → Post P r
    → Post Q r
Post-map (ok (a, s)) f h = f s h
Post-map (fault e) f h = tt

module _ {P : Runtime → Type 0} where
  bind-Post :
      {A B : Type 0} (r : Result (A × Runtime)) (f : A → M B)
      → Post P r
      → ((a : A) → Keeps P (f a))
      → Post P (bind_result r f)
  bind-Post (ok (a, s)) f h k = (k a).keep s h
  bind-Post (fault e) f h k = tt

  pub Keeps-bind :
      {A B : Type 0} {m : M A} {f : A → M B}
      → Keeps P m
      → ((a : A) → Keeps P (f a))
      → Keeps P (m >>= f)
  Keeps-bind {m = m} {f = f} h k = record { keep = λ s p. bind-Post (m s) f (h.keep s p) k }

  pub Keeps-then :
      {B : Type 0} {m : M (Unit {0})} {k : M B} → Keeps P m → Keeps P k → Keeps P (m >> k)
  Keeps-then h k = Keeps-bind h (λ _. k)

  pub Keeps-pure : {A : Type 0} (a : A) → Keeps P (pure a)
  Keeps-pure a = record { keep = λ s p. p }

  pub Keeps-stop : {A : Type 0} (e : Fault) → Keeps {A = A} P (stop e)
  Keeps-stop e = record { keep = λ s p. tt }

  pub Keeps-if :
      {A : Type 0} (b : Bool) {m k : M A} → Keeps P m → Keeps P k → Keeps P (if b then m else k)
  Keeps-if true h k = h
  Keeps-if false h k = k

  -- Only the branch that is taken counts.
  pub Keeps-else :
      {A : Type 0} {b : Bool} (m : M A) {k : M A}
      → b ≡ false
      → Keeps P k
      → Keeps P (if b then m else k)
  Keeps-else m e h = rw e h

  pub Keeps-guard : (b : Bool) (e : Fault) → Keeps P (guard b e)
  Keeps-guard b e = Keeps-if b (Keeps-pure tt) (Keeps-stop e)

pub ruleset keeping = (Keeps-bind, Keeps-then, Keeps-pure, Keeps-stop, Keeps-if, Keeps-guard)

-- The state's predicate is kept, and the value returned has a property of its own.
abbrev pub PostWith :
    {A : Type 0} → (Runtime → Type 0) → (A → Type 0) → Result (A × Runtime) → Type 0
PostWith P Q (ok (a, s)) = P s × Q a
PostWith P Q (fault e) = Unit

pub record Gives {A : Type 0} (P : Runtime → Type 0) (Q : A → Type 0) (m : M A) : Type 0 where
  pub give : (s : Runtime) → P s → PostWith P Q (m s)

module _ {P : Runtime → Type 0} where
  bind-PostWith :
      {A B : Type 0} {Q : A → Type 0} (r : Result (A × Runtime)) (f : A → M B)
      → PostWith P Q r
      → ((a : A) → Q a → Keeps P (f a))
      → Post P (bind_result r f)
  bind-PostWith (ok (a, s)) f h k = (k a h.1).keep s h.0
  bind-PostWith (fault e) f h k = tt

  pub Gives-bind :
      {A B : Type 0} {Q : A → Type 0} {m : M A} {f : A → M B}
      → Gives P Q m
      → ((a : A) → Q a → Keeps P (f a))
      → Keeps P (m >>= f)
  Gives-bind {m = m} {f = f} h k = record { keep = λ s p. bind-PostWith (m s) f (h.give s p) k }

  pub Gives-pure : {A : Type 0} {Q : A → Type 0} (a : A) → Q a → Gives P Q (pure a)
  Gives-pure a q = record { give = λ s p. (p, q) }

  pub Gives-guard :
      {A : Type 0} {Q : A → Type 0} (b : Bool) (e : Fault) {m : M A}
      → (b ≡ true → Gives P Q m)
      → Gives P Q (guard b e >> m)
  Gives-guard true e h = record { give = λ s p. (h refl).give s p }
  Gives-guard false e h = record { give = λ s p. tt }

  pub Gives-if :
      {A : Type 0} {Q : A → Type 0} (b : Bool) {m k : M A}
      → Gives P Q m
      → Gives P Q k
      → Gives P Q (if b then m else k)
  Gives-if true h k = h
  Gives-if false h k = k

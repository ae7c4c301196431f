-- ===== src/Distributed/Tables.antt =====
-- The tables of the distributed runtime (include/distributed/object_repository.h).
use ocr_vx.Prelude.{ℕ, Bool, true, false, Option, none, some, List, [], ◌∷◌, ◌==◌, if◌then◌else◌}

-- `concurrent_hash_map`: a key stands in it once at most.
module _ {A : Type 0} where
  unfoldable pub find : ℕ → List (ℕ × A) → Option A
  find g [] = none
  find g ((k, a) ∷ xs) = if k == g then some a else find g xs

  -- The inserted pair, if the key was not there.
  unfoldable pub insert : ℕ → A → List (ℕ × A) → Bool × List (ℕ × A)
  insert g a [] = (true, (g, a) ∷ [])
  insert g a ((k, b) ∷ xs) =
      let rest = insert g a xs in if k == g then (false, (k, b) ∷ xs) else (rest.0, (k, b) ∷ rest.1)

  unfoldable pub erase_key : ℕ → List (ℕ × A) → List (ℕ × A)
  erase_key g [] = []
  erase_key g ((k, a) ∷ xs) = let rest = erase_key g xs in if k == g then xs else (k, a) ∷ rest

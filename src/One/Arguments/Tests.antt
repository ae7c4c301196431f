-- ===== src/One/Arguments/Tests.antt =====
-- A program's name, an empty argument and another one.
use ocr_vx.Prelude.{ℕ, refl, arith, List, [], ◌∷◌, ◌≡◌, some}
use ocr_vx.One.Arguments.{pack_arguments, get_argc, argument, arg_size}
use ocr_vx.One.Arguments.Packed.{pack_arguments-argument}

abbrev argv : List (List ℕ)
argv = (97 ∷ 46 ∷ 111 ∷ []) ∷ [] ∷ (45 ∷ 118 ∷ []) ∷ []

pack_arguments-argument_example :
    (buf : List ℕ) × (pack_arguments argv ≡ some buf)
    × (get_argc buf ≡ some 3)
    × (argument buf 2 ≡ some (45 ∷ 118 ∷ []))
unfolding arg_size
pack_arguments-argument_example =
    pack_arguments-argument argv 2 (45 ∷ 118 ∷ []) refl (omega arith, (omega arith, tt))
      (omega arith)

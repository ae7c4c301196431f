-- ===== src/One/Arguments/Layout.antt =====
-- The block that the loops fill: the number of arguments, their offsets, and their strings
-- (`pack_arguments` in include/one/runtime.h).
use ocr_vx.Prelude.{
  ℕ, ◌+◌, ◌*◌, ◌≡◌, ◌∙◌, sym, ap, refl, arith, Option, some, List, [], ◌∷◌, ◌++◌, length, replicate,
  length-append, append_assoc, append_nil,
}
use ocr_vx.One.Arguments.{
  u64_bytes, poke, size_of, arg_size, fill_offsets, fill_strings, pack_arguments,
}
use ocr_vx.One.Arguments.Bytes.{length-u64, zero_more, poke-fill}

-- The two parts behind the number of arguments.
abbrev pub table : List (List ℕ) → ℕ → List ℕ
table [] string_offset = []
table (arg ∷ argv) string_offset =
    u64_bytes string_offset ++ table argv (string_offset + size_of arg)

abbrev pub strings : List (List ℕ) → List ℕ
strings [] = []
strings (arg ∷ argv) = (arg ++ (0 ∷ [])) ++ strings argv

-- A write at the end of what is there.
pub poke-at :
    (done bs : List ℕ) (offset k n : ℕ)
    → offset ≡ length done
    → k ≡ length bs + n
    → poke (done ++ replicate k 0) offset bs ≡ some ((done ++ bs) ++ replicate n 0)
poke-at done bs offset k n e f = rw (e, f) (poke-fill done bs n)

pub length-string : (arg : List ℕ) → length (arg ++ (0 ∷ [])) ≡ size_of arg
length-string arg = length-append arg (0 ∷ [])

pub length-table : (argv : List (List ℕ)) (so : ℕ) → length (table argv so) ≡ length argv * 8
length-table [] so = refl
length-table (arg ∷ argv) so = omega (
  arith,
  length-append (u64_bytes so) (table argv (so + size_of arg)),
  length-u64 so,
  length-table argv (so + size_of arg),
)

pub no_more : (n : ℕ) → n ≡ n + 0
no_more n = omega arith

pub some_pair :
    {m n : ℕ} {xs ys : List ℕ}
    → m ≡ n
    → xs ≡ ys
    → ◌≡◌ {A = Option (ℕ × List ℕ)} (some (m, xs)) (some (n, ys))
some_pair e f = cc

pub fill_offsets-table :
    (argv : List (List ℕ)) (offset string_offset k n : ℕ) (done : List ℕ)
    → offset ≡ length done
    → k ≡ length argv * 8 + n
    → fill_offsets argv offset string_offset (done ++ replicate k 0)
      ≡ some (offset + length argv * 8, (done ++ table argv string_offset) ++ replicate n 0)
unfolding fill_offsets
fill_offsets-table [] offset so k n done e f = some_pair (omega arith) (
    ap (λ k. done ++ replicate k 0) (f ∙ zero_more n)
    ∙ ap (λ d. d ++ replicate n 0) (append_nil done))
fill_offsets-table (arg ∷ argv) offset so k n done e f =
    rw
      (poke-at done (u64_bytes so) offset k (length argv * 8 + n) e
        (omega (arith, f, length-u64 so)))
      (fill_offsets-table argv (offset + 8) (so + size_of arg) (length argv * 8 + n) n
          (done ++ u64_bytes so)
          (omega (arith, e, length-append done (u64_bytes so), length-u64 so)) refl
        ∙ some_pair (omega arith) (
            ap (λ d. d ++ replicate n 0)
              (append_assoc done (u64_bytes so) (table argv (so + size_of arg)))))

pub fill_strings-strings :
    (argv : List (List ℕ)) (offset k : ℕ) (done : List ℕ)
    → offset ≡ length done
    → k ≡ length (strings argv)
    → fill_strings argv offset (done ++ replicate k 0) ≡ some (done ++ strings argv)
unfolding fill_strings
fill_strings-strings [] offset k done e f = ap (λ k. some (done ++ replicate k 0)) f
fill_strings-strings (arg ∷ argv) offset k done e f =
    rw
      (poke-at done (arg ++ (0 ∷ [])) offset k (length (strings argv)) e
        (f ∙ length-append (arg ++ (0 ∷ [])) (strings argv)))
      (fill_strings-strings argv (offset + size_of arg) (length (strings argv))
          (done ++ (arg ++ (0 ∷ [])))
          (omega (arith, e, length-append done (arg ++ (0 ∷ [])), length-string arg)) refl
        ∙ ap some (append_assoc done (arg ++ (0 ∷ [])) (strings argv)))

pub length-strings :
    (argv : List (List ℕ)) → arg_size argv ≡ length argv * 8 + length (strings argv)
unfolding arg_size
length-strings [] = omega arith
length-strings (arg ∷ argv) =
    omega (
      arith,
      length-strings argv,
      length-append (arg ++ (0 ∷ [])) (strings argv),
      length-string arg,
    )

abbrev pub string_start : List (List ℕ) → ℕ
string_start argv = 8 + length argv * 8

pub pack_arguments-eq :
    (argv : List (List ℕ))
    → pack_arguments argv
      ≡ some ((u64_bytes (length argv) ++ table argv (string_start argv)) ++ strings argv)
unfolding pack_arguments
pack_arguments-eq argv =
    rw
      (
        poke-at [] (u64_bytes (length argv)) 0 (8 + arg_size argv) (arg_size argv) refl
            (omega (arith, length-u64 (length argv))),
        fill_offsets-table argv 8 (string_start argv) (arg_size argv) (length (strings argv))
            (u64_bytes (length argv)) (sym (length-u64 (length argv))) (length-strings argv),
      )
      (fill_strings-strings argv (8 + length argv * 8) (length (strings argv))
        (u64_bytes (length argv) ++ table argv (string_start argv))
        (omega (
          arith,
          length-append (u64_bytes (length argv)) (table argv (string_start argv)),
          length-u64 (length argv),
          length-table argv (string_start argv),
        ))
        refl)

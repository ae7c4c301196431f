-- ===== src/One/Arguments/Packed.antt =====
-- The arguments are read as they were packed (include/one/runtime.h).
use ocr_vx.Prelude.{
  ℕ, zero, suc, ◌+◌, ◌*◌, ◌^◌, ◌<◌, ◌≡◌, ◌∙◌, sym, ap, refl, arith, some, List, [], ◌∷◌, ◌++◌,
  get_elem?-bound, length, take, get_elem?, length-append, append_assoc,
}
use ocr_vx.Prelude.Options.{some-inj}
use ocr_vx.One.Arguments.{
  u64_bytes, behind, read_u64, size_of, arg_size, pack_arguments, get_argc, get_argv, c_string,
  argument,
}
use ocr_vx.One.Arguments.Layout.{
  table, strings, length-string, length-table, no_more, length-strings, string_start,
  pack_arguments-eq,
}
use ocr_vx.One.Arguments.Bytes.{length-u64, behind-at, read_u64-append}

-- The entry of the `k`-th argument, and its string.
table-split :
    (argv : List (List ℕ)) (so k : ℕ) (arg : List ℕ)
    → get_elem? argv k ≡ some arg
    → (pre : List ℕ) × (post : List ℕ) × (table argv so
        ≡ pre ++ (u64_bytes (so + length (strings (take k argv))) ++ post))
      × (length pre ≡ k * 8)
table-split [] so k arg h = cc
table-split (x ∷ argv) so zero arg h = (
  [],
  table argv (so + size_of x),
  ap (λ o. u64_bytes o ++ table argv (so + size_of x)) (no_more so),
  omega arith,
)
table-split (x ∷ argv) so (suc k) arg h =
    let (pre, post, split, size) = table-split argv (so + size_of x) k arg h in
    (
      u64_bytes so ++ pre,
      post,
      ap (λ l. u64_bytes so ++ l)
            (split
              ∙ ap (λ o. pre ++ (u64_bytes o ++ post))
                  (omega (
                    arith,
                    length-append (x ++ (0 ∷ [])) (strings (take k argv)),
                    length-string x,
                  )))
          ∙ sym (append_assoc (u64_bytes so) pre _),
      omega (arith, length-append (u64_bytes so) pre, length-u64 so, size),
    )

strings-split :
    (argv : List (List ℕ)) (k : ℕ) (arg : List ℕ)
    → get_elem? argv k ≡ some arg
    → (post : List ℕ) × (strings argv ≡ strings (take k argv) ++ ((arg ++ (0 ∷ [])) ++ post))
strings-split [] k arg h = cc
strings-split (x ∷ argv) zero arg h =
    (strings argv, ap (λ a. (a ++ (0 ∷ [])) ++ strings argv) (some-inj h))
strings-split (x ∷ argv) (suc k) arg h =
    let (post, split) = strings-split argv k arg h in
    (
      post,
      ap (λ l. (x ++ (0 ∷ [])) ++ l) split
          ∙ sym (append_assoc (x ++ (0 ∷ [])) (strings (take k argv)) _),
    )

abbrev pub NoZero : List ℕ → Type 0
NoZero [] = Unit {0}
NoZero (b ∷ bs) = (0 < b) × NoZero bs

c_string-append : (arg post : List ℕ) → NoZero arg → c_string ((arg ++ (0 ∷ [])) ++ post) ≡ some arg
unfolding c_string
c_string-append [] post h = refl
c_string-append (zero ∷ arg) post h = absurd (omega (arith, h.0))
c_string-append (suc b ∷ arg) post h = rw (c_string-append arg post h.1) refl

regroup : (a t s p q r : List ℕ) → t ≡ p ++ (q ++ r) → (a ++ t) ++ s ≡ (a ++ p) ++ (q ++ (r ++ s))
regroup a t s p q r h =
    ap (λ l. (a ++ l) ++ s) h
    ∙ ap (λ l. l ++ s) (sym (append_assoc a p (q ++ r)))
    ∙ append_assoc (a ++ p) (q ++ r) s
    ∙ ap (λ l. (a ++ p) ++ l) (append_assoc q r s)

module _ (argv : List (List ℕ)) (k : ℕ) (arg : List ℕ) (there : get_elem? argv k ≡ some arg)
    (plain : NoZero arg) (small : 8 + arg_size argv < 2 ^ 64) where
  abbrev packed : List ℕ
  packed = (u64_bytes (length argv) ++ table argv (string_start argv)) ++ strings argv

  abbrev string_at : ℕ
  string_at = string_start argv + length (strings (take k argv))

  get_argc-packed : get_argc packed ≡ some (length argv)
  unfolding get_argc
  get_argc-packed =
      ap (λ l. read_u64 l 0)
        (append_assoc (u64_bytes (length argv)) (table argv (string_start argv)) (strings argv))
      ∙ read_u64-append [] _ (length argv) (omega (arith, small, length-strings argv))

  read_entry : read_u64 packed ((k + 1) * 8) ≡ some string_at
  read_entry =
      let (pre, post, split, size) = table-split argv (string_start argv) k arg there in
      let (after, found) = strings-split argv k arg there in
      let same : packed
          ≡ (u64_bytes (length argv) ++ pre) ++ (u64_bytes string_at ++ (post ++ strings argv)) =
        regroup _ _ (strings argv) pre (u64_bytes string_at) post split in
      ap (λ l. read_u64 l ((k + 1) * 8)) same
      ∙ ap (read_u64 _) (
          omega
            (arith, length-append (u64_bytes (length argv)) pre, length-u64 (length argv), size))
      ∙ read_u64-append (u64_bytes (length argv) ++ pre) (post ++ strings argv) string_at (
          omega (
            arith,
            small,
            length-strings argv,
            ap length found,
            length-append (strings (take k argv)) ((arg ++ (0 ∷ [])) ++ after),
          ))

  behind-string : (post : List ℕ) × (behind string_at packed ≡ some ((arg ++ (0 ∷ [])) ++ post))
  behind-string =
      let (post, split) = strings-split argv k arg there in
      (
        post,
        ap (behind string_at) (
              ap (λ l. (u64_bytes (length argv) ++ table argv (string_start argv)) ++ l) split
              ∙ sym (
                  append_assoc (u64_bytes (length argv) ++ table argv (string_start argv))
                    (strings (take k argv)) _))
            ∙ behind-at
                ((u64_bytes (length argv) ++ table argv (string_start argv))
                  ++ strings (take k argv))
                ((arg ++ (0 ∷ [])) ++ post) string_at
                (omega (
                  arith,
                  length-append (u64_bytes (length argv) ++ table argv (string_start argv))
                      (strings (take k argv)),
                  length-append (u64_bytes (length argv)) (table argv (string_start argv)),
                  length-u64 (length argv),
                  length-table argv (string_start argv),
                )),
      )

  -- The arguments of the program are packed without an access outside the block, their number is read
  -- again, and each argument, which has no zero in it, is read again as a string. (The block has fewer
  -- than 2 ^ 64 bytes.)
  pub pack_arguments-argument :
      (buf : List ℕ) × (pack_arguments argv ≡ some buf)
      × (get_argc buf ≡ some (length argv))
      × (argument buf k ≡ some arg)
  unfolding argument get_argv
  pack_arguments-argument =
      let (post, at_string) = behind-string in
      (
        packed,
        pack_arguments-eq argv,
        get_argc-packed,
        rw (get_argc-packed, get_elem?-bound argv k arg there, read_entry, at_string)
            (c_string-append arg post plain),
      )

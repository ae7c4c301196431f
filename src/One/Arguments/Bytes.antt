-- ===== src/One/Arguments/Bytes.antt =====
-- Writes and reads at an offset of a block of bytes (include/one/runtime.h).
use ocr_vx.Prelude.{
  ℕ, suc, ◌+◌, ◌^◌, ◌<◌, ◌≡◌, ap, subst, refl, arith, some, List, [], ◌∷◌, ◌++◌, length, replicate,
}
use ocr_vx.One.Arguments.{value, u64_bytes, overwrite, poke, first_bytes, behind, read_u64}

pub value-u64 : (n : ℕ) → n < 2 ^ 64 → value (u64_bytes n) ≡ n
unfolding u64_bytes
value-u64 n h = omega arith

pub length-u64 : (n : ℕ) → length (u64_bytes n) ≡ 8
unfolding u64_bytes
length-u64 n = refl

pub zero_more : (n : ℕ) → 0 + n ≡ n
zero_more n = omega arith

pub one_more : (m n : ℕ) → suc (m + n) ≡ suc m + n
one_more m n = omega arith

pub overwrite-fill :
    (bs : List ℕ) (n : ℕ) → overwrite (replicate (length bs + n) 0) bs ≡ some (bs ++ replicate n 0)
unfolding overwrite
overwrite-fill [] n = ap (λ k. some (replicate k 0)) (zero_more n)
overwrite-fill (b ∷ bs) n =
    subst (λ k. overwrite (replicate k 0) (b ∷ bs) ≡ some (b ∷ (bs ++ replicate n 0)))
      (one_more (length bs) n) (rw (overwrite-fill bs n) refl)

pub poke-fill :
    (done bs : List ℕ) (n : ℕ)
    → poke (done ++ replicate (length bs + n) 0) (length done) bs
      ≡ some ((done ++ bs) ++ replicate n 0)
unfolding poke
poke-fill [] bs n = overwrite-fill bs n
poke-fill (x ∷ done) bs n = rw (poke-fill done bs n) refl

pub behind-append : (pre post : List ℕ) → behind (length pre) (pre ++ post) ≡ some post
unfolding behind
behind-append [] post = refl
behind-append (x ∷ pre) post = behind-append pre post

pub behind-at : (pre post : List ℕ) (n : ℕ) → n ≡ length pre → behind n (pre ++ post) ≡ some post
behind-at pre post n e = rw e (behind-append pre post)

pub first_bytes-append : (bs post : List ℕ) → first_bytes (length bs) (bs ++ post) ≡ some bs
unfolding first_bytes
first_bytes-append [] post = refl
first_bytes-append (x ∷ bs) post = rw (first_bytes-append bs post) refl

pub read_u64-append :
    (pre post : List ℕ) (n : ℕ)
    → n < 2 ^ 64
    → read_u64 (pre ++ (u64_bytes n ++ post)) (length pre) ≡ some n
unfolding read_u64
read_u64-append pre post n h =
    rw
      (
        behind-append pre (u64_bytes n ++ post),
        subst (λ k. first_bytes k (u64_bytes n ++ post) ≡ some (u64_bytes n)) (length-u64 n)
            (first_bytes-append (u64_bytes n) post),
      )
      (ap some (value-u64 n h))

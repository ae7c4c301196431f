-- ===== src/Shmem/Defragment.antt =====
-- Defragmentation and `free` of the allocator (include/shmem/db_allocator.h) on the list of blocks.
use ocr_vx.Prelude.{
  ℕ, zero, suc, ◌+◌, ◌^◌, ◌≤◌, ◌<◌, ◌≡◌, refl, ◌∙◌, subst, Bool, true, false, List, [], ◌∷◌, Option,
  none, some, ==_refl, ltb, lt→ltb, arith,
}
use ocr_vx.Shmem.Allocator.{
  Allocator, Outcome, returns, write_header, merge_block, next_empty, defragment_from, defragment,
}
use ocr_vx.Shmem.FirstFit.{
  Block, Tiles, SameBelow, Tiles-bound, Tiles-write, add64_small, leb-true, not_equal_above,
}

-- Neighbouring free blocks become one; `some m` is a free block of size `m` that is still open.
abbrev pub merge_from : Option ℕ → List Block → List Block
merge_from none [] = []
merge_from (some m) [] = (false, m) ∷ []
merge_from none ((true, n) ∷ bs) = (true, n) ∷ merge_from none bs
merge_from (some m) ((true, n) ∷ bs) = (false, m) ∷ (true, n) ∷ merge_from none bs
merge_from none ((false, n) ∷ bs) = merge_from (some n) bs
merge_from (some m) ((false, n) ∷ bs) = merge_from (some (m + (n + 9))) bs

abbrev pub merge : List Block → List Block
merge bs = merge_from none bs

-- The call returns, and the headers from `off` on describe the blocks.
abbrev pub Leaves : List Block → Allocator → ℕ → Outcome (Unit {0}) → Type 0
Leaves bs a off r =
    (a' : Allocator) × (r ≡ returns tt a')
    × (a'.size ≡ a.size)
    × Tiles a' off bs
    × SameBelow off a a'

-- Where the loop is, and its `last_empty`, when a free block of size `m` at `off` is open.
abbrev past : ℕ → Option ℕ → ℕ
past off none = off
past off (some m) = off + (9 + m)

abbrev mark : ℕ → Option ℕ → Option ℕ
mark off none = none
mark off (some m) = some off

abbrev Opened : Allocator → ℕ → Option ℕ → Type 0
Opened a off none = Unit
Opened a off (some m) = (a.used off ≡ false) × (a.block_size off ≡ m)

ltb_irrefl : (n : ℕ) → ltb n n ≡ false
ltb_irrefl n = ground arith

SameBelow-write :
    (a : Allocator) (e off n : ℕ) (used : Bool)
    → off ≤ e
    → SameBelow off a (write_header a e used n)
unfolding write_header
SameBelow-write a e off n used h k low = (
  rw (not_equal_above e k (omega (arith, low, h))),
  rw (not_equal_above e k (omega (arith, low, h))),
)

module _ (size : ℕ) (in_word : size < 2 ^ 64) where
  closed-Leaves :
      (a : Allocator) (off n : ℕ) (used : Bool) (bs : List Block) (r : Outcome (Unit {0}))
      → a.used off ≡ used
      → a.block_size off ≡ n
      → Leaves bs a (off + (9 + n)) r
      → Leaves ((used, n) ∷ bs) a off r
  closed-Leaves a off n used bs r u b (a', e, same, tiles, below) = (
    a',
    e,
    same,
    ((below off (omega arith)).0 ∙ u, (below off (omega arith)).1 ∙ b, tiles),
    λ k low. below k (omega (arith, low)),
  )

  ends :
      (fuel : ℕ) (a : Allocator) (last : Option ℕ) (off : ℕ)
      → off ≡ a.size
      → defragment_from fuel a last off ≡ returns tt a
  unfolding defragment_from
  ends zero a last off h = rw (h, ltb_irrefl a.size)
  ends (suc fuel) a last off h = rw (h, ltb_irrefl a.size)

  -- One round of the loop at a header.
  round :
      (fuel : ℕ) (a : Allocator) (last : Option ℕ) (off n : ℕ)
      → a.size ≡ size
      → a.block_size off ≡ n
      → off + (9 + n) ≤ a.size
      → defragment_from (suc fuel) a last off
        ≡ defragment_from fuel (merge_block a last off) (next_empty a last off) (off + (9 + n))
  unfolding defragment_from
  round fuel a last off n s b bound = rw (
    lt→ltb off a.size (omega (arith, bound)),
    leb-true (off + 9) a.size (omega (arith, bound)),
    b,
    add64_small n 9 (omega (arith, bound, s, in_word)),
    add64_small off (n + 9) (omega (arith, bound, s, in_word)),
    n_first n,
  )
    where
      n_first : (n : ℕ) → n + 9 ≡ 9 + n
      n_first n = omega arith

  used_round :
      (fuel : ℕ) (a : Allocator) (last : Option ℕ) (off n : ℕ)
      → a.size ≡ size
      → a.used off ≡ true
      → a.block_size off ≡ n
      → off + (9 + n) ≤ a.size
      → defragment_from (suc fuel) a last off ≡ defragment_from fuel a none (off + (9 + n))
  unfolding merge_block next_empty
  used_round fuel a none off n s u b bound = round fuel a none off n s b bound ∙ rw u
  used_round fuel a (some e) off n s u b bound = round fuel a (some e) off n s b bound ∙ rw u

  open_round :
      (fuel : ℕ) (a : Allocator) (off n : ℕ)
      → a.size ≡ size
      → a.used off ≡ false
      → a.block_size off ≡ n
      → off + (9 + n) ≤ a.size
      → defragment_from (suc fuel) a none off ≡ defragment_from fuel a (some off) (off + (9 + n))
  unfolding merge_block next_empty
  open_round fuel a off n s u b bound = round fuel a none off n s b bound ∙ rw u

  -- A free block at `off` joins the open one at `e`.
  merge_round :
      (fuel : ℕ) (a : Allocator) (e m off n : ℕ)
      → a.size ≡ size
      → (a.used e ≡ false) × (a.block_size e ≡ m)
      → e + (9 + m) ≡ off
      → a.used off ≡ false
      → a.block_size off ≡ n
      → off + (9 + n) ≤ a.size
      → defragment_from (suc fuel) a (some e) off
        ≡ defragment_from fuel (write_header a e false (m + (n + 9))) (some e) (off + (9 + n))
  unfolding merge_block next_empty
  merge_round fuel a e m off n s o place u b bound =
      round fuel a (some e) off n s b bound
      ∙ rw (
        u,
        o.0,
        o.1,
        b,
        add64_small n 9 (omega (arith, bound, s, in_word)),
        add64_small m (n + 9) (omega (arith, bound, place, s, in_word)),
      )

  same_end : (off m n : ℕ) → off + (9 + m) + (9 + n) ≡ off + (9 + (m + (n + 9)))
  same_end off m n = omega arith

  written : (a : Allocator) (off n : ℕ) → Opened (write_header a off false n) off (some n)
  unfolding write_header
  written a off n = (rw (==_refl off), rw (==_refl off))

  -- Below the open block its new header is not seen.
  reopened-Leaves :
      (a : Allocator) (off n : ℕ) (bs : List Block) (r : Outcome (Unit {0}))
      → Leaves bs (write_header a off false n) off r
      → Leaves bs a off r
  unfolding write_header
  reopened-Leaves a off n bs r (a', e, same, tiles, below) = (
    a',
    e,
    same,
    tiles,
    λ k low. (
      (below k low).0 ∙ (SameBelow-write a off off n false (omega arith) k low).0,
      (below k low).1 ∙ (SameBelow-write a off off n false (omega arith) k low).1,
    ),
  )

  walk-Leaves :
      (fuel : ℕ) (a : Allocator) (off : ℕ) (open_block : Option ℕ) (bs : List Block)
      → a.size ≡ size
      → Opened a off open_block
      → Tiles a (past off open_block) bs
      → size ≤ past off open_block + fuel
      → Leaves
          (merge_from open_block bs)
          a
          off
          (defragment_from fuel a (mark off open_block) (past off open_block))
  unfolding write_header
  walk-Leaves fuel a off none [] s o h enough =
      (a, ends fuel a none off h, refl, h, λ k low. (refl, refl))
  walk-Leaves fuel a off (some m) [] s o h enough =
      (a, ends fuel a (some off) (off + (9 + m)) h, refl, (o.0, o.1, h), λ k low. (refl, refl))
  walk-Leaves zero a off open_block (b ∷ bs) s o h enough =
      absurd (omega (arith, s, enough, Tiles-bound a (past off open_block + (9 + b.1)) bs (h.2)))
  walk-Leaves (suc fuel) a off none ((true, n) ∷ bs) s o h enough =
      rw (used_round fuel a none off n s (h.0) (h.1) (Tiles-bound a (off + (9 + n)) bs (h.2))) (
        closed-Leaves a off n true _ _ (h.0) (h.1)
          (walk-Leaves fuel a (off + (9 + n)) none bs s tt (h.2) (omega (arith, enough))))
  walk-Leaves (suc fuel) a off none ((false, n) ∷ bs) s o h enough =
      rw (open_round fuel a off n s (h.0) (h.1) (Tiles-bound a (off + (9 + n)) bs (h.2)))
        (walk-Leaves fuel a off (some n) bs s (h.0, h.1) (h.2) (omega (arith, enough)))
  walk-Leaves (suc fuel) a off (some m) ((true, n) ∷ bs) s o h enough =
      let q = off + (9 + m) in
      rw (used_round fuel a (some off) q n s (h.0) (h.1) (Tiles-bound a (q + (9 + n)) bs (h.2))) (
        closed-Leaves a off m false ((true, n) ∷ merge_from none bs) _ (o.0) (o.1) (
          closed-Leaves a q n true _ _ (h.0) (h.1)
            (walk-Leaves fuel a (q + (9 + n)) none bs s tt (h.2) (omega (arith, enough)))))
  walk-Leaves (suc fuel) a off (some m) ((false, n) ∷ bs) s o h enough =
      let q = off + (9 + m) in
      rw (merge_round fuel a off m q n s o refl (h.0) (h.1) (Tiles-bound a (q + (9 + n)) bs (h.2)))
        (reopened-Leaves a off (m + (n + 9)) _ _ (
          rw (same_end off m n) (
            walk-Leaves fuel (write_header a off false (m + (n + 9))) off (some (m + (n + 9))) bs s
              (written a off (m + (n + 9)))
              (subst (λ k. Tiles (write_header a off false (m + (n + 9))) k bs) (same_end off m n)
                (Tiles-write a off false (m + (n + 9)) (q + (9 + n)) bs (omega arith) (h.2)))
              (omega (arith, enough)))))

-- Where the headers describe a list of blocks, defragmentation returns, and then they describe the
-- list in which each run of neighbouring free blocks is one free block; the buffer is below 2 ^ 64.
pub defragment-Leaves :
    (a : Allocator) (bs : List Block)
    → a.size < 2 ^ 64
    → Tiles a 0 bs
    → Leaves (merge bs) a 0 (defragment a)
unfolding defragment
defragment-Leaves a bs w h = walk-Leaves a.size w a.size a 0 none bs refl tt h (omega arith)

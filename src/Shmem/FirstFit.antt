-- ===== src/Shmem/FirstFit.antt =====
-- The allocator of include/shmem/db_allocator.h against a list of blocks: `malloc` takes the first free
-- block that has room, and the headers always lead from one block to the next.
use ocr_vx.Prelude.{
  ℕ, zero, suc, ◌+◌, ◌-◌, ◌^◌, ◌≤◌, ◌<◌, ◌≡◌, refl, ◌∙◌, Bool, true, false, not, ◌&&◌, List, [],
  ◌∷◌, Option, none, some, ◌==◌, ==_refl, leb, lt→ltb, if◌then◌else◌, arith, Bool-cases, inl, inr,
}
use ocr_vx.Shmem.Allocator.{
  Allocator, Outcome, returns, add64, sub64, write_header, cut_rest, take_block, try_malloc_from,
  try_malloc,
}

-- Whether a block is used, and its size without the header.
abbrev pub Block : Type 0
Block = Bool × ℕ

-- The headers from `off` on describe the blocks, and the last one ends where the buffer does.
abbrev pub Tiles : Allocator → ℕ → List Block → Type 0
Tiles a off [] = off ≡ a.size
Tiles a off (b ∷ bs) = (a.used off ≡ b.0) × (a.block_size off ≡ b.1) × Tiles a (off + (9 + b.1)) bs

-- No free block is larger than the request by exactly one header.
abbrev pub NoExactFit : ℕ → List Block → Type 0
NoExactFit size [] = Unit
NoExactFit size ((used, n) ∷ bs) = ((not used && n == size + 9) ≡ false) × NoExactFit size bs

abbrev pub cons_found : Block → Option (ℕ × List Block) → Option (ℕ × List Block)
cons_found b none = none
cons_found b (some (ptr, bs)) = some (ptr, b ∷ bs)

-- First fit on the list: the pointer, and the blocks with the one that was cut.
abbrev pub first_fit : ℕ → ℕ → List Block → Option (ℕ × List Block)
first_fit off size [] = none
first_fit off size ((used, n) ∷ bs) =
    if not used && leb (size + 9) n
    then some (9 + off, (true, size) ∷ (false, n - (9 + size)) ∷ bs)
    else cons_found (used, n) (first_fit (off + (9 + n)) size bs)

-- The two allocators have the same headers below `off`.
abbrev pub SameBelow : ℕ → Allocator → Allocator → Type 0
SameBelow off a a' = (k : ℕ) → k < off → (a'.used k ≡ a.used k) × (a'.block_size k ≡ a.block_size k)

abbrev pub Finds : Option (ℕ × List Block) → Allocator → ℕ → Outcome (Option ℕ) → Type 0
Finds none a off r = r ≡ returns none a
Finds (some (ptr, bs)) a off r =
    (a' : Allocator) × (r ≡ returns (some ptr) a')
    × (a'.size ≡ a.size)
    × Tiles a' off bs
    × SameBelow off a a'

pub Tiles-bound : (a : Allocator) (off : ℕ) (bs : List Block) → Tiles a off bs → off ≤ a.size
Tiles-bound a off [] h = omega (arith, h)
Tiles-bound a off (b ∷ bs) h = omega (arith, Tiles-bound a (off + (9 + b.1)) bs h.2)

-- A header before the blocks may be written.
pub Tiles-write :
    (a : Allocator) (k : ℕ) (used : Bool) (n off : ℕ) (bs : List Block)
    → k < off
    → Tiles a off bs
    → Tiles (write_header a k used n) off bs
unfolding write_header
Tiles-write a k used n off [] lt h = h
Tiles-write a k used n off (b ∷ bs) lt h = (
  rw (other k off lt) (h.0),
  rw (other k off lt) (h.1),
  Tiles-write a k used n (off + (9 + b.1)) bs (omega (arith, lt)) (h.2),
)
  where
    other : (i j : ℕ) → i < j → (i == j) ≡ false
    other i j lt = ground (arith, lt)

pub add64_small : (a b : ℕ) → a + b < 2 ^ 64 → add64 a b ≡ a + b
add64_small a b h = omega (arith, h)

pub sub64_small : (a b : ℕ) → b ≤ a → a < 2 ^ 64 → sub64 a b ≡ a - b
sub64_small a b h g = omega (arith, h, g)

pub leb-true : (a b : ℕ) → a ≤ b → leb a b ≡ true
leb-true a b h = ground (arith, h)

leb_le : (a b : ℕ) → leb a b ≡ true → a ≤ b
leb_le a b h = ground (arith, h)

pub not_equal : (a b : ℕ) → a < b → (a == b) ≡ false
not_equal a b h = ground (arith, h)

pub not_equal_above : (a b : ℕ) → b < a → (a == b) ≡ false
not_equal_above a b h = ground (arith, h)

larger : (n m : ℕ) → leb m n ≡ true → (n == m) ≡ false → m < n
larger n m h g = ground (arith, h, g)

room_for_header :
    (used : Bool) (n m : ℕ) → (not used && leb m n) ≡ true → (not used && n == m) ≡ false → m < n
room_for_header true n m h x = cc
room_for_header false n m h x = larger n m h x

module _ (a : Allocator) (size : ℕ) (in_word : a.size < 2 ^ 64) (fits : size + 9 < 2 ^ 64) where
  -- The block at `off` is cut in two.
  take_block-Finds :
      (off n : ℕ) (bs : List Block)
      → a.block_size off ≡ n
      → size + 9 < n
      → Tiles a (off + (9 + n)) bs
      → Finds
          (some (9 + off, (true, size) ∷ (false, n - (9 + size)) ∷ bs))
          a
          off
          (take_block a size off)
  unfolding take_block cut_rest write_header
  take_block-Finds off n bs b lt h = (
    write_header (write_header a off true size) (off + (9 + size)) false (n - (9 + size)),
    rw (
      b,
      add64_small 9 off (omega (arith, bound, in_word)),
      add64_small 9 size (omega (arith, fits)),
      add64_small off (9 + size) (omega (arith, bound, lt, in_word)),
      sub64_small n (9 + size) (omega (arith, lt)) (omega (arith, bound, in_word)),
      lt→ltb 0 (n - (9 + size)) (omega (arith, lt)),
      leb-true (off + (9 + size) + 9) a.size (omega (arith, bound, lt)),
    ),
    refl,
    (
      rw (not_equal_above (off + (9 + size)) off (omega arith), ==_refl off),
      rw (not_equal_above (off + (9 + size)) off (omega arith), ==_refl off),
      (
        rw (==_refl (off + (9 + size))),
        rw (==_refl (off + (9 + size))),
        rw (rest_end) (
            Tiles-write (write_header a off true size) (off + (9 + size)) false (n - (9 + size))
              (off + (9 + n)) bs (omega (arith, lt))
              (Tiles-write a off true size (off + (9 + n)) bs (omega arith) h)),
      ),
    ),
    λ k low. (
      rw (not_equal_above (off + (9 + size)) k (omega (arith, low)), not_equal_above off k low),
      rw (not_equal_above (off + (9 + size)) k (omega (arith, low)), not_equal_above off k low),
    ),
  )
    where
      bound : off + (9 + n) ≤ a.size
      bound = Tiles-bound a (off + (9 + n)) bs h

      rest_end : off + (9 + size) + (9 + (n - (9 + size))) ≡ off + (9 + n)
      rest_end = omega (arith, lt)

  -- What the later blocks give holds behind one that does not fit.
  skip-Finds :
      (off n : ℕ) (used : Bool) (found : Option (ℕ × List Block)) (r : Outcome (Option ℕ))
      → a.used off ≡ used
      → a.block_size off ≡ n
      → Finds found a (off + (9 + n)) r
      → Finds (cons_found (used, n) found) a off r
  skip-Finds off n used none r u b h = h
  skip-Finds off n used (some (ptr, bs)) r u b (a', e, same, tiles, below) = (
    a',
    e,
    same,
    ((below off (omega arith)).0 ∙ u, (below off (omega arith)).1 ∙ b, tiles),
    λ k low. below k (omega (arith, low)),
  )

  tail-Finds :
      (next : ℕ) (bs : List Block) (rest : Outcome (Option ℕ))
      → ((b : Block) (cs : List Block)
          → Tiles a next (b ∷ cs)
          → NoExactFit size (b ∷ cs)
          → Finds (first_fit next size (b ∷ cs)) a next rest)
      → Tiles a next bs
      → NoExactFit size bs
      → Finds (first_fit next size bs) a next (if next == a.size then returns none a else rest)
  tail-Finds next [] rest ih h x = rw (h, ==_refl a.size) refl
  tail-Finds next (b ∷ cs) rest ih h x =
      rw (not_equal next a.size (omega (arith, Tiles-bound a (next + (9 + b.1)) cs (h.2))))
        (ih b cs h x)

  try_malloc_from-Finds :
      (fuel off : ℕ) (b : Block) (bs : List Block)
      → Tiles a off (b ∷ bs)
      → NoExactFit size (b ∷ bs)
      → a.size ≤ off + fuel
      → Finds (first_fit off size (b ∷ bs)) a off (try_malloc_from fuel a size off)
  unfolding try_malloc_from
  try_malloc_from-Finds zero off (used, n) bs h x enough =
      absurd (omega (arith, enough, Tiles-bound a (off + (9 + n)) bs (h.2)))
  try_malloc_from-Finds (suc fuel) off (used, n) bs h x enough =
      rw
        (
          h.0,
          h.1,
          add64_small 9 n (omega (arith, bound, in_word)),
          add64_small off (9 + n) (omega (arith, bound, in_word)),
          add64_small size 9 fits,
          leb-true (off + 9) a.size (omega (arith, bound)),
        )
        (elim (Bool-cases (not used && leb (size + 9) n)) [
          | inl takes ↦ rw takes (
              take_block-Finds off n bs (h.1) (room_for_header used n (size + 9) takes (x.0)) (h.2))
          | inr skips ↦ rw skips (
              skip-Finds off n used _ _ (h.0) (h.1) (
                tail-Finds (off + (9 + n)) bs (try_malloc_from fuel a size (off + (9 + n)))
                  (λ c cs t y.
                    try_malloc_from-Finds fuel (off + (9 + n)) c cs t y (omega (arith, enough)))
                  (h.2) (x.1)))
        ])
    where
      bound : off + (9 + n) ≤ a.size
      bound = Tiles-bound a (off + (9 + n)) bs (h.2)

-- On a buffer whose headers describe a list of blocks, `try_malloc` does first fit on the list: if no
-- free block has room for the request and one more header, it returns null and changes nothing;
-- else it returns the place behind the header of the first one, and the headers describe the list
-- in which that block is cut into the used block and the free rest. This needs that no free block
-- exceeds the request by exactly one header, and that sizes are below 2 ^ 64.
pub try_malloc-Finds :
    (a : Allocator) (size : ℕ) (b : Block) (bs : List Block)
    → a.size < 2 ^ 64
    → size + 9 < 2 ^ 64
    → Tiles a 0 (b ∷ bs)
    → NoExactFit size (b ∷ bs)
    → Finds (first_fit 0 size (b ∷ bs)) a 0 (try_malloc a size)
unfolding try_malloc
try_malloc-Finds a size b bs w f h x =
    try_malloc_from-Finds a size w f a.size 0 b bs h x (omega arith)

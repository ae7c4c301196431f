-- ===== src/Shmem/Calls.antt =====
-- `malloc` and `free` of the allocator (include/shmem/db_allocator.h) on the list of blocks.
use ocr_vx.Prelude.{
  ℕ, ◌+◌, ◌-◌, ◌^◌, ◌≤◌, ◌<◌, ◌≡◌, refl, Bool, false, List, [], ◌∷◌, ◌++◌, Option, none, some,
  ==_refl, lt→ltb, arith,
}
use ocr_vx.Shmem.Allocator.{
  Allocator, Outcome, returns, write_header, try_malloc, malloc_again, or_defragment, malloc, free,
}
use ocr_vx.Shmem.FirstFit.{
  Block, Tiles, NoExactFit, first_fit, Finds, Tiles-bound, Tiles-write, try_malloc-Finds,
  sub64_small, not_equal_above,
}
use ocr_vx.Shmem.Defragment.{merge, defragment-Leaves}

-- First fit, and first fit again when the free blocks have been joined.
abbrev pub or_merged : Option (ℕ × List Block) → Option (ℕ × List Block) → Option (ℕ × List Block)
or_merged none again = again
or_merged (some found) again = some found

-- The pointer is found and the headers describe the blocks with it; else the pointer is null, and
-- they describe the blocks given first.
abbrev pub Serves : List Block → Option (ℕ × List Block) → Outcome (Option ℕ) → Type 0
Serves bs none r = (a : Allocator) × (r ≡ returns none a) × Tiles a 0 bs
Serves bs (some (ptr, cut)) r = (a : Allocator) × (r ≡ returns (some ptr) a) × Tiles a 0 cut

module _ (size : ℕ) (fits : size + 9 < 2 ^ 64) where
  again-Serves :
      (a : Allocator) (bs : List Block)
      → 0 < a.size
      → a.size < 2 ^ 64
      → Tiles a 0 bs
      → NoExactFit size bs
      → Serves bs (first_fit 0 size bs) (try_malloc a size)
  again-Serves a [] p w h x = absurd (omega (arith, p, h))
  again-Serves a (b ∷ bs) p w h x =
      found-Serves (first_fit 0 size (b ∷ bs)) (try_malloc-Finds a size b bs w fits h x)
    where
      found-Serves :
          (found : Option (ℕ × List Block))
          → Finds found a 0 (try_malloc a size)
          → Serves (b ∷ bs) found (try_malloc a size)
      found-Serves none f = (a, f, h)
      found-Serves (some (ptr, cut)) (a', e, same, tiles, below) = (a', e, tiles)

  -- Where the headers describe a list of blocks, `malloc` does first fit on it, and if no free block
  -- has room, first fit on the list whose neighbouring free blocks are joined; it is null when that
  -- finds nothing either. No free block before or after the joining may exceed the request by
  -- exactly one header, and sizes are below 2 ^ 64.
  pub malloc-Serves :
      (a : Allocator) (b : Block) (bs : List Block)
      → a.size < 2 ^ 64
      → Tiles a 0 (b ∷ bs)
      → NoExactFit size (b ∷ bs)
      → NoExactFit size (merge (b ∷ bs))
      → Serves
          (merge (b ∷ bs))
          (or_merged (first_fit 0 size (b ∷ bs)) (first_fit 0 size (merge (b ∷ bs))))
          (malloc a size)
  unfolding malloc or_defragment malloc_again
  malloc-Serves a b bs w h x y =
      go (first_fit 0 size (b ∷ bs)) (try_malloc-Finds a size b bs w fits h x)
    where
      go :
          (found : Option (ℕ × List Block))
          → Finds found a 0 (try_malloc a size)
          → Serves
              (merge (b ∷ bs))
              (or_merged found (first_fit 0 size (merge (b ∷ bs))))
              (or_defragment size (try_malloc a size))
      go (some (ptr, cut)) (a', e, same, tiles, below) = (a', rw e refl, tiles)
      go none e =
          let (a', d, same, tiles, below) = defragment-Leaves a (b ∷ bs) w h in
          rw (e, d)
            (again-Serves a' (merge (b ∷ bs))
              (omega (arith, same, Tiles-bound a (0 + (9 + b.1)) bs (h.2))) (omega (arith, same, w))
              tiles y)

-- Where the header of the block behind these blocks is.
abbrev pub address : ℕ → List Block → ℕ
address off [] = off
address off (b ∷ bs) = address (off + (9 + b.1)) bs

address-le : (off : ℕ) (bs : List Block) → off ≤ address off bs
address-le off [] = omega arith
address-le off (b ∷ bs) = omega (arith, address-le (off + (9 + b.1)) bs)

block_at :
    (a : Allocator) (off : ℕ) (before : List Block) (b : Block) (after : List Block)
    → Tiles a off (before ++ (b ∷ after))
    → (a.block_size (address off before) ≡ b.1) × (address off before + (9 + b.1) ≤ a.size)
block_at a off [] b after h = (h.1, Tiles-bound a (off + (9 + b.1)) after (h.2))
block_at a off (c ∷ before) b after h = block_at a (off + (9 + c.1)) before b after (h.2)

-- Writing the header of one block changes that block in the list.
Tiles-mark :
    (a : Allocator) (off : ℕ) (before : List Block) (b : Block) (after : List Block) (used : Bool)
    → Tiles a off (before ++ (b ∷ after))
    → Tiles (write_header a (address off before) used (b.1)) off (before ++ ((used, b.1) ∷ after))
unfolding write_header
Tiles-mark a off [] b after used h = (
  rw (==_refl off),
  rw (==_refl off),
  Tiles-write a off used (b.1) (off + (9 + b.1)) after (omega arith) (h.2),
)
Tiles-mark a off (c ∷ before) b after used h = (
  rw (not_equal_above (address (off + (9 + c.1)) before) off lower) (h.0),
  rw (not_equal_above (address (off + (9 + c.1)) before) off lower) (h.1),
  Tiles-mark a (off + (9 + c.1)) before b after used (h.2),
)
  where
    lower : off < address (off + (9 + c.1)) before
    lower = omega (arith, address-le (off + (9 + c.1)) before)

-- `free` of the pointer to a block marks that block as free in the list and changes no other;
-- the buffer is below 2 ^ 64.
pub free-Tiles :
    (a : Allocator) (before : List Block) (b : Block) (after : List Block)
    → a.size < 2 ^ 64
    → Tiles a 0 (before ++ (b ∷ after))
    → (a' : Allocator) × (free a (some (9 + address 0 before)) ≡ returns tt a')
      × Tiles a' 0 (before ++ ((false, b.1) ∷ after))
unfolding free
free-Tiles a before b after w h =
    let (size, bound) = block_at a 0 before b after h in
    (
      write_header a (address 0 before) false (b.1),
      rw (
        sub64_small (9 + address 0 before) 9 (omega arith) (omega (arith, bound, w)),
        header (address 0 before),
        lt→ltb (address 0 before) a.size (omega (arith, bound)),
        size,
      ),
      Tiles-mark a 0 before b after false h,
    )
  where
    header : (n : ℕ) → 9 + n - 9 ≡ n
    header n = omega arith

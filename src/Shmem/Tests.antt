-- ===== src/Shmem/Tests.antt =====
-- The allocator at concrete inputs.
use ocr_vx.Prelude.{
  ℕ, ◌≡◌, refl, arith, true, false, [], ◌∷◌, Option, none, some, ◌==◌, if◌then◌else◌,
}
use ocr_vx.Shmem.Allocator.{
  Allocator, Outcome, returns, write_header, cut_rest, take_block, try_malloc_from, try_malloc,
}
use ocr_vx.Shmem.Allocator.{assertion_failed, defragment, malloc, free}
use ocr_vx.Shmem.Defragment.{Leaves, defragment-Leaves}
use ocr_vx.Shmem.Calls.{Serves, malloc-Serves, free-Tiles}
use ocr_vx.Shmem.FirstFit.{Tiles, Finds, first_fit, try_malloc-Finds}

-- A buffer of 60 bytes: a used block of 10 and a free one of 32.
abbrev sample : Allocator
sample = record { size = 60; used = λ k. k == 0; block_size = λ k. if k == 0 then 10 else 32 }

try_malloc-Finds_example :
    Finds (first_fit 0 8 ((true, 10) ∷ (false, 32) ∷ [])) sample 0 (try_malloc sample 8)
try_malloc-Finds_example =
    try_malloc-Finds sample 8 (true, 10) ((false, 32) ∷ []) (omega arith) (omega arith)
      (refl, refl, (refl, refl, refl)) (refl, (refl, tt))

ptr_of : Outcome (Option ℕ) → Option ℕ
ptr_of (returns p a) = p
ptr_of _ = none

first_of_sample : ptr_of (try_malloc sample 8) ≡ some 28
unfolding ptr_of try_malloc try_malloc_from take_block cut_rest write_header
first_of_sample = refl

-- Two free blocks and a used one.
abbrev scattered : Allocator
scattered = record {
  size = 60;
  used = λ k. k == 32;
  block_size = λ k. if k == 32 then 19 else if k == 0 then 10 else 4;
}

defragment-Leaves_example :
    Leaves ((false, 23) ∷ (true, 19) ∷ []) scattered 0 (defragment scattered)
defragment-Leaves_example =
    defragment-Leaves scattered ((false, 10) ∷ (false, 4) ∷ (true, 19) ∷ []) (omega arith)
      (refl, refl, (refl, refl, (refl, refl, refl)))

-- The request fits only when the two free blocks are one.
malloc-Serves_example :
    Serves
      ((false, 23) ∷ (true, 19) ∷ [])
      (some (9, (true, 12) ∷ (false, 2) ∷ (true, 19) ∷ []))
      (malloc scattered 12)
malloc-Serves_example =
    malloc-Serves 12 (omega arith) scattered (false, 10) ((false, 4) ∷ (true, 19) ∷ [])
      (omega arith) (refl, refl, (refl, refl, (refl, refl, refl))) (refl, (refl, (refl, tt)))
      (refl, (refl, tt))

free-Tiles_example :
    (a' : Allocator) × (free scattered (some 41) ≡ returns tt a')
    × Tiles a' 0 ((false, 10) ∷ (false, 4) ∷ (false, 19) ∷ [])
free-Tiles_example =
    free-Tiles scattered ((false, 10) ∷ (false, 4) ∷ []) (true, 19) [] (omega arith)
      (refl, refl, (refl, refl, (refl, refl, refl)))

-- One free block of 27 bytes, and other bytes behind its header.
abbrev one_block : Allocator
one_block = record { size = 36; used = λ k. false; block_size = λ k. if k == 0 then 27 else 100 }

second : Outcome (Option ℕ) → Outcome (Option ℕ)
second (returns p a) = try_malloc a 200
second r = r

-- An exact fit leaves a rest without a header, at which the next walk stops.
exact_fit : second (try_malloc one_block 18) ≡ assertion_failed
unfolding second try_malloc try_malloc_from take_block cut_rest write_header
exact_fit = refl

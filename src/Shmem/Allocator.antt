-- ===== src/Shmem/Allocator.antt =====
-- The first-fit allocator of include/shmem/db_allocator.h. The buffer is a chain of blocks, each with
-- a header: the byte that says whether the block is used, and its size. The header at an offset is
-- `ref<char>(off)` and `ref<offset_t>(off + 1)`; a pointer is its offset in the buffer, and null is
-- `none`. A call runs to its end before the next one: `malloc` under the mutex, `free`
-- without it.
use ocr_vx.Prelude.{
  ℕ, zero, suc, ◌+◌, ◌-◌, ◌%◌, ◌^◌, Bool, true, false, not, ◌&&◌, Option, none, some, ◌==◌, ltb,
  leb, if◌then◌else◌,
}

pub record Allocator : Type 0 where
  pub size : ℕ
  pub used : ℕ → Bool
  pub block_size : ℕ → ℕ

abbrev pub header_size : ℕ
header_size = 9

-- `std::size_t`
abbrev pub add64 : ℕ → ℕ → ℕ
add64 a b = (a + b) % 2 ^ 64

abbrev pub sub64 : ℕ → ℕ → ℕ
sub64 a b = (a + 2 ^ 64 - b % 2 ^ 64) % 2 ^ 64

-- What a call gives back: a value with the state, or the assertion in `ref` that fails.
pub data Outcome (A : Type 0) : Type 0 where
  returns : A → Allocator → Outcome A
  assertion_failed out_of_fuel : Outcome A

unfoldable pub write_header : Allocator → ℕ → Bool → ℕ → Allocator
write_header a off used size = record a {
  used = λ k. if off == k then used else a.used k;
  block_size = λ k. if off == k then size else a.block_size k;
}

-- Both assertions of `ref` on a header
abbrev pub has_header : Allocator → ℕ → Bool
has_header a off = leb (off + header_size) a.size

-- The constructor, with the assertion that there is room for one header
unfoldable pub new_allocator : ℕ → Outcome (Unit {0})
new_allocator size =
    if leb header_size size
    then returns tt (
        write_header (record { size = size; used = λ _. false; block_size = λ _. 0 }) 0 false
          (size - header_size))
    else assertion_failed

-- The rest of a block that is cut gets a header if it is not empty.
unfoldable pub cut_rest : Allocator → ℕ → ℕ → ℕ → Outcome (Option ℕ)
cut_rest a res off rest =
    if ltb 0 rest
    then (if has_header a off
        then returns (some res) (write_header a off false rest)
        else assertion_failed)
    else returns (some res) a

unfoldable pub take_block : Allocator → ℕ → ℕ → Outcome (Option ℕ)
take_block a size off =
    cut_rest (write_header a off true size) (add64 header_size off)
      (add64 off (add64 header_size size)) (sub64 (a.block_size off) (add64 header_size size))

-- `try_malloc` from the header at `off`
unfoldable pub try_malloc_from : ℕ → Allocator → ℕ → ℕ → Outcome (Option ℕ)
try_malloc_from zero a size off = out_of_fuel
try_malloc_from (suc fuel) a size off =
    let next = add64 off (add64 header_size (a.block_size off)) in
    let rest = try_malloc_from fuel a size next in
    if has_header a off
    then (if not (a.used off) && leb (add64 size header_size) (a.block_size off)
        then take_block a size off
        else if next == a.size
        then returns none a
        else rest)
    else assertion_failed

-- Every header takes its place, so the buffer's size bounds the rounds.
unfoldable pub try_malloc : Allocator → ℕ → Outcome (Option ℕ)
try_malloc a size = try_malloc_from a.size a size 0

-- The loop of `defragment_intenal`; `last_empty` is `none` for `offset_t(-1)`.
unfoldable pub merge_block : Allocator → Option ℕ → ℕ → Allocator
merge_block a none off = a
merge_block a (some e) off =
    if a.used off
    then a
    else write_header a e (a.used e) (add64 (a.block_size e) (add64 (a.block_size off) header_size))

unfoldable pub next_empty : Allocator → Option ℕ → ℕ → Option ℕ
next_empty a none off = if a.used off then none else some off
next_empty a (some e) off = if a.used off then none else some e

unfoldable pub defragment_from : ℕ → Allocator → Option ℕ → ℕ → Outcome (Unit {0})
defragment_from zero a last_empty off = if ltb off a.size then out_of_fuel else returns tt a
defragment_from (suc fuel) a last_empty off =
    let rest =
      defragment_from fuel (merge_block a last_empty off) (next_empty a last_empty off)
        (add64 off (add64 (a.block_size off) header_size)) in
    if ltb off a.size then (if has_header a off then rest else assertion_failed) else returns tt a

unfoldable pub defragment : Allocator → Outcome (Unit {0})
defragment a = defragment_from a.size a none 0

unfoldable pub malloc_again : ℕ → Outcome (Unit {0}) → Outcome (Option ℕ)
malloc_again size (returns _ a) = try_malloc a size
malloc_again size assertion_failed = assertion_failed
malloc_again size out_of_fuel = out_of_fuel

unfoldable pub or_defragment : ℕ → Outcome (Option ℕ) → Outcome (Option ℕ)
or_defragment size (returns none a) = malloc_again size (defragment a)
or_defragment size r = r

-- `malloc`: a second try after defragmentation
unfoldable pub malloc : Allocator → ℕ → Outcome (Option ℕ)
malloc a size = or_defragment size (try_malloc a size)

-- `free`: it clears the header's byte.
unfoldable pub free : Allocator → Option ℕ → Outcome (Unit {0})
free a none = returns tt a
free a (some ptr) =
    if ltb (sub64 ptr header_size) a.size
    then returns tt
        (write_header a (sub64 ptr header_size) false (a.block_size (sub64 ptr header_size)))
    else assertion_failed

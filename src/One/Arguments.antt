-- ===== src/One/Arguments.antt =====
-- The arguments of the program in their data block: `pack_arguments`, `get_argc` and `get_argv` of
-- include/one/runtime.h. Bytes are numbers, a `u64` has its low byte first, and `none` is an assertion
-- that fails or an access outside the block. A pointer into the block is its offset; that the block is
-- the acquired one is asserted by the code and given here.
use ocr_vx.Prelude.{
  ℕ, zero, suc, ◌+◌, ◌*◌, ◌/◌, ◌%◌, ◌^◌, ◌≡◌, Option, none, some, List, [], ◌∷◌, ◌++◌, ltb, length,
  replicate,
}
use ocr_vx.Prelude.Options.{◌>>=◌, ◌>>◌, require}
pub mod Packed
pub mod Bytes
pub mod Layout
mod Tests

abbrev pub bytes_of : ℕ → ℕ → List ℕ
bytes_of zero n = []
bytes_of (suc k) n = n % 256 ∷ bytes_of k (n / 256)

abbrev pub value : List ℕ → ℕ
value [] = 0
value (b ∷ bs) = b + 256 * value bs

unfoldable pub u64_bytes : ℕ → List ℕ
u64_bytes n = bytes_of 8 n

-- `memcpy` into the block.
unfoldable pub overwrite : List ℕ → List ℕ → Option (List ℕ)
overwrite buf [] = some buf
overwrite [] (b ∷ bs) = none
overwrite (x ∷ xs) (b ∷ bs) = do rest ← overwrite xs bs; some (b ∷ rest)

unfoldable pub poke : List ℕ → ℕ → List ℕ → Option (List ℕ)
poke buf zero bs = overwrite buf bs
poke [] (suc offset) bs = none
poke (x ∷ xs) (suc offset) bs = do rest ← poke xs offset bs; some (x ∷ rest)

-- The first bytes, and what is behind an offset.
unfoldable pub first_bytes : ℕ → List ℕ → Option (List ℕ)
first_bytes zero buf = some []
first_bytes (suc n) [] = none
first_bytes (suc n) (x ∷ xs) = do rest ← first_bytes n xs; some (x ∷ rest)

unfoldable pub behind : ℕ → List ℕ → Option (List ℕ)
behind zero buf = some buf
behind (suc offset) [] = none
behind (suc offset) (x ∷ xs) = behind offset xs

unfoldable pub read_u64 : List ℕ → ℕ → Option ℕ
read_u64 buf offset = do rest ← behind offset buf; bs ← first_bytes 8 rest; some (value bs)

-- `strlen(arg) + 1`
abbrev pub size_of : List ℕ → ℕ
size_of arg = length arg + 1

unfoldable pub arg_size : List (List ℕ) → ℕ
arg_size [] = 0
arg_size (arg ∷ argv) = 8 + size_of arg + arg_size argv

-- The two loops that fill the block.
unfoldable pub fill_offsets : List (List ℕ) → ℕ → ℕ → List ℕ → Option (ℕ × List ℕ)
fill_offsets [] offset string_offset buf = some (offset, buf)
fill_offsets (arg ∷ argv) offset string_offset buf = do
  written ← poke buf offset (u64_bytes string_offset)
  fill_offsets argv (offset + 8) (string_offset + size_of arg) written

unfoldable pub fill_strings : List (List ℕ) → ℕ → List ℕ → Option (List ℕ)
fill_strings [] offset buf = some buf
fill_strings (arg ∷ argv) offset buf = do
  written ← poke buf offset (arg ++ (0 ∷ []))
  fill_strings argv (offset + size_of arg) written

unfoldable pub pack_arguments : List (List ℕ) → Option (List ℕ)
pack_arguments argv = do
  buf ← poke (replicate (8 + arg_size argv) 0) 0 (u64_bytes (length argv))
  filled ← fill_offsets argv 8 (8 + length argv * 8) buf
  fill_strings argv filled.0 filled.1

unfoldable pub get_argc : List ℕ → Option ℕ
get_argc buf = read_u64 buf 0

unfoldable pub get_argv : List ℕ → ℕ → Option ℕ
get_argv buf count = do
  argc ← get_argc buf
  require (ltb count argc)
  read_u64 buf ((count + 1) * 8)

-- What an application reads through such a pointer: a string ends at its zero.
unfoldable pub c_string : List ℕ → Option (List ℕ)
c_string [] = none
c_string (zero ∷ bs) = some []
c_string (suc b ∷ bs) = do rest ← c_string bs; some (suc b ∷ rest)

unfoldable pub argument : List ℕ → ℕ → Option (List ℕ)
argument buf count = do offset ← get_argv buf count; string ← behind offset buf; c_string string

-- ===== src/One/Db.antt =====
-- Data blocks: include/one/db.h, and the calls of include/one/runtime.h on them.
-- A block that an EDT works on has a public copy of its bytes, which `release` writes back.
use ocr_vx.Prelude.{
  ℕ, Bool, true, false, not, ◌&&◌, ◌||◌, List, [], ◌∷◌, ◌++◌, Option, none, some, ◌==◌, ltb,
  if◌then◌else◌, length, set, get_elem?, replicate, contains, erase, bit_and,
}
use ocr_vx.One.Types.{
  wrong_type, Object, Mode, db_mode_null, db_mode_const, db_mode_rw, db_mode_ew, db_mode_ro,
  db_default_mode, Db, Object, db_object, null_guid, bad_argument, db_already_acquired,
  db_not_acquired, read_only_modified, block_not_held, out_of_bounds,
}
use ocr_vx.One.Monad.{
  ok, fault, M, ◌>>=◌, ◌>>◌, pure, stop, guard, get, add_object, remove_as, db_kind, put, get_next,
  as_db, resolve_lid,
}

-- `DB_PROP_NO_ACQUIRE`, `DB_PROP_SINGLE_ASSIGNMENT`
abbrev pub db_prop_no_acquire : ℕ
db_prop_no_acquire = 0x10

abbrev pub db_prop_single_assignment : ℕ
db_prop_single_assignment = 0x20

-- `std::vector::empty`
abbrev pub is_empty {ℓ} : {A : Type ℓ} → List A → Bool
is_empty [] = true
is_empty (x ∷ xs) = false

-- `memcmp(...) == 0`
unfoldable pub same_bytes : List ℕ → List ℕ → Bool
same_bytes [] [] = true
same_bytes (x ∷ xs) (y ∷ ys) = x == y && same_bytes xs ys
same_bytes _ _ = false

-- The mode lets the holder change the block.
abbrev pub may_be_modified : Mode → Bool
may_be_modified db_mode_ew = true
may_be_modified db_mode_rw = true
may_be_modified _ = false

-- The asserted modes of a release that writes nothing back.
abbrev pub is_read_only : Mode → Bool
is_read_only db_mode_const = true
is_read_only db_mode_ro = true
is_read_only _ = false

-- The constructor `db(guid, size)`: a vector of `size` zero bytes.
unfoldable pub new_db : ℕ → Db
new_db size = record {
  size = size;
  buffer_private = replicate size 0;
  buffer_public = [];
  acquired = false;
  acquire_mode = db_mode_null;
  owner = null_guid;
}

unfoldable pub was_modified : Db → Bool
was_modified b = not (same_bytes b.buffer_private b.buffer_public)

-- `db::acquire`
unfoldable pub acquire : Db → Mode → ℕ → M Db
acquire b mode owner = do
  guard (not b.acquired) db_already_acquired
  guard (is_empty b.buffer_public) db_already_acquired
  pure (record b {
    acquired = true;
    acquire_mode = mode;
    owner = owner;
    buffer_public = b.buffer_private;
  })

-- `db::release`
unfoldable pub release : Db → M Db
release b = do
  guard b.acquired db_not_acquired
  let closed = record b { buffer_public = []; acquired = false }
  if may_be_modified b.acquire_mode
      then pure (record closed { buffer_private = b.buffer_public })
      else (do
        guard (is_read_only b.acquire_mode) read_only_modified
        guard (not (was_modified b)) read_only_modified
        pure closed)

unfoldable pub get_db : ℕ → M Db
get_db g = get g >>= as_db

unfoldable pub put_db : ℕ → Db → M (Unit {0})
put_db g b = put g (db_object b)

-- `add_acquired_block`, on the EDT that runs, if there is one
unfoldable pub add_acquired_block : ℕ → M (Unit {0})
add_acquired_block g s = elim s.this_edt [
  | none ↦ ok (tt, s)
  | some e ↦ ok (
    tt,
    record s { this_edt = some (record e { acquired_blocks = e.acquired_blocks ++ (g ∷ []) }) },
  )
]

-- `remove_acquired_block`, which asserts that the block is in the list
unfoldable pub remove_acquired_block : ℕ → M (Unit {0})
remove_acquired_block g s = elim s.this_edt [
  | none ↦ ok (tt, s)
  | some e ↦
      if contains g e.acquired_blocks
      then ok (
        tt,
        record s { this_edt = some (record e { acquired_blocks = erase g e.acquired_blocks }) },
      )
      else fault block_not_held
]

-- `get_current_edt_guid`
unfoldable pub get_current_edt_guid : M ℕ
get_current_edt_guid s = elim s.this_edt [ none ↦ ok (null_guid, s) | some e ↦ ok (e.guid, s) ]

unfoldable pub acquire_object : ℕ → Mode → Object → M (Unit {0})
acquire_object g mode (db_object b) = do
  owner ← get_current_edt_guid
  held ← acquire b mode owner
  put_db g held
acquire_object g mode _ = stop wrong_type

unfoldable pub acquire_db : ℕ → Mode → M (Unit {0})
acquire_db g mode = do o ← get g; acquire_object g mode o

-- `runtime::create_db`; the pointer that it also returns is the public copy of the new block.
unfoldable pub create_db : ℕ → ℕ → M ℕ
create_db len flags = do
  guard (flags == 0 || flags == db_prop_no_acquire || flags == db_prop_single_assignment)
      bad_argument
  g ← get_next
  add_object g (db_object (new_db len))
  if not (bit_and flags db_prop_no_acquire == 0)
      then pure g
      else (do acquire_db g db_default_mode; add_acquired_block g; pure g)

unfoldable pub release_object : ℕ → Object → M (Unit {0})
release_object g (db_object b) = do closed ← release b; put_db g closed
release_object g _ = stop wrong_type

unfoldable pub release_held : ℕ → M (Unit {0})
release_held g = do o ← get g; release_object g o

-- `runtime::release_db`
unfoldable pub release_db : ℕ → M (Unit {0})
release_db what = do
  g ← resolve_lid what
  b ← get_db g
  guard b.acquired db_not_acquired
  remove_acquired_block g
  release_held g

-- `runtime::destroy_db`
unfoldable pub destroy_db : ℕ → M (Unit {0})
destroy_db what = do
  g ← resolve_lid what
  b ← get_db g
  if b.acquired then release_db g else pure tt
  remove_as db_kind g

unfoldable pub write_object : ℕ → ℕ → ℕ → Object → M (Unit {0})
write_object g offset byte (db_object b) = do
  guard b.acquired db_not_acquired
  guard (ltb offset (length b.buffer_public)) out_of_bounds
  put_db g (record b { buffer_public = set b.buffer_public offset byte })
write_object g offset byte _ = stop wrong_type

-- A store of the EDT's code through the pointer to the public copy.
unfoldable pub write_db : ℕ → ℕ → ℕ → M (Unit {0})
write_db g offset byte = do o ← get g; write_object g offset byte o

unfoldable pub at_or_fault : Option ℕ → M ℕ
at_or_fault none = stop out_of_bounds
at_or_fault (some v) = pure v

-- A load of the EDT's code through that pointer.
unfoldable pub read_db : ℕ → ℕ → M ℕ
read_db g offset = do
  b ← get_db g
  guard b.acquired db_not_acquired
  at_or_fault (get_elem? b.buffer_public offset)

-- ===== src/Distributed/Guid.antt =====
-- How GUIDs are packed: `guid_template` of include/distributed/guid.h. A GUID is a 64-bit word with a
-- flag in its top bit, then `node_bits` bits and then the object's bits. `none` is an assertion that
-- fails. The number of nodes is the communicator's.
use ocr_vx.Prelude.{
  ℕ, ◌+◌, ◌-◌, ◌*◌, ◌/◌, ◌%◌, ◌^◌, Bool, false, ◌&&◌, Option, none, some, ◌==◌, ltb, if◌then◌else◌,
  bit_and, bit_or,
}

-- `u64` shifts
abbrev pub shift_left : ℕ → ℕ → ℕ
shift_left w k = w * 2 ^ k % 2 ^ 64

abbrev pub shift_right : ℕ → ℕ → ℕ
shift_right w k = w / 2 ^ k

module _ (node_bits : ℕ) where
  abbrev pub flag_bits : ℕ
  flag_bits = 1

  abbrev pub object_bits : ℕ
  object_bits = 64 - (node_bits + flag_bits)

  -- The conversion to `u8`
  unfoldable pub get_flag : ℕ → ℕ
  get_flag g = shift_right g (node_bits + object_bits) % 2 ^ 8

  unfoldable pub is_mapped : ℕ → Bool
  is_mapped g = get_flag g == 1

  -- The bits between the flag and the object's.
  unfoldable pub get_map_id : ℕ → Option ℕ
  get_map_id g =
      if is_mapped g then some (bit_and (shift_right g object_bits) (2 ^ node_bits - 1)) else none

  unfoldable pub get_index : ℕ → Option ℕ
  get_index g = if is_mapped g then some (bit_and (2 ^ object_bits - 1) g) else none

  unfoldable pub get_object_id : ℕ → Option ℕ
  get_object_id g = if is_mapped g then none else some (bit_and (2 ^ object_bits - 1) g)

  unfoldable pub on_node : ℕ → Option ℕ → Option ℕ
  on_node nodes none = none
  on_node nodes (some index) = some (index % nodes)

  -- `get_mapped_node_id` (src/distributed/ocr_distributed.cpp)
  unfoldable pub get_mapped_node_id : ℕ → ℕ → Option ℕ
  get_mapped_node_id nodes g = on_node nodes (get_index g)

  unfoldable pub get_node_id : ℕ → ℕ → Option ℕ
  get_node_id nodes g =
      if is_mapped g
      then get_mapped_node_id nodes g
      else some (bit_and (shift_right g object_bits) (2 ^ node_bits - 1))

  unfoldable pub is_top_node : Option ℕ → Bool
  is_top_node none = false
  is_top_node (some node) = node == 2 ^ node_bits - 1

  unfoldable pub is_map : ℕ → ℕ → Bool
  is_map nodes g = is_top_node (get_node_id nodes g)

  -- The three constructors: an object of a node, an entry of a map, and a map.
  unfoldable pub make_guid : ℕ → ℕ → Option ℕ
  make_guid nid oid =
      if ltb nid (2 ^ node_bits) && ltb oid (2 ^ object_bits)
      then some (bit_or (shift_left nid object_bits) oid)
      else none

  unfoldable pub make_mapped : ℕ → ℕ → Option ℕ
  make_mapped map_id index =
      if ltb map_id (2 ^ node_bits) && ltb index (2 ^ object_bits)
      then some (
          bit_or (bit_or (shift_left 1 (node_bits + object_bits)) (shift_left map_id object_bits))
            index)
      else none

  unfoldable pub make_map : ℕ → Option ℕ
  make_map map_id =
      if ltb map_id (2 ^ node_bits)
      then some (bit_or (shift_left (bit_and (2 ^ 64 - 1) (2 ^ node_bits - 1)) object_bits) map_id)
      else none

-- ===== src/Distributed/Packing.antt =====
-- What is packed into a GUID is what is read from it (include/distributed/guid.h).
use ocr_vx.Prelude.{
  ℕ, ◌+◌, ◌-◌, ◌*◌, ◌%◌, ◌^◌, ◌≤◌, ◌<◌, ◌≡◌, sym, ◌∙◌, ap, arith, true, false, some, ==_refl,
  lt→ltb, bit_and, bit_or, power-add, power-pos, fields-lt, bit_or-shifted, bit_and-mask,
  bit_and-mask_right, high_field, low_field,
}
use native.Mathlib.Nat.{mod-eq_of_lt, add-mod_left, add-mul, pow-le-pow_right}
use ocr_vx.Distributed.Guid.{
  shift_left, object_bits, get_flag, is_mapped, get_map_id, get_index, get_object_id, on_node,
  get_mapped_node_id, get_node_id, is_top_node, is_map, make_guid, make_mapped, make_map,
}

-- The widths of the fields fill the word: the flag, the node's bits and the object's.
module _ (node_bits : ℕ) (fits : node_bits ≤ 63) where
  abbrev width : ℕ
  width = object_bits node_bits

  widths : node_bits + width ≡ 63
  widths = omega (arith, fits)

  room : 2 ^ node_bits * 2 ^ width ≡ 2 ^ 63
  room = sym (power-add node_bits width) ∙ ap (λ k. 2 ^ k) widths

  -- A word without the flag.
  packed-lt : (a b : ℕ) → a < 2 ^ node_bits → b < 2 ^ width → a * 2 ^ width + b < 2 ^ 63
  packed-lt a b g h = rw (sym room) (fields-lt node_bits width a b g h)

  shift_left-field : (a : ℕ) → a < 2 ^ node_bits → shift_left a width ≡ a * 2 ^ width
  shift_left-field a g = omega (arith, packed-lt a 0 g (power-pos width))

  flag_clear : (w : ℕ) → w < 2 ^ 63 → is_mapped node_bits w ≡ false
  unfolding is_mapped get_flag
  flag_clear w h = rw widths (ground (arith, h))

  flag_set : (w : ℕ) → w < 2 ^ 63 → is_mapped node_bits (2 ^ 63 + w) ≡ true
  unfolding is_mapped get_flag
  flag_set w h = rw widths (ground (arith, h))

  pub make_guid_lem :
      (nid oid : ℕ)
      → nid < 2 ^ node_bits
      → oid < 2 ^ width
      → make_guid node_bits nid oid ≡ some (nid * 2 ^ width + oid)
  unfolding make_guid
  make_guid_lem nid oid g h =
      rw (lt→ltb nid _ g, lt→ltb oid _ h, shift_left-field nid g, bit_or-shifted width nid oid h)

  -- Packing a node and an object gives a GUID without the flag from which both are read again, for
  -- every split of the word; the two must fit their fields.
  pub make_guid-roundtrip :
      (nodes nid oid : ℕ)
      → nid < 2 ^ node_bits
      → oid < 2 ^ object_bits node_bits
      → (g : ℕ) × (make_guid node_bits nid oid ≡ some g)
        × (is_mapped node_bits g ≡ false)
        × (get_node_id node_bits nodes g ≡ some nid)
        × (get_object_id node_bits g ≡ some oid)
  unfolding get_node_id get_object_id
  make_guid-roundtrip nodes nid oid g h =
      let clear = flag_clear (nid * 2 ^ width + oid) (packed-lt nid oid g h) in
      (
        nid * 2 ^ width + oid,
        make_guid_lem nid oid g h,
        clear,
        rw (clear, high_field width nid oid h)
            (ap some (bit_and-mask_right node_bits nid ∙ mod-eq_of_lt g)),
        rw (clear, bit_and-mask width (nid * 2 ^ width + oid), low_field width nid oid h),
      )

  top_bit : (a : ℕ) → 2 ^ 63 + a * 2 ^ width ≡ (2 ^ node_bits + a) * 2 ^ width
  top_bit a = omega (arith, add-mul (2 ^ node_bits) a (2 ^ width), room)

  mapped_word :
      (map_id index : ℕ)
      → 2 ^ 63 + (map_id * 2 ^ width + index) ≡ (2 ^ node_bits + map_id) * 2 ^ width + index
  mapped_word map_id index = omega (arith, top_bit map_id)

  make_mapped_lem :
      (map_id index : ℕ)
      → map_id < 2 ^ node_bits
      → index < 2 ^ width
      → make_mapped node_bits map_id index ≡ some (2 ^ 63 + (map_id * 2 ^ width + index))
  unfolding make_mapped
  make_mapped_lem map_id index g h =
      rw (lt→ltb map_id _ g, lt→ltb index _ h, widths, shift_left-field map_id g)
        (ap some (
          ap (λ w. bit_or w index)
            (bit_or-shifted 63 1 (map_id * 2 ^ width)
                (omega (arith, packed-lt map_id 0 g (power-pos width)))
              ∙ top_bit map_id)
          ∙ bit_or-shifted width (2 ^ node_bits + map_id) index h
          ∙ sym (mapped_word map_id index)))

  read_index :
      (map_id index : ℕ)
      → index < 2 ^ width
      → bit_and (2 ^ width - 1) (2 ^ 63 + (map_id * 2 ^ width + index)) ≡ index
  read_index map_id index h = rw (mapped_word map_id index) (
      bit_and-mask width ((2 ^ node_bits + map_id) * 2 ^ width + index)
      ∙ low_field width (2 ^ node_bits + map_id) index h)

  -- Packing a map's number and an index gives a GUID with the flag from which both are read again;
  -- its node is the index modulo the number of nodes. Both numbers must fit their fields.
  pub make_mapped-roundtrip :
      (nodes map_id index : ℕ)
      → map_id < 2 ^ node_bits
      → index < 2 ^ object_bits node_bits
      → (g : ℕ) × (make_mapped node_bits map_id index ≡ some g)
        × (is_mapped node_bits g ≡ true)
        × (get_map_id node_bits g ≡ some map_id)
        × (get_index node_bits g ≡ some index)
        × (get_node_id node_bits nodes g ≡ some (index % nodes))
  unfolding get_map_id get_index get_node_id get_mapped_node_id on_node
  make_mapped-roundtrip nodes map_id index g h =
      let set' = flag_set (map_id * 2 ^ width + index) (packed-lt map_id index g h) in
      (
        2 ^ 63 + (map_id * 2 ^ width + index),
        make_mapped_lem map_id index g h,
        set',
        rw (set', mapped_word map_id index, high_field width (2 ^ node_bits + map_id) index h)
            (ap some (
              bit_and-mask_right node_bits (2 ^ node_bits + map_id)
              ∙ add-mod_left (2 ^ node_bits) map_id
              ∙ mod-eq_of_lt g)),
        rw (set', read_index map_id index h),
        rw (set', read_index map_id index h),
      )

  abbrev ones : ℕ
  ones = 2 ^ node_bits - 1

  ones-lt : ones < 2 ^ node_bits
  ones-lt = omega (arith, power-pos node_bits)

  ones_in_word : ones % 2 ^ 64 ≡ ones
  ones_in_word = omega (arith, power-pos node_bits, pow-le-pow_right {n = 2} (omega arith) fits)

  -- The GUID of a map is recognised, has no flag and holds the map's number where objects have
  -- theirs, if that number fits both the field of the node and the field of the object.
  pub make_map-roundtrip :
      (nodes map_id : ℕ)
      → map_id < 2 ^ node_bits
      → map_id < 2 ^ object_bits node_bits
      → (g : ℕ) × (make_map node_bits map_id ≡ some g)
        × (is_mapped node_bits g ≡ false)
        × (is_map node_bits nodes g ≡ true)
        × (get_object_id node_bits g ≡ some map_id)
  unfolding is_map is_top_node get_node_id get_object_id make_map
  make_map-roundtrip nodes map_id g h =
      let clear = flag_clear (ones * 2 ^ width + map_id) (packed-lt ones map_id ones-lt h) in
      (
        ones * 2 ^ width + map_id,
        rw (
          lt→ltb map_id _ g,
          bit_and-mask 64 ones,
          ones_in_word,
          shift_left-field ones ones-lt,
          bit_or-shifted width ones map_id h,
        ),
        clear,
        rw (
          clear,
          high_field width ones map_id h,
          bit_and-mask_right node_bits ones,
          mod-eq_of_lt ones-lt,
          ==_refl ones,
        ),
        rw (clear, bit_and-mask width (ones * 2 ^ width + map_id), low_field width ones map_id h),
      )

-- ===== src/Distributed/Tests.antt =====
-- GUIDs and a repository, with 32 bits for the node, as the runtime has them (`typedef guid_template<32> guid`).
use ocr_vx.Prelude.{ℕ, ◌≡◌, refl, ◌+◌, ◌*◌, ◌^◌, arith, true, false, none, some, [], ◌∷◌, inl}
use ocr_vx.Distributed.Guid.{
  is_mapped, get_flag, get_map_id, get_index, get_object_id, get_node_id, is_map, make_guid,
  make_mapped, make_map,
}
use ocr_vx.Distributed.Packing.{make_guid-roundtrip, make_mapped-roundtrip, make_map-roundtrip}
use ocr_vx.Distributed.Repository.{
  Repository, new_repository, owned_here, home_of, set_object, get_object, get_unmapped,
}
use ocr_vx.Distributed.Objects.{set_object-get_object}

make_guid-roundtrip_example :
    (g : ℕ) × (make_guid 32 3 17 ≡ some g)
    × (is_mapped 32 g ≡ false)
    × (get_node_id 32 4 g ≡ some 3)
    × (get_object_id 32 g ≡ some 17)
make_guid-roundtrip_example =
    make_guid-roundtrip 32 (omega arith) 4 3 17 (omega arith) (omega arith)

make_mapped-roundtrip_example :
    (g : ℕ) × (make_mapped 32 3 18 ≡ some g)
    × (is_mapped 32 g ≡ true)
    × (get_map_id 32 g ≡ some 3)
    × (get_index 32 g ≡ some 18)
    × (get_node_id 32 4 g ≡ some 2)
make_mapped-roundtrip_example =
    make_mapped-roundtrip 32 (omega arith) 4 3 18 (omega arith) (omega arith)

make_map-roundtrip_example :
    (g : ℕ) × (make_map 32 5 ≡ some g)
    × (is_mapped 32 g ≡ false)
    × (is_map 32 4 g ≡ true)
    × (get_object_id 32 g ≡ some 5)
make_map-roundtrip_example = make_map-roundtrip 32 (omega arith) 4 5 (omega arith) (omega arith)

-- The assertion lets a map's number use a bit of the node's field, where it is lost.
lost_bit : make_map 32 (2 ^ 31) ≡ make_map 32 0
unfolding make_map
lost_bit = refl

-- An object is set under a GUID that was preallocated by node 3, and the affinity object stays null.
abbrev preallocated : Repository ℕ
preallocated = record new_repository { data_ = none ∷ none ∷ none ∷ [] }

abbrev stored : Repository ℕ
stored = record new_repository { data_ = none ∷ none ∷ some 9 ∷ [] }

abbrev guid : ℕ
guid = 3 * 2 ^ 31 + 2

writes : set_object 4 3 guid (some 9) preallocated ≡ some stored
unfolding set_object owned_here home_of get_node_id get_object_id is_mapped get_flag
writes = refl

reads : get_object 4 3 guid preallocated ≡ some none
unfolding get_object owned_here home_of get_node_id get_object_id is_mapped get_flag get_unmapped
reads = refl

set_object-get_object_example : get_object 4 3 guid stored ≡ some (some 9)
set_object-get_object_example =
    set_object-get_object 4 3 guid guid (omega arith) (omega arith) (some 9) none preallocated
      stored (inl writes) reads

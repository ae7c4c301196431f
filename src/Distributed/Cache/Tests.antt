-- ===== src/Distributed/Cache/Tests.antt =====
-- Two nodes: node 0 reserves GUIDs of node 1, which has objects of its own.
use ocr_vx.Prelude.{
  Bool, contains, false, not, ◌&&◌, ◌||◌, ◌==◌, if◌then◌else◌, ℕ, ◌+◌, Option, ◌^◌, ◌≡◌, refl,
  arith, List, [], ◌∷◌, some, none,
}
use ocr_vx.One.Types.{null_guid}
use ocr_vx.Distributed.Guid.{get_node_id, make_guid, get_object_id, get_flag, is_mapped}
use ocr_vx.Distributed.Tables.{find}
use ocr_vx.Distributed.Cache.Prefetch.{or_fetched, prefetch_all-find, AllKnown}
use ocr_vx.Distributed.Cache.Objects.{
  Objects, is_local, prefetch_all, try_get_object_locally, ensure, try_get_object_locally-ensure,
}
use ocr_vx.Distributed.Repository.{
  new_repository, push_objects, add_object, preallocate_object, preallocate_objects,
}
use ocr_vx.Distributed.Cache.{
  Cluster, new_cluster, ClusterEvent, add, reserve, serve, receive, run, cluster_step, guid_lt,
  take_next, refill, at_node, with_container, local_add, local_reserve, take_or_ask, reserve_guid,
  serve_request, receive_reply,
}
use ocr_vx.Distributed.Cache.Unique.{AllReserved, run-AllReserved}
use ocr_vx.Distributed.Cache.Served.{Served, exchange, exchange-Served}

-- The answer comes after node 1 has added an object, and before it reserves one itself.
abbrev events : List (ClusterEvent ℕ)
events = reserve 0 1 ∷ add 1 (some 7) ∷ serve 0 1 ∷ reserve 1 1 ∷ receive 0 1 ∷ reserve 0 1 ∷ []

abbrev reserved : List ℕ
reserved = (2 ^ 31 + 4) ∷ (2 ^ 31 + 3) ∷ (2 ^ 31 + 131) ∷ (2 ^ 31 + 2) ∷ []

abbrev or_new : Option (List ℕ × Cluster ℕ) → List ℕ × Cluster ℕ
or_new none = ([], new_cluster)
or_new (some p) = p

later : Cluster ℕ
later = (or_new (run events [] new_cluster)).1

runs : run events [] new_cluster ≡ some (reserved, later)
unfolding later run cluster_step guid_lt take_next refill at_node with_container local_add
    local_reserve take_or_ask reserve_guid serve_request receive_reply push_objects add_object
    preallocate_object preallocate_objects make_guid get_object_id get_flag is_mapped
runs = refl

run-AllReserved_example : AllReserved 2 reserved later
run-AllReserved_example = run-AllReserved 2 events reserved later runs

-- What is left of the block is used before the owner is asked again.
exchange-Served_example : Served 2 1 reserved (run (exchange 0 1) reserved later)
unfolding later run cluster_step guid_lt take_next refill at_node with_container local_add
    local_reserve take_or_ask reserve_guid serve_request receive_reply push_objects add_object
    preallocate_object preallocate_objects make_guid get_object_id get_flag is_mapped
exchange-Served_example =
    exchange-Served 2 0 1 events reserved later runs (omega arith) (omega arith) refl

-- Node 0 has one object of node 1, and needs another.
abbrev cached : Objects ℕ
cached = (2 ^ 31 + 5, some 6) ∷ []

abbrev needed : ℕ
needed = 2 ^ 31 + 2

needed-remote : is_local 4 0 needed ≡ some false
unfolding is_local get_node_id is_mapped get_flag
needed-remote = refl

not_cached : find needed cached ≡ none
unfolding find
not_cached = refl

-- The list has a local GUID, the null GUID, and the GUID that is needed twice.
abbrev needed_guids : List ℕ
needed_guids = 8 ∷ needed ∷ null_guid ∷ needed ∷ []

-- Which GUIDs are local
abbrev at_home : ℕ → Bool
at_home g = not (g == needed)

needed_guids-AllKnown : AllKnown 4 0 at_home needed_guids
unfolding is_local get_node_id is_mapped get_flag
needed_guids-AllKnown = (refl, (refl, (refl, (refl, tt))))

prefetch_all-find_example :
    (after : Objects ℕ) × (prefetch_all 4 0 new_repository (λ g. some 8) needed_guids cached
      ≡ some after)
    × ((h : ℕ)
        → find h after ≡ (
            if contains h needed_guids && not ((h == null_guid) || at_home h)
            then some (or_fetched (find h cached) (some 8))
            else find h cached))
prefetch_all-find_example =
    prefetch_all-find 4 0 new_repository at_home (λ g. some 8) needed_guids needed_guids-AllKnown
      cached

try_get_object_locally-ensure_example :
    (after : Objects ℕ) × (try_get_object_locally 4 0 new_repository needed cached
      ≡ some (none, after))
    × ((fetched : Option ℕ) → ensure 4 0 new_repository fetched needed after ≡ some (none, after))
try_get_object_locally-ensure_example =
    try_get_object_locally-ensure 4 0 new_repository needed needed-remote cached not_cached

-- ===== src/Distributed/Cache/Cases.antt =====
-- What a container holds, by cases (include/distributed/object_cache.h).
use ocr_vx.Prelude.{ℕ, ◌+◌, ◌≤◌, ◌≡◌, ◌⊎◌, inl, inr, refl, arith, true, false, ==_refl}
use ocr_vx.Distributed.Cache.{
  NodeDataContainer, Message, no_message, allocate_guid, allocated_guid, guid_lt, update₂,
}
use ocr_vx.Distributed.Cache.Words.{Block, Left, guid_lt_irrefl, guid_lt-word}
use ocr_vx.Distributed.Cache.Invariant.{Pending}

pub update₂-at : {X : Type 0} (a n : ℕ) (v : X) (f : ℕ → ℕ → X) → update₂ a n v f a n ≡ v
update₂-at a n v f = rw (==_refl a, ==_refl n) refl

pub shrinks : (a n : ℕ) (lo : ℕ → ℕ → ℕ) (b m : ℕ) → lo b m ≤ update₂ a n (lo a n + 1) lo b m
shrinks a n lo b m = grind arith

pub Left-Block :
    (n lo hi : ℕ) (c : NodeDataContainer)
    → Left n c lo hi
    → guid_lt c.preallocation_next c.preallocation_max ≡ true
    → Block n c lo hi
Left-Block n lo hi c (inl (same, empty)) h =
    absurd (let e = guid_lt_irrefl c.preallocation_next in cc)
Left-Block n lo hi c (inr b) h = b

pub Left-empty :
    (n lo hi : ℕ) (c : NodeDataContainer)
    → Left n c lo hi
    → guid_lt c.preallocation_next c.preallocation_max ≡ false
    → lo ≡ hi
Left-empty n lo hi c (inl (same, empty)) h = empty
Left-empty n lo hi c (inr b) h = absurd (
    let e = guid_lt-word n lo hi b.nonempty b.node_fits b.fits in
    let f = b.next_eq in let g = b.max_eq in cc)

pub Pending-cases :
    (n : ℕ) (c : NodeDataContainer) (lo hi : ℕ) (m : Message)
    → Pending n c m lo hi
    → ((m ≡ no_message) × (c.preallocations_mutex ≡ false) × Left n c lo hi)
      ⊎ (c.preallocations_mutex ≡ true)
Pending-cases n c lo hi no_message h = inl (refl, h.0, h.1)
Pending-cases n c lo hi allocate_guid h = inr h.0
Pending-cases n c lo hi (allocated_guid g) h = inr h.0

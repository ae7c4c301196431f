-- ===== src/Distributed/Cache/Returns.antt =====
-- The parts of a reservation return when the numbers fit their fields (include/distributed/object_cache.h
-- and object_repository.h).
use ocr_vx.Prelude.{ℕ, ◌+◌, ◌^◌, ◌<◌, ◌≡◌, refl, arith, List, ◌++◌, false, Option, some, length}
use ocr_vx.Distributed.Guid.{make_guid}
use ocr_vx.Distributed.Packing.{make_guid_lem}
use ocr_vx.Distributed.Repository.{Repository, push_objects}
use ocr_vx.Distributed.Cache.{NodeDataContainer, take_next, refill, preallocate_count}
use ocr_vx.Distributed.Cache.Ledger.{word}
use ocr_vx.Distributed.Cache.Words.{get_object_id-word, Block, refill-Block}

pub makes : (n x : ℕ) → n < 2 ^ 32 → x < 2 ^ 31 → make_guid 32 n x ≡ some (word n x)
makes n x p q = make_guid_lem 32 (omega arith) n x p q

pub push_objects-some :
    {A : Type 0} (n : ℕ) (ptrs : List (Option A)) (r : Repository A)
    → n < 2 ^ 32
    → length r.data_ < 2 ^ 31
    → (r' : Repository A) × (push_objects n ptrs r ≡ some (word n (length r.data_), r'))
unfolding push_objects
push_objects-some n ptrs r p q =
    (record r { data_ = r.data_ ++ ptrs }, rw (makes n (length r.data_) p q) refl)

pub take_next-some :
    (n lo hi : ℕ) (c : NodeDataContainer)
    → Block n c lo hi
    → (c' : NodeDataContainer) × (take_next n c ≡ some (word n lo, c'))
unfolding take_next
take_next-some n lo hi c b = (
  record {
    preallocation_next = word n (lo + 1);
    preallocation_max = c.preallocation_max;
    preallocations_mutex = false;
  },
  rw
      (
        b.next_eq,
        get_object_id-word n lo b.node_fits (omega (arith, b.nonempty, b.fits)),
        makes n (lo + 1) b.node_fits (omega (arith, b.nonempty, b.fits)),
      )
      refl,
)

pub refill-some :
    (n x : ℕ) (c : NodeDataContainer)
    → n < 2 ^ 32
    → x + preallocate_count < 2 ^ 31
    → (c' : NodeDataContainer) × (refill n (word n x) c ≡ some c')
      × Block n c' x (x + preallocate_count)
unfolding refill
refill-some n x c p q =
    let c' : NodeDataContainer = record c {
      preallocation_next = word n x;
      preallocation_max = word n (x + preallocate_count);
    } in
    let filled : refill n (word n x) c ≡ some c' =
      rw (get_object_id-word n x p (omega (arith, q)), makes n (x + preallocate_count) p q) refl in
    (c', filled, refill-Block n x c c' p (omega (arith, q)) filled)

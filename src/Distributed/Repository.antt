-- ===== src/Distributed/Repository.antt =====
-- The objects that a node owns: `object_repository` of include/distributed/object_repository.h, with
-- `add_mapped_object` and `clear` of src/distributed/ocr_distributed.cpp. `me` is the node, `nodes`
-- the number of nodes; a pointer is `none` if it is null. The vector's size is the next object's number.
use ocr_vx.Prelude.{
  ℕ, Bool, false, Option, none, some, List, [], ◌∷◌, ◌++◌, ◌==◌, ltb, if◌then◌else◌, length,
  get_elem?, set, replicate,
}
use ocr_vx.Distributed.Guid.{is_mapped, get_node_id, get_object_id, make_guid}
use ocr_vx.Distributed.Guid.{get_mapped_node_id}
use ocr_vx.Distributed.Tables.{find, insert, erase_key}
use ocr_vx.Prelude.Options.{◌>>=◌, ◌>>◌, require}

pub record Repository (A : Type 0) : Type 0 where
  pub data_ : List (Option A)
  pub mapped_objects_ : List (ℕ × Option A)
  pub mapped_objects_graveyard_ : List (ℕ × Option A)

module _ {A : Type 0} where
  -- The first item keeps a GUID from being 0, the second is the affinity object's.
  abbrev pub new_repository : Repository A
  new_repository = record {
    data_ = none ∷ none ∷ [];
    mapped_objects_ = [];
    mapped_objects_graveyard_ = [];
  }

  unfoldable pub clear : Repository A → Repository A
  clear r = record r { data_ = []; mapped_objects_ = []; mapped_objects_graveyard_ = [] }

  unfoldable pub in_data : ℕ → Repository A → Option Bool
  in_data g r = do oid ← get_object_id 32 g; some (ltb oid (length r.data_))

  -- Null stands for an object that is not created yet.
  unfoldable pub found_or_null : Option (Option A) → Option A
  found_or_null none = none
  found_or_null (some ptr) = ptr

  unfoldable pub get_unmapped : ℕ → Repository A → Option (Option A)
  get_unmapped g r = do oid ← get_object_id 32 g; get_elem? r.data_ oid

  unfoldable pub add_mapped_object : ℕ → Option A → Repository A → Option (Bool × Repository A)
  add_mapped_object g ptr r = do
    require (is_mapped 32 g)
    let added = insert g ptr r.mapped_objects_
    some (added.0, record r { mapped_objects_ = added.1 })

module _ {A : Type 0} (me : ℕ) where
  -- The objects that are pushed get the GUID of the first of them.
  unfoldable pub push_objects : List (Option A) → Repository A → Option (ℕ × Repository A)
  push_objects ptrs r = do
    g ← make_guid 32 me (length r.data_)
    some (g, record r { data_ = r.data_ ++ ptrs })

  unfoldable pub add_object : Option A → Repository A → Option (ℕ × Repository A)
  add_object ptr r = push_objects (ptr ∷ []) r

  unfoldable pub preallocate_object : Repository A → Option (ℕ × Repository A)
  preallocate_object r = push_objects (none ∷ []) r

  unfoldable pub preallocate_objects : ℕ → Repository A → Option (ℕ × Repository A)
  preallocate_objects count r = push_objects (replicate count none) r

module _ (nodes me : ℕ) where
  -- `assert(g.get_mapped_node_id() == compute_node::get_my_id(ctx))` and the like.
  unfoldable pub home_of : Option ℕ → Option (Unit {0})
  home_of node = do n ← node; require (n == me)

  unfoldable pub owned_here : ℕ → Option (Unit {0})
  owned_here g = home_of (get_node_id 32 nodes g)

  unfoldable pub mapped_here : ℕ → Option (Unit {0})
  mapped_here g = do require (is_mapped 32 g); home_of (get_mapped_node_id 32 nodes g)

module _ {A : Type 0} (nodes me : ℕ) where
  unfoldable pub set_object : ℕ → Option A → Repository A → Option (Repository A)
  set_object g ptr r = do
    owned_here nodes me g
    oid ← get_object_id 32 g
    require (ltb oid (length r.data_))
    some (record r { data_ = set r.data_ oid ptr })

  unfoldable pub get_object : ℕ → Repository A → Option (Option A)
  get_object g r = do
    owned_here nodes me g
    if is_mapped 32 g then some (found_or_null (find g r.mapped_objects_)) else get_unmapped g r

  unfoldable pub remove_object : ℕ → Repository A → Option (Option A × Repository A)
  remove_object g r = do
    owned_here nodes me g
    oid ← get_object_id 32 g
    res ← get_elem? r.data_ oid
    some (res, record r { data_ = set r.data_ oid none })

  -- The node's own GUIDs are the only ones whose number is looked at.
  unfoldable pub validate : ℕ → Repository A → Option Bool
  validate g r = do node ← get_node_id 32 nodes g; if node == me then in_data g r else some false

  unfoldable pub get_mapped_object : ℕ → Repository A → Option (Option A)
  get_mapped_object g r = do mapped_here nodes me g; find g r.mapped_objects_

  unfoldable pub try_get_mapped_object : ℕ → Repository A → Option (Option A)
  try_get_mapped_object g r = do
    mapped_here nodes me g
    some (found_or_null (find g r.mapped_objects_))

  unfoldable pub remove_mapped_object : ℕ → Bool → Repository A → Option (Option A × Repository A)
  remove_mapped_object g archive r = do
    mapped_here nodes me g
    res ← find g r.mapped_objects_
    some (
      res,
      record r {
        mapped_objects_ = erase_key g r.mapped_objects_;
        mapped_objects_graveyard_ =
            if archive
            then r.mapped_objects_graveyard_ ++ (g, res) ∷ []
            else r.mapped_objects_graveyard_;
      },
    )

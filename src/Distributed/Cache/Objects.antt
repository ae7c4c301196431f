-- ===== src/Distributed/Cache/Objects.antt =====
-- The copies of other nodes' objects: `objects` of `node_data_container` and the calls on it in
-- include/distributed/object_cache.h, src/distributed/ocr_distributed.cpp and `guided` of
-- include/distributed/ocr_distributed.h. A call has the table of the node that owns the GUID; `fetched`
-- is what `Communicator::fetch` gets from that node.
use ocr_vx.Prelude.{
  arith, ℕ, Bool, true, false, Option, none, some, List, [], ◌∷◌, ◌==◌, if◌then◌else◌, ◌≡◌, refl,
  ◌∙◌, Bool-cases, inl, inr, ==_refl, ==_iff,
}
use ocr_vx.One.Types.{null_guid}
use ocr_vx.Distributed.Guid.{is_mapped, get_node_id}
use ocr_vx.Distributed.Tables.{find, insert}
use ocr_vx.Prelude.Options.{◌>>=◌}
use ocr_vx.Distributed.Repository.{Repository, get_object, try_get_mapped_object}

abbrev pub Objects : Type 0 → Type 0
Objects A = List (ℕ × Option A)

-- `is_local`
unfoldable pub is_local : ℕ → ℕ → ℕ → Option Bool
is_local nodes me g = do node ← get_node_id 32 nodes g; some (node == me)

module _ {A : Type 0} where
  -- A write through the accessor.
  unfoldable pub write_accessor : ℕ → Option A → Objects A → Objects A
  write_accessor g ptr [] = []
  write_accessor g ptr ((k, a) ∷ xs) =
      let rest = write_accessor g ptr xs in if k == g then (k, ptr) ∷ xs else (k, a) ∷ rest

  unfoldable pub get_cached : Option A → ℕ → Objects A → Option A × Objects A
  get_cached fetched g objects = elim (find g objects) [
    | none ↦ (fetched, write_accessor g fetched (insert g none objects).1)
    | some ptr ↦ (ptr, objects)
  ]

  -- The object must be there.
  unfoldable pub get_object_locally : ℕ → Objects A → Option (Option A × Objects A)
  get_object_locally g objects = elim (find g objects) [
    | none ↦ none
    | some ptr ↦ some (ptr, objects)
  ]

  -- A miss leaves a null pointer.
  unfoldable pub try_get_cached : ℕ → Objects A → Option A × Objects A
  try_get_cached g objects = elim (find g objects) [
    | none ↦ (none, (insert g none objects).1)
    | some ptr ↦ (ptr, objects)
  ]

  -- An object that is there stays, and a null pointer is replaced.
  unfoldable pub add_cached : ℕ → Option A → Objects A → Bool × Objects A
  add_cached g obj objects = elim (find g objects) [
    | none ↦ (true, write_accessor g obj (insert g none objects).1)
    | some none ↦ (true, write_accessor g obj objects)
    | some (some old) ↦ (false, objects)
  ]

module _ {A : Type 0} (nodes me : ℕ) (r : Repository A) where
  unfoldable pub local_object : ℕ → Objects A → Option (Option A × Objects A)
  local_object g objects = do
    ptr ← (if is_mapped 32 g then try_get_mapped_object nodes me g r else get_object nodes me g r)
    some (ptr, objects)

  unfoldable pub from_guid : ℕ → Objects A → Option (Option A × Objects A)
  from_guid g objects = do
    here ← is_local nodes me g
    if here then local_object g objects else get_object_locally g objects

  unfoldable pub ensured : ℕ → Objects A → Option (Option A × Objects A)
  ensured g objects = do ptr ← get_object nodes me g r; some (ptr, objects)

  unfoldable pub ensure : Option A → ℕ → Objects A → Option (Option A × Objects A)
  ensure fetched g objects = do
    here ← is_local nodes me g
    if here then ensured g objects else some (get_cached fetched g objects)

  unfoldable pub try_get_object_locally : ℕ → Objects A → Option (Option A × Objects A)
  try_get_object_locally g objects = do
    here ← is_local nodes me g
    if here then from_guid g objects else some (try_get_cached g objects)

  -- The handler of a message gets a remote object that it needs.
  unfoldable pub fetch_needed : Option A → ℕ → Objects A → Option (Objects A)
  fetch_needed fetched g objects = do
    p ← try_get_object_locally g objects
    some (elim p.0 [ none ↦ (add_cached g fetched p.1).1 | some obj ↦ p.1 ])

  -- One round of the loops over `to_fetch` and `needed`: a null or local GUID is passed over.
  unfoldable pub prefetch : Option A → ℕ → Objects A → Option (Objects A)
  prefetch fetched g objects = if g == null_guid then some objects else (do
    here ← is_local nodes me g
    if here then some objects else fetch_needed fetched g objects)

  -- A loop of the handler; `fetched` is what the owner of each GUID sends.
  unfoldable pub prefetch_all : (ℕ → Option A) → List ℕ → Objects A → Option (Objects A)
  prefetch_all fetched [] objects = some objects
  prefetch_all fetched (g ∷ gs) objects = do
    after ← prefetch (fetched g) g objects
    prefetch_all fetched gs after

pub find-write :
    {A : Type 0} (g h : ℕ) (ptr old : Option A) (xs : Objects A)
    → find g xs ≡ some old
    → find h (write_accessor g ptr xs) ≡ (if h == g then some ptr else find h xs)
unfolding find write_accessor
find-write g h ptr old [] e = cc
find-write g h ptr old ((k, a) ∷ xs) e = elim (Bool-cases (k == g)) [
  | inl here ↦ rw here (let f : k ≡ g = (==_iff k g).0 here in ground arith)
  | inr there ↦
      rw there (let ih = find-write g h ptr old xs (rw there at e) in ground (arith, there, ih))
]

pub find-insert :
    {A : Type 0} (g h : ℕ) (a : A) (xs : List (ℕ × A))
    → find g xs ≡ none
    → find h (insert g a xs).1 ≡ (if h == g then some a else find h xs)
unfolding find insert
find-insert g h a [] e = ground arith
find-insert g h a ((k, b) ∷ xs) e = elim (Bool-cases (k == g)) [
  | inl here ↦ absurd (let f = rw here at e in cc)
  | inr there ↦
      rw there (let ih = find-insert g h a xs (rw there at e) in ground (arith, there, ih))
]

pub try_get_cached-none :
    {A : Type 0} (g : ℕ) (xs : Objects A)
    → find g xs ≡ none
    → try_get_cached g xs ≡ (none, (insert g none xs).1)
unfolding try_get_cached
try_get_cached-none g xs e = rw (try_get_cached, e) refl

pub try_get_cached-some :
    {A : Type 0} (g : ℕ) (ptr : Option A) (xs : Objects A)
    → find g xs ≡ some ptr
    → try_get_cached g xs ≡ (ptr, xs)
unfolding try_get_cached
try_get_cached-some g ptr xs e = rw (try_get_cached, e) refl

pub add_cached-null :
    {A : Type 0} (g : ℕ) (ptr : Option A) (xs : Objects A)
    → find g xs ≡ some none
    → add_cached g ptr xs ≡ (true, write_accessor g ptr xs)
unfolding add_cached
add_cached-null g ptr xs e = rw (add_cached, e) refl

get_cached-some :
    {A : Type 0} (g : ℕ) (fetched ptr : Option A) (xs : Objects A)
    → find g xs ≡ some ptr
    → get_cached fetched g xs ≡ (ptr, xs)
unfolding get_cached
get_cached-some g fetched ptr xs e = rw (get_cached, e) refl

module _ {A : Type 0} (nodes me : ℕ) (r : Repository A) (g : ℕ)
    (remote : is_local nodes me g ≡ some false) where
  -- While a handler fetches a remote object that the table did not have, the table has a null pointer,
  -- and `ensure` gives that pointer to other threads and fetches nothing.
  pub try_get_object_locally-ensure :
      (objects : Objects A)
      → find g objects ≡ none
      → (after : Objects A) × (try_get_object_locally nodes me r g objects ≡ some (none, after))
        × ((fetched : Option A) → ensure nodes me r fetched g after ≡ some (none, after))
  unfolding try_get_object_locally ensure
  try_get_object_locally-ensure objects miss =
      let found = find-insert g g none objects miss in
      (
        (insert g none objects).1,
        rw (remote, try_get_cached-none g objects miss) refl,
        λ fetched. rw (remote, get_cached-some g fetched none _ (found ∙ rw (==_refl g) refl)) refl,
      )

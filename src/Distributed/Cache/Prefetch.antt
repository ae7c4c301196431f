-- ===== src/Distributed/Cache/Prefetch.antt =====
-- What a message's handler finds in the table of copies after it has got the remote objects that it needs
-- (`command_processor::process_message` in src/distributed/command_processing.cpp).
use ocr_vx.Prelude.{
  arith, ℕ, Bool, true, false, not, ◌&&◌, ◌||◌, Option, none, some, List, [], ◌∷◌, ◌==◌,
  if◌then◌else◌, ◌≡◌, refl, ◌∙◌, ap, subst, contains, Bool-cases, inl, inr, ==_refl, ==_iff,
}
use ocr_vx.One.Types.{null_guid}
use ocr_vx.Distributed.Tables.{find, insert}
use ocr_vx.Distributed.Repository.{Repository}
use ocr_vx.Distributed.Cache.Objects.{
  Objects, is_local, write_accessor, try_get_object_locally, fetch_needed, prefetch, prefetch_all,
  find-write, find-insert, try_get_cached-none, try_get_cached-some, add_cached-null,
}

-- What is in the table, or else what is fetched.
abbrev pub or_fetched : {A : Type 0} → Option (Option A) → Option A → Option A
or_fetched (some (some obj)) fetched = some obj
or_fetched _ fetched = fetched

module _ {A : Type 0} (nodes me : ℕ) (r : Repository A) (g : ℕ)
    (remote : is_local nodes me g ≡ some false) where
  Fills : Option A → Objects A → Option (Option A) → Type 0
  Fills fetched objects had =
      (after : Objects A) × (fetch_needed nodes me r fetched g objects ≡ some after)
      × ((h : ℕ)
          → find h after ≡ (if h == g then some (or_fetched had fetched) else find h objects))

  fetch_needed-Fills :
      (fetched : Option A) (objects : Objects A) (had : Option (Option A))
      → find g objects ≡ had
      → Fills fetched objects had
  unfolding Fills fetch_needed try_get_object_locally
  fetch_needed-Fills fetched objects none e =
      let inserted = (insert g none objects).1 in
      let found : find g inserted ≡ some none =
        find-insert g g none objects e ∙ rw (==_refl g) refl in
      (
        write_accessor g fetched inserted,
        rw
            (
              remote,
              try_get_cached-none g objects e,
              try_get_cached-none g objects e,
              add_cached-null g fetched inserted found,
            )
            refl,
        λ h. find-write g h fetched none inserted found ∙ elim (Bool-cases (h == g)) [
          | inl here ↦ rw here refl
          | inr there ↦ rw (there, find-insert g h none objects e, there) refl
        ],
      )
  fetch_needed-Fills fetched objects (some none) e = (
    write_accessor g fetched objects,
    rw
        (
          remote,
          try_get_cached-some g none objects e,
          try_get_cached-some g none objects e,
          add_cached-null g fetched objects e,
        )
        refl,
    λ h. find-write g h fetched none objects e,
  )
  fetch_needed-Fills fetched objects (some (some obj)) e = (
    objects,
    rw
        (
          remote,
          try_get_cached-some g (some obj) objects e,
          try_get_cached-some g (some obj) objects e,
        )
        refl,
    λ h. elim (Bool-cases (h == g)) [
      | inl here ↦ rw here (ap (λ k. find k objects) ((==_iff h g).0 here) ∙ e)
      | inr there ↦ rw there refl
    ],
  )

prefetch-find :
    {A : Type 0} (nodes me : ℕ) (r : Repository A) (g : ℕ) (here : Bool)
    → is_local nodes me g ≡ some here
    → (fetched : Option A) (objects : Objects A)
    → (after : Objects A) × (prefetch nodes me r fetched g objects ≡ some after)
      × ((h : ℕ)
          → find h after ≡ (
              if (h == g) && not ((g == null_guid) || here)
              then some (or_fetched (find g objects) fetched)
              else find h objects))
unfolding prefetch Fills
prefetch-find nodes me r g true at_me fetched objects = (
  objects,
  elim (Bool-cases (g == null_guid)) [
    | inl null ↦ rw null refl
    | inr block ↦ rw (block, at_me) refl
  ],
  λ h. ground arith,
)
prefetch-find nodes me r g false at_other fetched objects = elim (Bool-cases (g == null_guid)) [
  | inl null ↦ (objects, rw null refl, λ h. rw null (ground arith))
  | inr block ↦
      let f = fetch_needed-Fills nodes me r g at_other fetched objects (find g objects) refl in
      (f.0, rw (block, at_other) f.1, λ h. f.2 h ∙ rw block (ground arith))
]

-- The nodes of the GUIDs are known, and `here` says which are local.
abbrev pub AllKnown : ℕ → ℕ → (ℕ → Bool) → List ℕ → Type 0
AllKnown nodes me here [] = Unit {0}
AllKnown nodes me here (g ∷ gs) = (is_local nodes me g ≡ some (here g)) × AllKnown nodes me here gs

or_fetched_twice :
    {A : Type 0} (had : Option (Option A)) (fetched : Option A)
    → or_fetched (some (or_fetched had fetched)) fetched ≡ or_fetched had fetched
or_fetched_twice none none = refl
or_fetched_twice none (some obj) = refl
or_fetched_twice (some none) none = refl
or_fetched_twice (some none) (some obj) = refl
or_fetched_twice (some (some old)) fetched = refl

-- What a handler's loop over its needed GUIDs does, the nodes of the GUIDs being known. For each GUID of
-- the list that is not null and belongs to another node, the table has afterwards the object that
-- was there or else the fetched one, also if the list has the GUID twice. For each other GUID it has
-- what it had.
pub prefetch_all-find :
    {A : Type 0} (nodes me : ℕ) (r : Repository A) (here : ℕ → Bool) (fetched : ℕ → Option A)
    (gs : List ℕ)
    → AllKnown nodes me here gs
    → (objects : Objects A)
    → (after : Objects A) × (prefetch_all nodes me r fetched gs objects ≡ some after)
      × ((h : ℕ)
          → find h after ≡ (
              if contains h gs && not ((h == null_guid) || here h)
              then some (or_fetched (find h objects) (fetched h))
              else find h objects))
unfolding prefetch_all contains
prefetch_all-find nodes me r here fetched [] known objects = (objects, refl, λ h. refl)
prefetch_all-find nodes me r here fetched (g ∷ gs) (known, others) objects =
    let (between, first, found) = prefetch-find nodes me r g (here g) known (fetched g) objects in
    let (after, loop, found_last) = prefetch_all-find nodes me r here fetched gs others between in
    (
      after,
      rw first loop,
      λ h. found_last h ∙ elim (Bool-cases (g == h)) [
        | inl same ↦
            let at_h : g ≡ h = (==_iff g h).0 same in
            subst
              (λ k.
                (if contains k gs && not ((k == null_guid) || here k)
                  then some (or_fetched (find k between) (fetched k))
                  else find k between)
                ≡ (if ((g == k) || contains k gs) && not ((k == null_guid) || here k)
                    then some (or_fetched (find k objects) (fetched k))
                    else find k objects))
              at_h (ground (arith, found g, or_fetched_twice (find g objects) (fetched g)))
        | inr differs ↦ ground (arith, found h, differs)
      ],
    )

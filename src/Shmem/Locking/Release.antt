-- ===== src/Shmem/Locking/Release.antt =====
-- A task that got a block in two preslots and releases it (`edt::remove_db` in src/ocr.cpp,
-- `release_db_internal` in include/shmem/ocr_tbb_locking.h).
use ocr_vx.Prelude.{
  ℕ, suc, ◌-◌, ◌^◌, true, false, none, some, List, [], ◌∷◌, ◌==◌, ◌≡◌, ◌≢◌, refl, arith, ==_refl,
  ap, ◌∙◌, set, get_elem?,
}
use ocr_vx.One.Types.{Mode, db_mode_rw, null_guid}
use ocr_vx.Shmem.Locking.{
  done, ◌>>=◌, DbData, LockGraph, set_db_data, set_node_data, new_db_data, release_lock,
  unlock_shared, writer_or, list_or,
}
use ocr_vx.Shmem.Locking.Calls.{
  unlock, wake, find_guid, release_db_internal, remove_db_from, remove_db,
}

-- The second unlock, of a block that nobody holds
unlock-free :
    (s : LockGraph) (g : ℕ)
    → s.dbs g ≡ new_db_data false
    → unlock g db_mode_rw s
      ≡ done (set_db_data s g (record (new_db_data false) { shared_locks = 2 ^ 32 - 1 }))
unfolding unlock release_lock unlock_shared wake
unlock-free s g free =
    ap (λ (d : DbData). release_lock db_mode_rw d >>= λ r. wake g r.0 (set_db_data s g r.1)) free

unlock-held :
    (s : LockGraph) (g : ℕ)
    → s.dbs g ≡ new_db_data true
    → unlock g db_mode_rw s ≡ done (set_db_data s g (new_db_data false))
unfolding unlock release_lock unlock_shared wake writer_or list_or
unlock-held s g mine =
    ap (λ (d : DbData). release_lock db_mode_rw d >>= λ r. wake g r.0 (set_db_data s g r.1)) mine

other_than_null : (g : ℕ) → g ≢ null_guid → (null_guid == g) ≡ false
other_than_null g h = ground (arith, h)

not_null : (g : ℕ) → g ≢ null_guid → (g == null_guid) ≡ false
not_null g h = ground (arith, h)

-- The task without block `g` among those it locked
abbrev without_lock : LockGraph → ℕ → LockGraph
without_lock s t =
    set_node_data s t
      (record (s.edts t) { ordered_guids = set (s.edts t).ordered_guids 0 null_guid })

release-locked :
    (s : LockGraph) (t g : ℕ)
    → (s.edts t).ordered_guids ≡ g ∷ []
    → (s.edts t).lock_modes ≡ db_mode_rw ∷ []
    → s.dbs g ≡ new_db_data true
    → release_db_internal t g db_mode_rw s
      ≡ done (set_db_data (without_lock s t) g (new_db_data false))
unfolding release_db_internal find_guid
release-locked s t g ordered modes mine =
    rw (found, release_db_internal) (rw first (unlock-held (without_lock s t) g mine))
  where
    found : find_guid g (s.edts t).ordered_guids ≡ some 0
    found = rw (ordered, find_guid) (rw (==_refl g) refl)

    first : get_elem? (s.edts t).lock_modes 0 ≡ some db_mode_rw
    first = rw (modes, get_elem?) refl

release-again :
    (s : LockGraph) (t g : ℕ)
    → (s.edts t).ordered_guids ≡ null_guid ∷ []
    → g ≢ null_guid
    → s.dbs g ≡ new_db_data false
    → release_db_internal t g db_mode_rw s
      ≡ done (set_db_data s g (record (new_db_data false) { shared_locks = 2 ^ 32 - 1 }))
unfolding release_db_internal find_guid
release-again s t g ordered block free = rw (missing, release_db_internal) (unlock-free s g free)
  where
    missing : find_guid g (s.edts t).ordered_guids ≡ none
    missing = rw (ordered, find_guid) (rw (other_than_null g block) refl)

abbrev forget : LockGraph → ℕ → ℕ → LockGraph
forget s t i =
    set_node_data s t (record (s.edts t) { held_dbs = set (s.edts t).held_dbs i null_guid })

remove-hit :
    (t i g : ℕ) (m : Mode) (hs : List ℕ) (ms : List Mode) (s s' : LockGraph)
    → g ≢ null_guid
    → release_db_internal t g m s ≡ done s'
    → remove_db_from t i (g ∷ hs) (m ∷ ms) g s ≡ remove_db_from t (suc i) hs ms g (forget s' t i)
unfolding remove_db_from
remove-hit t i g m hs ms s s' block released =
    rw (==_refl g) (rw (not_null g block) (rw released refl))

module _ (s : LockGraph) (t g : ℕ) (block : g ≢ null_guid)
    (ordered : (s.edts t).ordered_guids ≡ g ∷ []) (modes : (s.edts t).lock_modes ≡ db_mode_rw ∷ [])
    (twice : (s.edts t).held_dbs ≡ g ∷ g ∷ [])
    (twice_modes : (s.edts t).held_db_modes ≡ db_mode_rw ∷ db_mode_rw ∷ [])
    (mine : s.dbs g ≡ new_db_data true) where
  abbrev once : LockGraph
  once = forget (set_db_data (without_lock s t) g (new_db_data false)) t 0

  once_ordered : (once.edts t).ordered_guids ≡ null_guid ∷ []
  once_ordered = rw (==_refl t) (ap (λ gs. set gs 0 null_guid) ordered)

  once_free : once.dbs g ≡ new_db_data false
  once_free = rw (==_refl g) refl

  abbrev underflown : LockGraph
  underflown =
      forget (set_db_data once g (record (new_db_data false) { shared_locks = 2 ^ 32 - 1 })) t 1

  -- A task that got the same block in two preslots in mode RW, and is the only one that holds it,
  -- releases it: the call returns, but it has unlocked the block twice, and the count of shared locks
  -- has passed below zero to 2 ^ 32 - 1. (The block is not null.)
  pub remove_db-underflows :
      (s' : LockGraph) × (remove_db t g s ≡ done s') × ((s'.dbs g).shared_locks ≡ 2 ^ 32 - 1)
  unfolding remove_db remove_db_from
  remove_db-underflows = (
    underflown,
    ap (λ hs. remove_db_from t 0 hs (s.edts t).held_db_modes g s) twice
        ∙ ap (λ ms. remove_db_from t 0 (g ∷ g ∷ []) ms g s) twice_modes
        ∙ remove-hit t 0 g db_mode_rw (g ∷ []) (db_mode_rw ∷ []) s _ block
            (release-locked s t g ordered modes mine)
        ∙ remove-hit t 1 g db_mode_rw [] [] once _ block
            (release-again once t g once_ordered block once_free),
    rw (==_refl g) refl,
  )

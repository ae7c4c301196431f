-- ===== src/Shmem/Locking/Ordering.antt =====
-- The order in which a task locks its blocks, and the modes (`satisfy_event_internal__locked` in
-- include/shmem/ocr_tbb_locking.h): each block once, by rising GUID.
use ocr_vx.Prelude.{
  ℕ, zero, suc, ◌+◌, ◌-◌, ◌≤◌, false, some, List, [], ◌∷◌, ◌==◌, if◌then◌else◌, ◌≡◌, inl, inr, refl,
  arith, length, get_elem?, take, replicate, length-replicate, Bool-cases, ap, ◌∙◌, subst,
}
use ocr_vx.One.Types.{
  Mode, db_mode_null, db_mode_ro, db_mode_rw, db_mode_const, db_mode_ew, null_guid,
}
use ocr_vx.Shmem.Event.{TbbPreslot}
use ocr_vx.Shmem.Locking.{done, NodeData}
use ocr_vx.Shmem.Locking.Block.{is_null}
use ocr_vx.Shmem.Locking.Modes.{combine_modes, order_to_mode, mode_to_order, join}
use ocr_vx.Shmem.Locking.Calls.{collect, sort_guids, resize, combine_at, combine_all, order_locks}
use ocr_vx.Shmem.Locking.Consistent.{TaskIsValid}
use ocr_vx.Shmem.Locking.Attempts.{Succeeds}
use ocr_vx.Shmem.Locking.Wakes.{Succeeds->>=}
use ocr_vx.Shmem.Locking.Sorting.{
  Increasing-sort_guids, Distinct-collect, Increasing-sorted, length-sort_guids, length-collect,
}

combine-lockable : (a b : Mode) → (k : Mode) × (combine_modes a b ≡ some k) × (is_null k ≡ false)
unfolding join combine_modes order_to_mode mode_to_order
combine-lockable db_mode_null b = (join db_mode_null b, ground arith, ground arith)
combine-lockable db_mode_ro b = (join db_mode_ro b, ground arith, ground arith)
combine-lockable db_mode_rw b = (join db_mode_rw b, ground arith, ground arith)
combine-lockable db_mode_const b = (join db_mode_const b, ground arith, ground arith)
combine-lockable db_mode_ew b = (join db_mode_ew b, ground arith, ground arith)

abbrev pub AllLocks : List Mode → Type 0
AllLocks [] = Unit {0}
AllLocks (m ∷ ms) = (is_null m ≡ false) × AllLocks ms

abbrev pub ModesFor : List ℕ → List Mode → Type 0
ModesFor gs ms = (length ms ≡ length gs) × AllLocks ms

AllLocks-get :
    (ms : List Mode) (i : ℕ) (m : Mode) → AllLocks ms → get_elem? ms i ≡ some m → is_null m ≡ false
AllLocks-get [] i m l h = cc
AllLocks-get (n ∷ ms) zero m l h = ground (arith, l.0)
AllLocks-get (n ∷ ms) (suc i) m l h = AllLocks-get ms i m l.1 h

AllLocks-replicate : (n : ℕ) → AllLocks (replicate n db_mode_ro)
AllLocks-replicate zero = tt
AllLocks-replicate (suc n) = (refl, AllLocks-replicate n)

pub combine_at-ModesFor :
    (g : ℕ) (m : Mode) (gs : List ℕ) (ms : List Mode)
    → ModesFor gs ms
    → Succeeds (ModesFor gs) (combine_at g m gs ms)
unfolding combine_at Succeeds
combine_at-ModesFor g m [] [] f = (refl, tt)
combine_at-ModesFor g m [] (n ∷ ms) f = absurd (omega (arith, f.0))
combine_at-ModesFor g m (h ∷ gs) [] f = absurd (omega (arith, f.0))
combine_at-ModesFor g m (h ∷ gs) (n ∷ ms) f =
    Succeeds->>= (ModesFor gs) (ModesFor (h ∷ gs)) (combine_at g m gs ms) _
      (combine_at-ModesFor g m gs ms (omega (arith, f.0), f.1.1))
      λ rest k. elim (Bool-cases (h == g)) [
        | inl here ↦
            let (j, joined, locks) = combine-lockable n m in
            rw here (rw joined (ap suc k.0, (locks, k.1)))
        | inr there ↦ rw there (ap suc k.0, (f.1.0, k.1))
      ]

combine_all-ModesFor :
    (ps : List TbbPreslot) (gs : List ℕ) (ms : List Mode)
    → ModesFor gs ms
    → Succeeds (ModesFor gs) (combine_all ps gs ms)
unfolding combine_all Succeeds
combine_all-ModesFor [] gs ms f = f
combine_all-ModesFor (p ∷ ps) gs ms f =
    Succeeds->>= (ModesFor gs) (ModesFor gs) _ _ at_p (λ ms' k. combine_all-ModesFor ps gs ms' k)
  where
    at_p :
        Succeeds
          (ModesFor gs)
          (if p.data_guid == null_guid then done ms else combine_at p.data_guid p.mode gs ms)
    at_p = elim (Bool-cases (p.data_guid == null_guid)) [
      | inl no_block ↦ rw no_block f
      | inr block ↦ rw block (combine_at-ModesFor p.data_guid p.mode gs ms f)
    ]

pub add_one : (i : ℕ) → i + 1 ≡ suc i
add_one i = omega arith

take_nil : (n : ℕ) → take {A = Mode} n [] ≡ []
take_nil zero = refl
take_nil (suc n) = refl

-- A task has no modes before.
pub resize-ModesFor :
    (gs : List ℕ) (ms : List Mode) → ms ≡ [] → ModesFor gs (resize ms (length gs) db_mode_ro)
resize-ModesFor gs (m ∷ ms) h = cc
resize-ModesFor gs [] h =
    rw (take_nil (length gs)) (
      length-replicate (length gs - 0) db_mode_ro ∙ omega arith,
      AllLocks-replicate (length gs - 0),
    )

-- A task before it locks its blocks
pub record Ordered (e e' : NodeData) : Type 0 where
  pub valid : TaskIsValid e'
  pub starts : e'.acquired ≡ 0
  pub few : length e'.ordered_guids ≤ length e.preslots

pub order_locks-Ordered :
    (e : NodeData) → e.acquired ≡ 0 → e.lock_modes ≡ [] → Succeeds (Ordered e) (order_locks e)
unfolding order_locks Succeeds
order_locks-Ordered e starts fresh =
    Succeeds->>= (ModesFor (sort_guids (collect e.preslots []))) (Ordered e) _ _
      (combine_all-ModesFor e.preslots (sort_guids (collect e.preslots [])) _
        (resize-ModesFor (sort_guids (collect e.preslots [])) e.lock_modes fresh))
      λ ms f. record {
        valid = record {
          sizes = f.0;
          sorted = λ i g h le at_i next.
              Increasing-sorted (sort_guids (collect e.preslots [])) i g h
                (Increasing-sort_guids (collect e.preslots []) (Distinct-collect e.preslots [] tt))
                at_i
                (subst (λ k. get_elem? (sort_guids (collect e.preslots [])) k ≡ some h) (add_one i)
                  next);
          lockable = λ i m h. AllLocks-get ms i m f.1 h;
        };
        starts = starts;
        few =
            omega (arith, length-sort_guids (collect e.preslots []), length-collect e.preslots []);
      }

-- ===== src/Shmem/Locking/Covers.antt =====
-- A task locks exactly the blocks in its preslots (`satisfy_event_internal__locked` in
-- include/shmem/ocr_tbb_locking.h), each in a mode that covers the modes of all its preslots.
use ocr_vx.Prelude.{
  ℕ, Bool, true, false, not, ◌&&◌, ◌||◌, List, [], ◌∷◌, ◌++◌, ◌==◌, if◌then◌else◌, ◌≡◌, ◌⊎◌, inl,
  inr, refl, arith, contains, Bool-cases, sym, ap, ◌∙◌, ==_iff, ==_refl, length,
}
use ocr_vx.One.Types.{Mode, db_mode_ro, null_guid}
use ocr_vx.Shmem.Event.{TbbPreslot}
use ocr_vx.Shmem.Locking.{LockResult, done, assertion_failed, out_of_fuel, NodeData}
use ocr_vx.Shmem.Locking.Modes.{covers, combine_modes-IsJoin}
use ocr_vx.Shmem.Locking.Calls.{collect, sort_guids, combine_at, combine_all, order_locks, resize}
use ocr_vx.Shmem.Locking.Ordering.{resize-ModesFor, ModesFor, combine_at-ModesFor}
use ocr_vx.Shmem.Locking.Sorting.{contains-snoc, contains-sort_guids}
use ocr_vx.Shmem.Locking.Attempts.{Succeeds, Succeeds-map}
use ocr_vx.Shmem.Locking.Wakes.{Succeeds->>=}

-- Block `g` stands in the lists with a mode that covers `m`.
abbrev pub CoveredBy : ℕ → Mode → List ℕ → List Mode → Type 0
CoveredBy g m [] ms = ⊥
CoveredBy g m (h ∷ gs) [] = ⊥
CoveredBy g m (h ∷ gs) (n ∷ ms) = ((h ≡ g) × (covers n m ≡ true)) ⊎ CoveredBy g m gs ms

abbrev pub AllCovered : List TbbPreslot → List ℕ → List Mode → Type 0
AllCovered [] gs ms = Unit {0}
AllCovered (p ∷ ps) gs ms =
    ((p.data_guid ≡ null_guid) ⊎ CoveredBy p.data_guid p.mode gs ms) × AllCovered ps gs ms

covers_trans : (a b c : Mode) → covers a b ≡ true → covers b c ≡ true → covers a c ≡ true
covers_trans a b c h k = ground arith

abbrev pub in_preslots : ℕ → List TbbPreslot → Bool
in_preslots a [] = false
in_preslots a (p ∷ ps) = (p.data_guid == a) || in_preslots a ps

contains-collect :
    (a : ℕ) (ps : List TbbPreslot) (gs : List ℕ)
    → contains a (collect ps gs) ≡ (contains a gs || (not (a == null_guid) && in_preslots a ps))
unfolding collect
contains-collect a [] gs = ground arith
contains-collect a (p ∷ ps) gs = ground (
  arith,
  contains-collect a ps gs,
  contains-collect a ps (gs ++ (p.data_guid ∷ [])),
  contains-snoc a gs p.data_guid,
)

-- Each mode is covered by the one in its place.
abbrev Grows : List Mode → List Mode → Type 0
Grows [] [] = Unit {0}
Grows [] (n ∷ ns) = ⊥
Grows (m ∷ ms) [] = ⊥
Grows (m ∷ ms) (n ∷ ns) = (covers n m ≡ true) × Grows ms ns

covers_refl : (m : Mode) → covers m m ≡ true
covers_refl m = ground arith

Grows-refl : (ms : List Mode) → Grows ms ms
Grows-refl [] = tt
Grows-refl (m ∷ ms) = (covers_refl m, Grows-refl ms)

Grows-trans : (ls bs cs : List Mode) → Grows ls bs → Grows bs cs → Grows ls cs
Grows-trans [] [] [] h k = tt
Grows-trans (a ∷ ls) (b ∷ bs) (c ∷ cs) h k =
    (covers_trans c b a k.0 h.0, Grows-trans ls bs cs h.1 k.1)
Grows-trans [] (b ∷ bs) cs h k = absurd h
Grows-trans [] [] (c ∷ cs) h k = absurd k
Grows-trans (a ∷ ls) [] cs h k = absurd h
Grows-trans (a ∷ ls) (b ∷ bs) [] h k = absurd k

CoveredBy-Grows :
    (g : ℕ) (m : Mode) (gs : List ℕ) (ms ns : List Mode)
    → Grows ms ns
    → CoveredBy g m gs ms
    → CoveredBy g m gs ns
CoveredBy-Grows g m [] ms ns h c = absurd c
CoveredBy-Grows g m (x ∷ gs) [] ns h c = absurd c
CoveredBy-Grows g m (x ∷ gs) (k ∷ ms) [] h c = absurd h
CoveredBy-Grows g m (x ∷ gs) (k ∷ ms) (n ∷ ns) h (inl here) =
    inl (here.0, covers_trans n k m h.0 here.1)
CoveredBy-Grows g m (x ∷ gs) (k ∷ ms) (n ∷ ns) h (inr there) =
    inr (CoveredBy-Grows g m gs ms ns h.1 there)

abbrev Combined : ℕ → Mode → List ℕ → List Mode → List Mode → Type 0
Combined g m gs ms r = Grows ms r × (contains g gs ≡ true → CoveredBy g m gs r)

combine_at-Combined :
    (g : ℕ) (m : Mode) (gs : List ℕ) (ms : List Mode)
    → length ms ≡ length gs
    → Succeeds (Combined g m gs ms) (combine_at g m gs ms)
unfolding combine_at Succeeds contains
combine_at-Combined g m [] [] same = (tt, λ h. cc)
combine_at-Combined g m [] (n ∷ ms) same = absurd (omega (arith, same))
combine_at-Combined g m (h ∷ gs) [] same = absurd (omega (arith, same))
combine_at-Combined g m (h ∷ gs) (n ∷ ms) same =
    Succeeds->>= (Combined g m gs ms) (Combined g m (h ∷ gs) (n ∷ ms)) (combine_at g m gs ms) _
      (combine_at-Combined g m gs ms (omega (arith, same)))
      λ rest k. elim (Bool-cases (h == g)) [
        | inl here ↦
            let j = combine_modes-IsJoin n m in
            rw here (
              rw (j.result)
                ((j.covers_first, k.0), λ x. inl ((==_iff h g).0 here, j.covers_second)))
        | inr there ↦
            rw there
              ((covers_refl n, k.0), λ x. inr (k.1 (ap (λ b. b || contains g gs) (sym there) ∙ x)))
      ]

AllCovered-Grows :
    (ps : List TbbPreslot) (gs : List ℕ) (ms ns : List Mode)
    → Grows ms ns
    → AllCovered ps gs ms
    → AllCovered ps gs ns
AllCovered-Grows [] gs ms ns h c = tt
AllCovered-Grows (p ∷ ps) gs ms ns h (inl null, c) = (inl null, AllCovered-Grows ps gs ms ns h c)
AllCovered-Grows (p ∷ ps) gs ms ns h (inr k, c) =
    (inr (CoveredBy-Grows p.data_guid p.mode gs ms ns h k), AllCovered-Grows ps gs ms ns h c)

-- Every block in the preslots is in the list.
abbrev AllIn : List TbbPreslot → List ℕ → Type 0
AllIn [] gs = Unit {0}
AllIn (p ∷ ps) gs = ((p.data_guid ≡ null_guid) ⊎ (contains p.data_guid gs ≡ true)) × AllIn ps gs

AllIn-ordered :
    (qs ps : List TbbPreslot)
    → ((a : ℕ) → in_preslots a ps ≡ true → in_preslots a qs ≡ true)
    → AllIn ps (sort_guids (collect qs []))
unfolding contains
AllIn-ordered qs [] among = tt
AllIn-ordered qs (p ∷ ps) among = (head, AllIn-ordered qs ps (λ a h. among a (ground arith)))
  where
    head : (p.data_guid ≡ null_guid) ⊎ (contains p.data_guid (sort_guids (collect qs [])) ≡ true)
    head = elim (Bool-cases (p.data_guid == null_guid)) [
      | inl null ↦ inl ((==_iff _ _).0 null)
      | inr block ↦ inr (
          contains-sort_guids p.data_guid (collect qs [])
          ∙ contains-collect p.data_guid qs []
          ∙ rw (block, among p.data_guid (rw (==_refl p.data_guid) refl)) refl)
    ]

pub Succeeds-both :
    {A : Type 0} (P Q : A → Type 0) (r : LockResult A)
    → Succeeds P r
    → Succeeds Q r
    → Succeeds (λ a. P a × Q a) r
unfolding Succeeds
Succeeds-both P Q (done a) h k = (h, k)
Succeeds-both P Q assertion_failed h k = absurd h
Succeeds-both P Q out_of_fuel h k = absurd h

-- After the round of a preslot
abbrev RoundDone : TbbPreslot → List ℕ → List Mode → List Mode → Type 0
RoundDone p gs ms r =
    ModesFor gs r × Grows ms r × ((p.data_guid ≡ null_guid) ⊎ CoveredBy p.data_guid p.mode gs r)

round-done :
    (p : TbbPreslot) (gs : List ℕ) (ms : List Mode)
    → (p.data_guid ≡ null_guid) ⊎ (contains p.data_guid gs ≡ true)
    → ModesFor gs ms
    → Succeeds
        (RoundDone p gs ms)
        (if p.data_guid == null_guid then done ms else combine_at p.data_guid p.mode gs ms)
unfolding Succeeds
round-done p gs ms in_list f = elim (Bool-cases (p.data_guid == null_guid)) [
  | inl null ↦ rw null (f, Grows-refl ms, inl ((==_iff _ _).0 null))
  | inr block ↦ rw block (
      Succeeds-map (λ r. ModesFor gs r × Combined p.data_guid p.mode gs ms r) (RoundDone p gs ms) _
        (λ r k. (k.0, k.1.0, inr (k.1.1 (listed block in_list))))
        (Succeeds-both (ModesFor gs) (Combined p.data_guid p.mode gs ms)
          (combine_at p.data_guid p.mode gs ms) (combine_at-ModesFor p.data_guid p.mode gs ms f)
          (combine_at-Combined p.data_guid p.mode gs ms f.0)))
]
  where
    listed :
        (p.data_guid == null_guid) ≡ false
        → (p.data_guid ≡ null_guid) ⊎ (contains p.data_guid gs ≡ true)
        → contains p.data_guid gs ≡ true
    listed block (inl null) = cc ((==_iff p.data_guid null_guid).1 null)
    listed block (inr yes_listed) = yes_listed

combine_all-Covered :
    (ps : List TbbPreslot) (gs : List ℕ) (ms : List Mode)
    → AllIn ps gs
    → ModesFor gs ms
    → Succeeds (λ r. Grows ms r × AllCovered ps gs r) (combine_all ps gs ms)
unfolding combine_all Succeeds
combine_all-Covered [] gs ms in_list f = (Grows-refl ms, tt)
combine_all-Covered (p ∷ ps) gs ms in_list f =
    Succeeds->>= (RoundDone p gs ms) (λ r. Grows ms r × AllCovered (p ∷ ps) gs r) _ _
      (round-done p gs ms in_list.0 f)
      λ ms' d.
        Succeeds-map (λ r. Grows ms' r × AllCovered ps gs r)
          (λ r. Grows ms r × AllCovered (p ∷ ps) gs r) _
          (λ r k. (Grows-trans ms ms' r d.1 k.0, (still ms' r d.2 k.0, k.1)))
          (combine_all-Covered ps gs ms' in_list.1 d.0)
  where
    still :
        (ms' r : List Mode)
        → (p.data_guid ≡ null_guid) ⊎ CoveredBy p.data_guid p.mode gs ms'
        → Grows ms' r
        → (p.data_guid ≡ null_guid) ⊎ CoveredBy p.data_guid p.mode gs r
    still ms' r (inl null) g = inl null
    still ms' r (inr k) g = inr (CoveredBy-Grows p.data_guid p.mode gs ms' r g k)

pub record LocksPreslots (e e' : NodeData) : Type 0 where
  pub covered : AllCovered e.preslots e'.ordered_guids e'.lock_modes
  pub exactly :
      (a : ℕ) → contains a e'.ordered_guids ≡ (not (a == null_guid) && in_preslots a e.preslots)

-- A task that has no modes yet plans its locks without a failing assertion: it will lock exactly the
-- blocks in its preslots, null left out, each in a mode that covers the modes of all preslots that
-- have the block.
pub order_locks-LocksPreslots :
    (e : NodeData) → e.lock_modes ≡ [] → Succeeds (LocksPreslots e) (order_locks e)
unfolding order_locks Succeeds contains
order_locks-LocksPreslots e fresh =
    let gs : List ℕ = sort_guids (collect e.preslots []) in
    Succeeds->>=
      (λ r. Grows (resize e.lock_modes (length gs) db_mode_ro) r × AllCovered e.preslots gs r)
      (LocksPreslots e) (combine_all e.preslots gs (resize e.lock_modes (length gs) db_mode_ro))
      (λ ms. done (record e { ordered_guids = gs; lock_modes = ms }))
      (combine_all-Covered e.preslots gs _ (AllIn-ordered e.preslots e.preslots (λ a h. h))
        (resize-ModesFor gs e.lock_modes fresh))
      λ ms k. record {
        covered = k.1;
        exactly =
            λ a. contains-sort_guids a (collect e.preslots []) ∙ contains-collect a e.preslots [];
      }

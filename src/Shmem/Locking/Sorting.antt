-- ===== src/Shmem/Locking/Sorting.antt =====
-- The GUIDs of a task in order, each once (`order_locks` in include/shmem/ocr_tbb_locking.h).
use ocr_vx.Prelude.{
  ℕ, zero, suc, ◌+◌, ◌<◌, ◌≤◌, false, not, ◌&&◌, ◌||◌, some, List, [], ◌∷◌, ◌++◌, ◌==◌, leb, ◌≡◌,
  inl, inr, refl, arith, length, get_elem?, contains, length-append, Bool-cases, ap, ◌∙◌,
}
use ocr_vx.One.Types.{null_guid}
use ocr_vx.Shmem.Event.{TbbPreslot}
use ocr_vx.Shmem.Locking.Calls.{collect, insert_guid, sort_guids}

abbrev pub AllAbove : ℕ → List ℕ → Type 0
AllAbove x [] = Unit {0}
AllAbove x (y ∷ ys) = (x < y) × AllAbove x ys

abbrev pub Increasing : List ℕ → Type 0
Increasing [] = Unit {0}
Increasing (x ∷ xs) = AllAbove x xs × Increasing xs

abbrev pub Distinct : List ℕ → Type 0
Distinct [] = Unit {0}
Distinct (x ∷ xs) = (contains x xs ≡ false) × Distinct xs

pub contains-insert_guid :
    (a g : ℕ) (hs : List ℕ) → contains a (insert_guid g hs) ≡ ((g == a) || contains a hs)
unfolding contains insert_guid
contains-insert_guid a g [] = refl
contains-insert_guid a g (h ∷ hs) = ground (arith, contains-insert_guid a g hs)

pub contains-sort_guids : (a : ℕ) (gs : List ℕ) → contains a (sort_guids gs) ≡ contains a gs
unfolding contains sort_guids
contains-sort_guids a [] = refl
contains-sort_guids a (g ∷ gs) =
    contains-insert_guid a g (sort_guids gs) ∙ ap (λ b. (g == a) || b) (contains-sort_guids a gs)

pub AllAbove-insert_guid :
    (x g : ℕ) (hs : List ℕ) → x < g → AllAbove x hs → AllAbove x (insert_guid g hs)
unfolding insert_guid
AllAbove-insert_guid x g [] lt h = (lt, tt)
AllAbove-insert_guid x g (y ∷ hs) lt h = elim (Bool-cases (leb g y)) [
  | inl first ↦ rw first (lt, h)
  | inr later ↦ rw later (h.0, AllAbove-insert_guid x g hs lt h.1)
]

pub AllAbove-mono : (x y : ℕ) (ys : List ℕ) → x < y → AllAbove y ys → AllAbove x ys
AllAbove-mono x y [] lt h = tt
AllAbove-mono x y (z ∷ ys) lt h = (omega (arith, lt, h.0), AllAbove-mono x y ys lt h.1)

pub Increasing-insert_guid :
    (g : ℕ) (hs : List ℕ) → contains g hs ≡ false → Increasing hs → Increasing (insert_guid g hs)
unfolding insert_guid contains
Increasing-insert_guid g [] new h = (tt, tt)
Increasing-insert_guid g (y ∷ hs) new h = elim (Bool-cases (leb g y)) [
  | inl first ↦ rw first ((ground arith, AllAbove-mono g y hs (ground arith) h.0), h)
  | inr later ↦ rw later (
    AllAbove-insert_guid y g hs (ground arith) h.0,
    Increasing-insert_guid g hs (ground arith) h.1,
  )
]

pub Increasing-sort_guids : (gs : List ℕ) → Distinct gs → Increasing (sort_guids gs)
unfolding sort_guids
Increasing-sort_guids [] h = tt
Increasing-sort_guids (g ∷ gs) h =
    Increasing-insert_guid g (sort_guids gs) (contains-sort_guids g gs ∙ h.0)
      (Increasing-sort_guids gs h.1)

pub contains-snoc :
    (a : ℕ) (gs : List ℕ) (g : ℕ) → contains a (gs ++ (g ∷ [])) ≡ (contains a gs || (g == a))
unfolding contains
contains-snoc a [] g = ground arith
contains-snoc a (x ∷ gs) g = ground (arith, contains-snoc a gs g)

pub Distinct-snoc :
    (gs : List ℕ) (g : ℕ) → Distinct gs → contains g gs ≡ false → Distinct (gs ++ (g ∷ []))
unfolding contains
Distinct-snoc [] g d new = (refl, tt)
Distinct-snoc (x ∷ gs) g d new =
    (ground (arith, contains-snoc x gs g), Distinct-snoc gs g d.1 (ground arith))

pub Distinct-collect : (ps : List TbbPreslot) (gs : List ℕ) → Distinct gs → Distinct (collect ps gs)
unfolding collect
Distinct-collect [] gs d = d
Distinct-collect (p ∷ ps) gs d =
    elim (Bool-cases (not (p.data_guid == null_guid) && not (contains p.data_guid gs))) [
      | inl new ↦ rw new (Distinct-collect ps _ (Distinct-snoc gs p.data_guid d (ground arith)))
      | inr old ↦ rw old (Distinct-collect ps gs d)
    ]

-- Neighbours in an increasing list
pub Increasing-sorted :
    (gs : List ℕ) (i g h : ℕ)
    → Increasing gs
    → get_elem? gs i ≡ some g
    → get_elem? gs (suc i) ≡ some h
    → g < h
Increasing-sorted [] i g h inc at_i next = cc
Increasing-sorted (x ∷ []) i g h inc at_i next = cc
Increasing-sorted (x ∷ y ∷ gs) zero g h inc at_i next = ground (arith, inc.0)
Increasing-sorted (x ∷ y ∷ gs) (suc i) g h inc at_i next =
    Increasing-sorted (y ∷ gs) i g h inc.1 at_i next

pub length-insert_guid : (g : ℕ) (hs : List ℕ) → length (insert_guid g hs) ≡ suc (length hs)
unfolding insert_guid
length-insert_guid g [] = refl
length-insert_guid g (h ∷ hs) = ground (arith, length-insert_guid g hs)

pub length-sort_guids : (gs : List ℕ) → length (sort_guids gs) ≡ length gs
unfolding sort_guids
length-sort_guids [] = refl
length-sort_guids (g ∷ gs) =
    omega (arith, length-insert_guid g (sort_guids gs), length-sort_guids gs)

pub length-collect :
    (ps : List TbbPreslot) (gs : List ℕ) → length (collect ps gs) ≤ length ps + length gs
unfolding collect
length-collect [] gs = omega arith
length-collect (p ∷ ps) gs =
    elim (Bool-cases (not (p.data_guid == null_guid) && not (contains p.data_guid gs))) [
      | inl new ↦ rw new (
          omega (
            arith,
            length-collect ps (gs ++ (p.data_guid ∷ [])),
            length-append gs (p.data_guid ∷ []),
          ))
      | inr old ↦ rw old (omega (arith, length-collect ps gs))
    ]

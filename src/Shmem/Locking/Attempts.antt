-- ===== src/Shmem/Locking/Attempts.antt =====
-- One round of a task that locks its blocks: what an attempt gives (`try_lock_all__locked` in
-- include/shmem/ocr_tbb_locking.h).
use ocr_vx.Prelude.{
  ℕ, zero, suc, ◌+◌, ◌<◌, ◌≤◌, Bool, true, false, none, some, List, [], ◌∷◌, ◌==◌, ◌≡◌, ◌⊎◌, ◌↔◌,
  inl, inr, refl, arith, length, get_elem?, Bool-cases, ==_refl,
}
use ocr_vx.One.Types.{Mode}
use ocr_vx.Shmem.Locking.{
  LockResult, done, assertion_failed, out_of_fuel, DbData, NodeData, LockGraph, set_db_data,
  set_node_data, try_lock,
}
use ocr_vx.Shmem.Locking.Block.{Phase, rest, is_null, Excluded}
use ocr_vx.Shmem.Locking.Calls.{next_lock, acquire_next, rounds_left, lock_rounds, enqueue}
use ocr_vx.Shmem.Locking.Consistent.{
  IsConsistent, TaskIsValid, Behind, Holders, HoldsIn, HoldsAs, held, hold, shared_held, const_held,
  ew_held,
}
use ocr_vx.Shmem.Locking.Acquire.{next_lock-some, Behind-lt}
use ocr_vx.Shmem.Locking.Enqueue.{waiting, mode_list, waitlist_of_lem, enqueued-IsConsistent}

-- What the task locks does not change.
abbrev pub SamePlan : NodeData → NodeData → Type 0
SamePlan e e' =
    (e'.ordered_guids ≡ e.ordered_guids)
    × (e'.lock_modes ≡ e.lock_modes)
    × (e'.preslots ≡ e.preslots)

-- What a task's attempt gives: everything is consistent again; it has all its blocks exactly when the
-- attempt says so; it holds the blocks that it passed, in its modes; and the blocks behind it, the
-- blocks that other tasks want, and the number of locks are as before, or nearly.
pub record Locked (s : LockGraph) (phase : ℕ → Phase) (holders : ℕ → Holders) (t n : ℕ) (all : Bool)
    (s' : LockGraph) : Type 0 where
  pub after : ℕ → Holders
  pub consistent : IsConsistent s' phase none after
  pub has_all : (all ≡ true) ↔ (next_lock (s'.edts t) ≡ none)
  pub same_behind : (h : ℕ) → Behind (s.edts t) h → s'.dbs h ≡ s.dbs h
  pub fewer : (u : ℕ) → rounds_left (s'.edts u) ≤ rounds_left (s.edts u)
  pub room : (h : ℕ) → held (after h) ≤ held (holders h) + n
  pub kept : (h u : ℕ) → HoldsIn u (holders h) → HoldsIn u (after h)
  pub same_spawned : s'.spawned ≡ s.spawned
  pub same_plan : SamePlan (s.edts t) (s'.edts t)
  pub kept_mode : (h u : ℕ) (m : Mode) → HoldsAs u m (holders h) → HoldsAs u m (after h)
  pub has :
      (i h : ℕ) (m : Mode)
      → (s.edts t).acquired ≤ i
      → i < (s'.edts t).acquired
      → get_elem? (s.edts t).ordered_guids i ≡ some h
      → get_elem? (s.edts t).lock_modes i ≡ some m
      → HoldsAs t m (after h)

unfoldable pub Succeeds : {A : Type 0} → (A → Type 0) → LockResult A → Type 0
Succeeds P assertion_failed = ⊥
Succeeds P out_of_fuel = ⊥
Succeeds P (done a) = P a

-- A block that the task may still lock is at rest.
abbrev pub Ready : LockGraph → (ℕ → Phase) → ℕ → Type 0
Ready s phase t = (h : ℕ) → (phase h ≡ rest) ⊎ Behind (s.edts t) h

pub next_at_rest :
    (s : LockGraph) (phase : ℕ → Phase) (t g : ℕ) (m : Mode)
    → Ready s phase t
    → next_lock (s.edts t) ≡ some (g, m)
    → phase g ≡ rest
next_at_rest s phase t g m ready next = elim (ready g) [
  | inl at_rest ↦ at_rest
  | inr b ↦ absurd (omega (arith, Behind-lt (s.edts t) g g m next b))
]

pub get_elem?-none : {A : Type 0} (xs : List A) (i : ℕ) → length xs ≤ i → get_elem? xs i ≡ none
get_elem?-none [] i h = refl
get_elem?-none (x ∷ xs) zero h = absurd (omega (arith, h))
get_elem?-none (x ∷ xs) (suc i) h = get_elem?-none xs i (omega (arith, h))

pub get_elem?-some :
    {A : Type 0} (xs : List A) (i : ℕ) → i < length xs → (a : A) × (get_elem? xs i ≡ some a)
get_elem?-some [] i h = absurd (omega (arith, h))
get_elem?-some (x ∷ xs) zero h = (x, refl)
get_elem?-some (x ∷ xs) (suc i) h = get_elem?-some xs i (omega (arith, h))

pub no_rounds : (e : NodeData) → rounds_left e ≡ 0 → next_lock e ≡ none
no_rounds e h = rw (get_elem?-none e.ordered_guids e.acquired (omega (arith, h)), next_lock) refl

pub next_lock-eq :
    (e : NodeData) (g : ℕ) (m : Mode)
    → get_elem? e.ordered_guids e.acquired ≡ some g
    → get_elem? e.lock_modes e.acquired ≡ some m
    → next_lock e ≡ some (g, m)
next_lock-eq e g m h k = ground arith

pub more_rounds :
    (e : NodeData) (n : ℕ)
    → TaskIsValid e
    → rounds_left e ≡ suc n
    → (g : ℕ) × (m : Mode) × (next_lock e ≡ some (g, m))
more_rounds e n v h =
    let (g, has_g) = get_elem?-some e.ordered_guids e.acquired (omega (arith, h)) in
    let (m, has_m) = get_elem?-some e.lock_modes e.acquired (omega (arith, h, v.sizes)) in
    (g, m, next_lock-eq e g m has_g has_m)

pub Succeeds-map :
    {A : Type 0} (P Q : A → Type 0) (r : LockResult A)
    → ((a : A) → P a → Q a)
    → Succeeds P r
    → Succeeds Q r
unfolding Succeeds
Succeeds-map P Q (done a) f h = f a h
Succeeds-map P Q assertion_failed f h = absurd h
Succeeds-map P Q out_of_fuel f h = absurd h

pub held-hold :
    (holders : ℕ → Holders) (g t : ℕ) (m : Mode) (h : ℕ)
    → held (hold holders g t m h) ≤ held (holders h) + 1
held-hold holders g t m h = ground arith

pub hold-kept :
    (holders : ℕ → Holders) (g t : ℕ) (m : Mode) (h u : ℕ)
    → HoldsIn u (holders h)
    → HoldsIn u (hold holders g t m h)
hold-kept holders g t m h u k = elim (Bool-cases (h == g)) [
  | inl here ↦ rw here (inr k)
  | inr there ↦ rw there k
]

pub hold-kept_mode :
    (holders : ℕ → Holders) (g t : ℕ) (m : Mode) (h u : ℕ) (n : Mode)
    → HoldsAs u n (holders h)
    → HoldsAs u n (hold holders g t m h)
hold-kept_mode holders g t m h u n k = elim (Bool-cases (h == g)) [
  | inl here ↦ rw here (inr k)
  | inr there ↦ rw there k
]

pub hold-HoldsAs : (holders : ℕ → Holders) (g t : ℕ) (m : Mode) → HoldsAs t m (hold holders g t m g)
hold-HoldsAs holders g t m = rw (==_refl g) (inl (refl, refl))

pub other : (g h : ℕ) → h < g → (h == g) ≡ false
other g h lt = ground arith

module _ (s : LockGraph) (phase : ℕ → Phase) (holders : ℕ → Holders) (t : ℕ)
    (c : IsConsistent s phase (some t) holders) (ready : Ready s phase t) (g : ℕ) (m : Mode)
    (next : next_lock (s.edts t) ≡ some (g, m)) where
  pub null : is_null m ≡ false
  null = (c.tasks t).lockable (s.edts t).acquired m (next_lock-some (s.edts t) g m next).1

  pub at_rest : phase g ≡ rest
  at_rest = next_at_rest s phase t g m ready next

  pub waits-Locked :
      (n : ℕ)
      → Excluded m (shared_held (holders g)) (const_held (holders g)) (ew_held (holders g))
      → Locked s phase holders t n false (set_db_data s g (waiting (mode_list m) t (s.dbs g)))
  waits-Locked n excluded = record {
    after = holders;
    consistent = enqueued-IsConsistent s phase holders t c g m next null at_rest excluded;
    has_all = (λ h. cc, λ h. cc (next, h));
    same_behind = λ h b. rw (other g h (Behind-lt (s.edts t) g h m next b)) refl;
    fewer = λ u. omega arith;
    room = λ h. omega arith;
    kept = λ h u k. k;
    same_spawned = refl;
    same_plan = (refl, refl, refl);
    kept_mode = λ h u n k. k;
    has = λ i h n p q. absurd (omega (arith, p, q));
  }

module _ (n t : ℕ) (s : LockGraph) (g : ℕ) (m : Mode)
    (next : next_lock (s.edts t) ≡ some (g, m)) where
  pub lock_rounds-granted :
      (e : DbData)
      → try_lock m (s.dbs g) ≡ done (true, e)
      → lock_rounds (suc n) t s
        ≡ lock_rounds n t (set_node_data (set_db_data s g e) t (acquire_next (s.edts t)))
  unfolding lock_rounds
  lock_rounds-granted e granted =
      let (has_g, has_m) = next_lock-some (s.edts t) g m next in
      rw (has_g, lock_rounds) (rw (has_m) (rw (granted) refl))

  pub lock_rounds-refused :
      is_null m ≡ false
      → try_lock m (s.dbs g) ≡ done (false, s.dbs g)
      → lock_rounds (suc n) t s ≡ done (false, set_db_data s g (waiting (mode_list m) t (s.dbs g)))
  unfolding lock_rounds enqueue
  lock_rounds-refused locks refused =
      let (has_g, has_m) = next_lock-some (s.edts t) g m next in
      rw (has_g, lock_rounds)
        (rw (has_m) (rw (refused) (rw (waitlist_of_lem m locks, enqueue) refl)))

-- ===== src/Shmem/Locking/Acquire.antt =====
-- A task that acquires a block, or waits for it, keeps waitlists, counters and tasks consistent
-- (`try_lock_all__locked` in include/shmem/ocr_tbb_locking.h).
use ocr_vx.Prelude.{
  ℕ, ◌+◌, ◌<◌, ◌≤◌, false, Option, some, ◌∷◌, ◌==◌, if◌then◌else◌, ◌≡◌, inl, inr, refl, arith,
  get_elem?, count, ==_iff, ==_refl, Bool-cases, Option-cases, ap, ◌∙◌, subst,
}
use ocr_vx.One.Types.{Mode}
use ocr_vx.Shmem.Locking.{
  DbData, NodeData, LockGraph, set_db_data, set_node_data, Waitlist, shared, exclusive_read,
  exclusive_write, waitlist,
}
use ocr_vx.Shmem.Locking.Block.{Counts, Phase, WaitsAreBlocked, SameLists, n_shared, n_const, n_ew}
use ocr_vx.Shmem.Locking.Calls.{next_lock, acquire_next}
use ocr_vx.Shmem.Locking.Consistent.{
  IsConsistent, TaskIsValid, Behind, Holders, HoldsIn, hold, waits_in, shared_held, const_held,
  ew_held,
}

-- What the task locks next, from its lists
pub next_lock-some :
    (e : NodeData) (g : ℕ) (m : Mode)
    → next_lock e ≡ some (g, m)
    → (get_elem? e.ordered_guids e.acquired ≡ some g) × (get_elem? e.lock_modes e.acquired ≡ some m)
next_lock-some e g m h = ground arith

acquire_next-TaskIsValid : (e : NodeData) → TaskIsValid e → TaskIsValid (acquire_next e)
acquire_next-TaskIsValid e v = record {
  sizes = v.sizes;
  sorted = λ i g h p. v.sorted i g h (omega (arith, p));
  lockable = v.lockable;
}

pub acquire_next-Behind :
    (e : NodeData) (g h : ℕ) (m : Mode)
    → TaskIsValid e
    → next_lock e ≡ some (g, m)
    → h ≤ g
    → Behind (acquire_next e) h
acquire_next-Behind e g h m v next le = elim (Option-cases (next_lock (acquire_next e))) [
  | inl last ↦ inl last
  | inr ((k, n), more) ↦ inr (
    k,
    n,
    more,
    omega (
      arith,
      le,
      v.sorted e.acquired g k (omega arith) (next_lock-some e g m next).0
          (next_lock-some (acquire_next e) k n more).0,
    ),
  )
]

pub eq_sym : (a b : ℕ) → (a == b) ≡ (b == a)
eq_sym a b = ground arith

pub waitlist-SameLists : (w : Waitlist) (d e : DbData) → SameLists d e → waitlist w e ≡ waitlist w d
waitlist-SameLists shared d e same = same.0
waitlist-SameLists exclusive_read d e same = same.1
waitlist-SameLists exclusive_write d e same = same.2

some_pair :
    (g k : ℕ) (m n : Mode) {o : Option (ℕ × Mode)} → o ≡ some (g, m) → o ≡ some (k, n) → g ≡ k
some_pair g k m n p q = cc

-- What is behind the block that is next
pub Behind-lt : (e : NodeData) (g h : ℕ) (m : Mode) → next_lock e ≡ some (g, m) → Behind e h → h < g
Behind-lt e g h m next (inl last) = cc
Behind-lt e g h m next (inr (k, n, then_k, lt)) = omega (arith, lt, some_pair g k m n next then_k)

module _ (s : LockGraph) (phase after : ℕ → Phase) (holders : ℕ → Holders) (t g : ℕ) (m : Mode)
    (e : DbData) (c : IsConsistent s phase (some t) holders)
    (next : next_lock (s.edts t) ≡ some (g, m))
    (counts : Counts e
      (n_shared m + shared_held (holders g))
      (n_const m + const_held (holders g))
      (n_ew m + ew_held (holders g)))
    (blocked : WaitsAreBlocked (after g) e) (same : SameLists (s.dbs g) e)
    (others : (h : ℕ) → (h == g) ≡ false → after h ≡ phase h) where
  Counts-after :
      (h : ℕ)
      → Counts
          (if h == g then e else s.dbs h)
          (shared_held (hold holders g t m h))
          (const_held (hold holders g t m h))
          (ew_held (hold holders g t m h))
  Counts-after h = elim (Bool-cases (h == g)) [
    | inl here ↦ rw ((==_iff h g).0 here, ==_refl g) counts
    | inr there ↦ rw there (c.counts h)
  ]

  blocked_after : (h : ℕ) → WaitsAreBlocked (after h) (if h == g then e else s.dbs h)
  blocked_after h = elim (Bool-cases (h == g)) [
    | inl here ↦ rw ((==_iff h g).0 here, ==_refl g) blocked
    | inr there ↦ rw (there, others h there) (c.blocked h)
  ]

  lists_after :
      (h : ℕ) (w : Waitlist) → waitlist w (if h == g then e else s.dbs h) ≡ waitlist w (s.dbs h)
  lists_after h w = elim (Bool-cases (h == g)) [
    | inl here ↦ rw ((==_iff h g).0 here, ==_refl g) (waitlist-SameLists w (s.dbs g) e same)
    | inr there ↦ rw there refl
  ]

  queued_after :
      (h : ℕ) (w : Waitlist) (u : ℕ)
      → count u (waitlist w (if h == g then e else s.dbs h)) ≡ (
          if t == u
          then 0
          else waits_in h w (next_lock (if u == t then acquire_next (s.edts t) else s.edts u)))
  queued_after h w u =
      ap (count u) (lists_after h w) ∙ c.queued h w u ∙ elim (Bool-cases (t == u)) [
        | inl trying ↦ rw trying refl
        | inr idle ↦ rw (idle, eq_sym u t ∙ idle) refl
      ]

  tasks_after : (u : ℕ) → TaskIsValid (if u == t then acquire_next (s.edts t) else s.edts u)
  tasks_after u = elim (Bool-cases (u == t)) [
    | inl trying ↦ rw trying (acquire_next-TaskIsValid (s.edts t) (c.tasks t))
    | inr idle ↦ rw idle (c.tasks u)
  ]

  pub still_behind :
      (h u : ℕ)
      → Behind (s.edts u) h
      → Behind (if u == t then acquire_next (s.edts t) else s.edts u) h
  still_behind h u b = elim (Bool-cases (u == t)) [
    | inl trying ↦ rw trying (
        acquire_next-Behind (s.edts t) g h m (c.tasks t) next (
          omega (
            arith,
            Behind-lt (s.edts t) g h m next
                (subst (λ v. Behind (s.edts v) h) ((==_iff u t).0 trying) b),
          )))
    | inr idle ↦ rw idle b
  ]

  behind_here :
      (u : ℕ)
      → HoldsIn u ((t, m) ∷ holders g)
      → Behind (if u == t then acquire_next (s.edts t) else s.edts u) g
  behind_here u (inl me) =
      subst (λ v. Behind (if v == t then acquire_next (s.edts t) else s.edts v) g) me
        (rw (==_refl t) (acquire_next-Behind (s.edts t) g g m (c.tasks t) next (omega arith)))
  behind_here u (inr old) = still_behind g u (c.behind g u old)

  behind_after :
      (h u : ℕ)
      → HoldsIn u (hold holders g t m h)
      → Behind (if u == t then acquire_next (s.edts t) else s.edts u) h
  behind_after h u = elim (Bool-cases (h == g)) [
    | inl here ↦ rw ((==_iff h g).0 here, ==_refl g) (behind_here u)
    | inr there ↦ rw there (λ (b : HoldsIn u (holders h)). still_behind h u (c.behind h u b))
  ]

  pub acquired-IsConsistent :
      IsConsistent
        (set_node_data (set_db_data s g e) t (acquire_next (s.edts t)))
        after
        (some t)
        (hold holders g t m)
  acquired-IsConsistent = record {
    counts = Counts-after;
    blocked = blocked_after;
    queued = queued_after;
    tasks = tasks_after;
    behind = behind_after;
  }

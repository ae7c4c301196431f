-- ===== src/Shmem/Locking/Enqueue.antt =====
-- A task that starts to wait, or that has all its blocks, keeps waitlists, counters and tasks consistent
-- (`try_lock_all__locked` in include/shmem/ocr_tbb_locking.h).
use ocr_vx.Prelude.{
  ℕ, ◌+◌, false, none, some, List, [], ◌∷◌, ◌++◌, ◌==◌, if◌then◌else◌, ◌≡◌, inl, inr, refl, arith,
  count, count-snoc, ==_iff, ==_refl, Bool-cases, sym, ap, ◌∙◌, subst,
}
use ocr_vx.One.Types.{Mode, db_mode_null, db_mode_ro, db_mode_rw, db_mode_const, db_mode_ew}
use ocr_vx.Shmem.Locking.{
  DbData, LockGraph, set_db_data, Waitlist, shared, exclusive_read, exclusive_write, waitlist,
  set_waitlist, waitlist_of,
}
use ocr_vx.Shmem.Locking.Block.{Counts, Phase, rest, WaitsAreBlocked, Excluded, is_null}
use ocr_vx.Shmem.Locking.Calls.{next_lock}
use ocr_vx.Shmem.Locking.Acquire.{eq_sym}
use ocr_vx.Shmem.Locking.Consistent.{
  IsConsistent, Holders, lists_mode, waits_in, shared_held, const_held, ew_held,
}

abbrev pub waiting : Waitlist → ℕ → DbData → DbData
waiting w t d = set_waitlist w (waitlist w d ++ (t ∷ [])) d

pub set_waitlist-Counts :
    (w : Waitlist) (ts : List ℕ) (d : DbData) (a b c : ℕ)
    → Counts d a b c
    → Counts (set_waitlist w ts d) a b c
set_waitlist-Counts shared ts d a b c k = ground arith
set_waitlist-Counts exclusive_read ts d a b c k = ground arith
set_waitlist-Counts exclusive_write ts d a b c k = ground arith

-- The list of `waitlist_of`
abbrev pub mode_list : Mode → Waitlist
mode_list db_mode_const = exclusive_read
mode_list db_mode_ew = exclusive_write
mode_list _ = shared

pub waitlist_of_lem : (m : Mode) → is_null m ≡ false → waitlist_of m ≡ some (mode_list m)
unfolding waitlist_of
waitlist_of_lem db_mode_null h = cc
waitlist_of_lem _ h = refl

waiting-rest :
    (m : Mode) (t : ℕ) (d : DbData) (a b c : ℕ)
    → Counts d a b c
    → Excluded m a b c
    → WaitsAreBlocked rest d
    → WaitsAreBlocked rest (waiting (mode_list m) t d)
waiting-rest m t d a b c k ex bl = ground arith

count-waiting :
    (m : Mode) (v : Waitlist) (t u : ℕ) (d : DbData)
    → is_null m ≡ false
    → count u (waitlist v (waiting (mode_list m) t d))
      ≡ count u (waitlist v d) + (if t == u then lists_mode v m else 0)
count-waiting db_mode_null v t u d h = cc
count-waiting db_mode_rw v t u d h = ground (arith, count-snoc u t d.shared_waitlist)
count-waiting db_mode_ro v t u d h = ground (arith, count-snoc u t d.shared_waitlist)
count-waiting db_mode_const v t u d h = ground (arith, count-snoc u t d.exclusive_read_waitlist)
count-waiting db_mode_ew v t u d h = ground (arith, count-snoc u t d.exclusive_write_waitlist)

module _ (s : LockGraph) (phase : ℕ → Phase) (holders : ℕ → Holders) (t : ℕ)
    (c : IsConsistent s phase (some t) holders) where
  module _ (g : ℕ) (m : Mode) (next : next_lock (s.edts t) ≡ some (g, m))
      (lockable : is_null m ≡ false) (at_rest : phase g ≡ rest)
      (excluded : Excluded m
        (shared_held (holders g))
        (const_held (holders g))
        (ew_held (holders g))) where
    Counts-after :
        (h : ℕ)
        → Counts
            (if h == g then waiting (mode_list m) t (s.dbs g) else s.dbs h)
            (shared_held (holders h))
            (const_held (holders h))
            (ew_held (holders h))
    Counts-after h = elim (Bool-cases (h == g)) [
      | inl here ↦
          rw ((==_iff h g).0 here, ==_refl g)
            (set_waitlist-Counts (mode_list m) _ _ _ _ _ (c.counts g))
      | inr there ↦ rw there (c.counts h)
    ]

    blocked_after :
        (h : ℕ)
        → WaitsAreBlocked (phase h) (if h == g then waiting (mode_list m) t (s.dbs g) else s.dbs h)
    blocked_after h = elim (Bool-cases (h == g)) [
      | inl here ↦
          rw ((==_iff h g).0 here, ==_refl g, at_rest)
            (waiting-rest m t _ _ _ _ (c.counts g) excluded
              (subst (λ p. WaitsAreBlocked p (s.dbs g)) at_rest (c.blocked g)))
      | inr there ↦ rw there (c.blocked h)
    ]

    queued_here :
        (v : Waitlist) (u : ℕ)
        → count u (waitlist v (waiting (mode_list m) t (s.dbs g)))
          ≡ waits_in g v (next_lock (s.edts u))
    queued_here v u =
        count-waiting m v t u (s.dbs g) lockable
        ∙ ap (λ n. n + (if t == u then lists_mode v m else 0)) (c.queued g v u)
        ∙ elim (Bool-cases (t == u)) [
          | inl me ↦ rw (sym ((==_iff t u).0 me), ==_refl t, next, ==_refl g) (omega arith)
          | inr other ↦ rw other (omega arith)
        ]

    queued_after :
        (h : ℕ) (v : Waitlist) (u : ℕ)
        → count u (waitlist v (if h == g then waiting (mode_list m) t (s.dbs g) else s.dbs h))
          ≡ waits_in h v (next_lock (s.edts u))
    queued_after h v u = elim (Bool-cases (h == g)) [
      | inl here ↦ rw ((==_iff h g).0 here, ==_refl g) (queued_here v u)
      | inr there ↦ rw there (
          c.queued h v u ∙ elim (Bool-cases (t == u)) [
            | inl me ↦ rw (sym ((==_iff t u).0 me), ==_refl t, next, eq_sym g h ∙ there) refl
            | inr other ↦ rw other refl
          ])
    ]

    pub enqueued-IsConsistent :
        IsConsistent (set_db_data s g (waiting (mode_list m) t (s.dbs g))) phase none holders
    enqueued-IsConsistent = record {
      counts = Counts-after;
      blocked = blocked_after;
      queued = queued_after;
      tasks = c.tasks;
      behind = c.behind;
    }

  queued_done :
      next_lock (s.edts t) ≡ none
      → (h : ℕ) (v : Waitlist) (u : ℕ)
      → count u (waitlist v (s.dbs h)) ≡ waits_in h v (next_lock (s.edts u))
  queued_done last h v u = c.queued h v u ∙ elim (Bool-cases (t == u)) [
    | inl me ↦ rw (sym ((==_iff t u).0 me), ==_refl t, last) refl
    | inr other ↦ rw other refl
  ]

  -- A task that has all its blocks waits nowhere.
  pub finished-IsConsistent : next_lock (s.edts t) ≡ none → IsConsistent s phase none holders
  finished-IsConsistent last = record {
    counts = c.counts;
    blocked = c.blocked;
    queued = queued_done last;
    tasks = c.tasks;
    behind = c.behind;
  }

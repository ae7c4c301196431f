-- ===== src/Shmem/Locking/Unlock.antt =====
-- `unlock` (include/shmem/ocr_tbb_locking.h) as a whole.
use ocr_vx.Prelude.{
  ℕ, suc, ◌+◌, ◌^◌, ◌<◌, ◌≤◌, Bool, false, none, some, ◌∷◌, ◌++◌, ◌==◌, if◌then◌else◌, ◌≡◌, inl,
  inr, refl, arith, ==_refl, Bool-cases, sym, ap, ◌∙◌, subst,
}
use ocr_vx.One.Types.{Mode, db_mode_ew}
use ocr_vx.Shmem.Locking.{
  LockResult, done, assertion_failed, out_of_fuel, ◌>>=◌, DbData, LockGraph, set_db_data, try_lock,
  Waitlist, shared, exclusive_read, exclusive_write, waitlist, set_waitlist, Wake, no_one,
  new_owner, new_owners, release_lock,
}
use ocr_vx.Shmem.Locking.Block.{
  Phase, rest, owner, readers, popped, all_shared, Counts, WaitsAreBlocked, SameLists, Grants,
  Releases, release_lock-Releases, owner-Grants, is_null, n_shared, n_const, n_ew,
}
use ocr_vx.Shmem.Locking.Calls.{rounds_left, wake, unlock}
use ocr_vx.Shmem.Locking.Consistent.{
  IsConsistent, Holders, HoldsIn, held, shared_held, const_held, ew_held,
}
use ocr_vx.Shmem.Locking.Acquire.{waitlist-SameLists}
use ocr_vx.Shmem.Locking.Attempts.{Succeeds, Succeeds-map}
use ocr_vx.Shmem.Locking.Replace.{
  waits_for, popped-IsConsistent, replaced-IsConsistent, with_holders,
}
use ocr_vx.Shmem.Locking.Wakes.{at_phase, Woken, wake_task-Woken}
use ocr_vx.Shmem.Locking.Drain.{
  Drains, readers-Drains, shared-Drains, Freed, settled-Freed, wants, wake_all-Freed,
}
use ocr_vx.Shmem.Locking.Held.{
  resting, waiting_wants, wants-set_db_data, wants-waiting, one_mode, ew_mode, shared_held-middle,
  const_held-middle, ew_held-middle, HoldsIn-middle,
}

module _ (s : LockGraph) (holders : ℕ → Holders) (g u : ℕ) (m : Mode) (pre post : Holders)
    (c : IsConsistent s resting none holders) (holds : holders g ≡ pre ++ ((u, m) ∷ post))
    (locks : is_null m ≡ false)
    (small : (h : ℕ) → held (holders h) + waiting_wants s g < 2 ^ 32) where
  abbrev left : Holders
  left = pre ++ post

  abbrev pub after_release : ℕ → Holders
  after_release = with_holders holders g left

  abbrev a : ℕ
  a = shared_held left

  abbrev b : ℕ
  b = const_held left

  abbrev w : ℕ
  w = ew_held left

  Counts-before : Counts (s.dbs g) (n_shared m + a) (n_const m + b) (n_ew m + w)
  Counts-before =
      subst (λ (n : ℕ). Counts (s.dbs g) n (n_const m + b) (n_ew m + w))
        (ap shared_held holds ∙ shared_held-middle u m pre post)
        (subst (λ (n : ℕ). Counts (s.dbs g) (shared_held (holders g)) n (n_ew m + w))
          (ap const_held holds ∙ const_held-middle u m pre post)
          (subst (λ (n : ℕ). Counts (s.dbs g) (shared_held (holders g)) (const_held (holders g)) n)
            (ap ew_held holds ∙ ew_held-middle u m pre post) (c.counts g)))

  held_before : held (holders g) ≡ suc (a + b + w)
  held_before = omega (
    arith,
    ap shared_held holds,
    shared_held-middle u m pre post,
    ap const_held holds,
    const_held-middle u m pre post,
    ap ew_held holds,
    ew_held-middle u m pre post,
    one_mode m locks,
  )

  subset : (v : ℕ) → HoldsIn v left → HoldsIn v (holders g)
  subset v k = subst (HoldsIn v) (sym holds) (HoldsIn-middle u m pre post v k)

  fits : a + b + w + 1 < 2 ^ 32
  fits = omega (arith, held_before, small g)

  room : (h : ℕ) → held (after_release h) + waiting_wants s g < 2 ^ 32
  room h = elim (Bool-cases (h == g)) [
    | inl here ↦ rw here (omega (arith, held_before, small g))
    | inr there ↦ rw there (small h)
  ]

  others : (p : Phase) (h : ℕ) → (h == g) ≡ false → at_phase g p h ≡ resting h
  others p h d = rw d refl

  at_g : (p : Phase) (e : DbData) → WaitsAreBlocked p e → WaitsAreBlocked (at_phase g p g) e
  at_g p e k = rw (==_refl g) k

  Goal : LockResult (Wake × DbData) → Type 0
  Goal r = Succeeds (Freed after_release) (r >>= λ r. wake g r.0 (set_db_data s g r.1))

  no_one_waits :
      (e : DbData)
      → Counts e a b w
      → WaitsAreBlocked rest e
      → SameLists (s.dbs g) e
      → Freed after_release (set_db_data s g e)
  no_one_waits e counts blocked same = record {
    after = after_release;
    consistent =
        replaced-IsConsistent s resting resting holders g e left c subset counts blocked
          (λ h d. refl) same;
    kept = λ h v k. k;
  }

  list_wants :
      (l : Waitlist) (e : DbData)
      → SameLists (s.dbs g) e
      → wants (set_db_data s g e) (waitlist l ((set_db_data s g e).dbs g)) ≤ waiting_wants s g
  list_wants l e same =
      rw (==_refl g, waitlist-SameLists l (s.dbs g) e same)
        (omega (arith, wants-set_db_data s g e (waitlist l (s.dbs g)), wants-waiting s g l))

  all_wait :
      (l : Waitlist) (p q : Phase)
      → Drains l p q
      → (e : DbData) → Counts e a b w
      → WaitsAreBlocked p e
      → SameLists (s.dbs g) e
      → Succeeds (Freed after_release) (wake g (new_owners l) (set_db_data s g e))
  unfolding wake
  all_wait l p q drains e counts blocked same =
      wake_all-Freed l p q drains g (waitlist l ((set_db_data s g e).dbs g)) (set_db_data s g e)
        after_release
        (replaced-IsConsistent s resting (at_phase g p) holders g e left c subset counts
          (at_g p e blocked) (others p) same)
        refl (λ h. omega (arith, room h, list_wants l e same))

  owner_granted :
      (e : DbData)
      → Counts e a b w
      → WaitsAreBlocked owner e
      → Grants db_mode_ew rest
          ((set_db_data s g e).dbs g)
          (shared_held (after_release g))
          (const_held (after_release g))
          (ew_held (after_release g))
          (try_lock db_mode_ew ((set_db_data s g e).dbs g))
  owner_granted e counts blocked = rw (==_refl g) (owner-Grants e a b w counts fits blocked)

  writer_wants :
      (t : ℕ) (e : DbData)
      → SameLists (s.dbs g) (set_waitlist exclusive_write (t ∷ e.exclusive_write_waitlist) e)
      → rounds_left (s.edts t) ≤ waiting_wants s g
  writer_wants t e same = omega (arith, ap (wants s) same.2)

  Woken-Freed :
      (e : DbData) {n : ℕ} (s' : LockGraph)
      → Woken (set_db_data s g e) g (at_phase g rest) after_release n s'
      → Freed after_release s'
  Woken-Freed e s' k =
      let f = settled-Freed s' g rest k.after k.consistent (
        subst (λ (x : Bool). WaitsAreBlocked (if x then rest else rest) (s'.dbs g)) (==_refl g)
          (k.consistent.blocked g)) in
      record {
        after = f.after;
        consistent = f.consistent;
        kept = λ h v i. f.kept h v (k.kept h v i);
      }

  one_waits :
      (t : ℕ) (e : DbData)
      → Counts e a b w
      → WaitsAreBlocked owner e
      → SameLists (s.dbs g) (set_waitlist exclusive_write (t ∷ e.exclusive_write_waitlist) e)
      → Succeeds (Freed after_release) (wake g (new_owner t) (set_db_data s g e))
  unfolding wake
  one_waits t e counts blocked same =
      let (n, next, in_list) =
        waits_for s resting (at_phase g owner) holders g e left c subset counts
          (at_g owner e blocked) (others owner) exclusive_write t e.exclusive_write_waitlist
          (sym same.2) in
      let next_ew = next ∙ ap (λ k. some (g, k)) (ew_mode n in_list) in
      Succeeds-map _ _ _ (λ s' k. Woken-Freed e s' k)
        (wake_task-Woken (set_db_data s g e) owner rest after_release t g db_mode_ew
          (popped-IsConsistent s resting (at_phase g owner) holders g e left c subset counts
            (at_g owner e blocked) (others owner) exclusive_write t e.exclusive_write_waitlist n
            (sym same.2) next in_list (same.0, same.1, refl))
          next_ew (owner_granted e counts blocked)
          (λ h. omega (arith, room h, writer_wants t e same)))

  released : (r : LockResult (Wake × DbData)) → Releases (s.dbs g) a b w r → Goal r
  unfolding Releases Goal Succeeds wake
  released assertion_failed h = absurd h
  released out_of_fuel h = absurd h
  released (done (no_one, e)) h = no_one_waits e h.0 h.1 h.2
  released (done (new_owner t, e)) h = one_waits t e h.0 h.1 h.2
  released (done (new_owners shared, e)) h =
      all_wait shared all_shared all_shared shared-Drains e h.0 h.1 h.2
  released (done (new_owners exclusive_read, e)) h =
      all_wait exclusive_read readers popped readers-Drains e h.0 h.1 h.2
  released (done (new_owners exclusive_write, e)) h = absurd h

  -- If waitlists, counters and tasks are consistent and a task holds a block, then to unlock the
  -- block returns: no assertion fails and the loop over the waiting tasks ends. All is consistent
  -- afterwards, and no task has lost another lock. The locks that are held or wanted must be fewer
  -- than 2 ^ 32.
  pub unlock-Freed : Succeeds (Freed after_release) (unlock g m s)
  unfolding unlock Goal
  unlock-Freed =
      released (release_lock m (s.dbs g))
        (release_lock-Releases m (s.dbs g) a b w locks Counts-before fits (c.blocked g))

-- ===== src/Shmem/Locking/Drain.antt =====
-- The loop over a waitlist whose tasks all try again (`unlock` in include/shmem/ocr_tbb_locking.h): it
-- ends, and no assertion in it fails.
use ocr_vx.Prelude.{
  ℕ, suc, ◌+◌, ◌^◌, ◌<◌, ◌≤◌, Bool, false, none, some, List, [], ◌∷◌, ◌==◌, if◌then◌else◌, ◌≡◌, inl,
  inr, refl, arith, length, ==_iff, ==_refl, Bool-cases, sym, ap, ◌∙◌, subst,
}
use ocr_vx.One.Types.{Mode, db_mode_null, db_mode_ro, db_mode_rw, db_mode_const, db_mode_ew}
use ocr_vx.Shmem.Locking.{
  done, ◌>>=◌, DbData, LockGraph, set_db_data, try_lock, Waitlist, shared, exclusive_read,
  exclusive_write, waitlist, set_waitlist,
}
use ocr_vx.Shmem.Locking.Block.{
  Phase, rest, readers, popped, all_shared, Counts, WaitsAreBlocked, SameLists, Grants,
  reader-Grants, rw-Grants, ro-Grants,
}
use ocr_vx.Shmem.Locking.Calls.{next_lock, rounds_left, wake_task, wake_all}
use ocr_vx.Shmem.Locking.Consistent.{
  IsConsistent, Holders, HoldsIn, held, lists_mode, shared_held, const_held, ew_held,
}
use ocr_vx.Shmem.Locking.Acquire.{waitlist-SameLists}
use ocr_vx.Shmem.Locking.Enqueue.{set_waitlist-Counts}
use ocr_vx.Shmem.Locking.Attempts.{Succeeds, Succeeds-map}
use ocr_vx.Shmem.Locking.Replace.{waits_for, popped-IsConsistent, with_holders}
use ocr_vx.Shmem.Locking.Wakes.{at_phase, next-rounds_left, Woken, wake_task-Woken, Succeeds->>=}

-- The tasks in list `w` can all be granted their lock, one after the other.
pub record Drains (w : Waitlist) (p q : Phase) : Type 0 where
  pub pops :
      (d : DbData) (t : ℕ) (ts : List ℕ)
      → waitlist w d ≡ t ∷ ts
      → WaitsAreBlocked p d
      → WaitsAreBlocked q (set_waitlist w ts d)
  pub grants :
      (m : Mode) (d : DbData) (a b c : ℕ)
      → lists_mode w m ≡ 1
      → Counts d a b c
      → a + b + c + 1 < 2 ^ 32
      → WaitsAreBlocked q d
      → Grants m p d a b c (try_lock m d)
  pub ends : (d : DbData) → waitlist w d ≡ [] → WaitsAreBlocked p d → WaitsAreBlocked rest d

pub readers-Drains : Drains exclusive_read readers popped
readers-Drains = record {
  pops = λ d t ts first b. (b.0, b.1, b.2);
  grants = reader_grants;
  ends = λ d empty b. ground arith;
}
  where
    reader_grants :
        (m : Mode) (d : DbData) (a b c : ℕ)
        → lists_mode exclusive_read m ≡ 1
        → Counts d a b c
        → a + b + c + 1 < 2 ^ 32
        → WaitsAreBlocked popped d
        → Grants m readers d a b c (try_lock m d)
    reader_grants db_mode_const d a b c l k small w = reader-Grants d a b c k small w
    reader_grants db_mode_null d a b c l k small w = cc
    reader_grants db_mode_ro d a b c l k small w = cc
    reader_grants db_mode_rw d a b c l k small w = cc
    reader_grants db_mode_ew d a b c l k small w = cc

pub shared-Drains : Drains shared all_shared all_shared
shared-Drains = record {
  pops = λ d t ts first b. b;
  grants = shared_grants;
  ends = λ d empty b. ground arith;
}
  where
    shared_grants :
        (m : Mode) (d : DbData) (a b c : ℕ)
        → lists_mode shared m ≡ 1
        → Counts d a b c
        → a + b + c + 1 < 2 ^ 32
        → WaitsAreBlocked all_shared d
        → Grants m all_shared d a b c (try_lock m d)
    shared_grants db_mode_rw d a b c l k small w = rw-Grants d a b c k small w
    shared_grants db_mode_ro d a b c l k small w = ro-Grants d a b c k small w
    shared_grants db_mode_null d a b c l k small w = cc
    shared_grants db_mode_const d a b c l k small w = cc
    shared_grants db_mode_ew d a b c l k small w = cc

-- How many locks the tasks in a list still want
abbrev pub wants : LockGraph → List ℕ → ℕ
wants s [] = 0
wants s (t ∷ ts) = rounds_left (s.edts t) + wants s ts

wants_mono :
    (s s' : LockGraph) (ts : List ℕ)
    → ((u : ℕ) → rounds_left (s'.edts u) ≤ rounds_left (s.edts u))
    → wants s' ts ≤ wants s ts
wants_mono s s' [] fewer = omega arith
wants_mono s s' (t ∷ ts) fewer = omega (arith, fewer t, wants_mono s s' ts fewer)

-- All is consistent and at rest, and no task has lost a block.
pub record Freed (holders : ℕ → Holders) (s' : LockGraph) : Type 0 where
  pub after : ℕ → Holders
  pub consistent : IsConsistent s' (λ h. rest) none after
  pub kept : (h u : ℕ) → HoldsIn u (holders h) → HoldsIn u (after h)

pub settled-Freed :
    (s : LockGraph) (g : ℕ) (p : Phase) (holders : ℕ → Holders)
    → IsConsistent s (at_phase g p) none holders
    → WaitsAreBlocked rest (s.dbs g)
    → Freed holders s
settled-Freed s g p holders c b = record {
  after = holders;
  consistent = record {
    counts = c.counts;
    blocked = blocked_at_rest;
    queued = c.queued;
    tasks = c.tasks;
    behind = c.behind;
  };
  kept = λ h u k. k;
}
  where
    blocked_at_rest : (h : ℕ) → WaitsAreBlocked rest (s.dbs h)
    blocked_at_rest h = elim (Bool-cases (h == g)) [
      | inl here ↦ subst (λ k. WaitsAreBlocked rest (s.dbs k)) (sym ((==_iff h g).0 here)) b
      | inr there ↦
          subst (λ (x : Bool). WaitsAreBlocked (if x then p else rest) (s.dbs h)) there
            (c.blocked h)
    ]

module _ (w : Waitlist) (p q : Phase) (drains : Drains w p q) (g : ℕ) where
  module _ (s : LockGraph) (holders : ℕ → Holders) (t : ℕ) (ts : List ℕ)
      (c : IsConsistent s (at_phase g p) none holders) (first : waitlist w (s.dbs g) ≡ t ∷ ts) where
    abbrev without : DbData
    without = set_waitlist w ts (s.dbs g)

    abbrev same_holders : ℕ → Holders
    same_holders = with_holders holders g (holders g)

    same_held : (h : ℕ) → same_holders h ≡ holders h
    same_held h = elim (Bool-cases (h == g)) [
      | inl here ↦ rw here (ap holders (sym ((==_iff h g).0 here)))
      | inr there ↦ rw there refl
    ]

    Counts-without :
        Counts without (shared_held (holders g)) (const_held (holders g)) (ew_held (holders g))
    Counts-without = set_waitlist-Counts w ts (s.dbs g) _ _ _ (c.counts g)

    blocked_without : WaitsAreBlocked q without
    blocked_without = drains.pops (s.dbs g) t ts first (
        subst (λ (x : Bool). WaitsAreBlocked (if x then p else rest) (s.dbs g)) (==_refl g)
          (c.blocked g))

    blocked_popped : WaitsAreBlocked (at_phase g q g) without
    blocked_popped = rw (==_refl g) blocked_without

    others : (h : ℕ) → (h == g) ≡ false → at_phase g q h ≡ at_phase g p h
    others h d = rw d refl

    next_and_mode : (m : Mode) × (next_lock (s.edts t) ≡ some (g, m)) × (lists_mode w m ≡ 1)
    next_and_mode =
        waits_for s (at_phase g p) (at_phase g q) holders g without (holders g) c (λ u k. k)
          Counts-without blocked_popped others w t ts first

    granted_without :
        (m : Mode)
        → lists_mode w m ≡ 1
        → ((h : ℕ) → held (holders h) + 1 < 2 ^ 32)
        → Grants m p
            ((set_db_data s g without).dbs g)
            (shared_held (same_holders g))
            (const_held (same_holders g))
            (ew_held (same_holders g))
            (try_lock m ((set_db_data s g without).dbs g))
    granted_without m in_list small = rw (==_refl g) (
        drains.grants m without _ _ _ in_list Counts-without (omega (arith, small g))
          blocked_without)

    abbrev TaskWoken : LockGraph → Type 0
    TaskWoken =
        Woken (set_db_data s g without) g (at_phase g p) same_holders (rounds_left (s.edts t))

    room_left :
        (s' : LockGraph) (k : TaskWoken s')
        → ((h : ℕ) → held (holders h) + wants s (t ∷ ts) < 2 ^ 32)
        → (h : ℕ) → held (k.after h) + wants s' ts < 2 ^ 32
    room_left s' k small h =
        omega (arith, small h, k.room h, wants_mono s s' ts k.fewer, ap held (same_held h))

    kept_by_both :
        (s' : LockGraph) (k : TaskWoken s') (s'' : LockGraph)
        → Freed k.after s''
        → Freed holders s''
    kept_by_both s' k s'' f = record {
      after = f.after;
      consistent = f.consistent;
      kept = λ h u b. f.kept h u (k.kept h u (subst (HoldsIn u) (sym (same_held h)) b));
    }

    task_wakes :
        ((h : ℕ) → held (holders h) + wants s (t ∷ ts) < 2 ^ 32)
        → Succeeds TaskWoken (wake_task g t (set_db_data s g without))
    task_wakes small =
        let (m, next, in_list) = next_and_mode in
        let (n, left) = next-rounds_left (s.edts t) g m next in
        wake_task-Woken (set_db_data s g without) q p same_holders t g m
          (popped-IsConsistent s (at_phase g p) (at_phase g q) holders g without (holders g) c
            (λ u k. k) Counts-without blocked_popped others w t ts m first next in_list
            (refl, refl, refl))
          next (granted_without m in_list (λ h. omega (arith, small h, left)))
          (λ h. rw (same_held h) (omega (arith, small h)))

  wake_all-empty : (s : LockGraph) → waitlist w (s.dbs g) ≡ [] → wake_all 0 g w s ≡ done s
  unfolding wake_all
  wake_all-empty s empty = rw (empty, wake_all) refl

  wake_all-first :
      (n : ℕ) (s : LockGraph) (t : ℕ) (ts : List ℕ)
      → waitlist w (s.dbs g) ≡ t ∷ ts
      → wake_all (suc n) g w s ≡ (
          wake_task g t (set_db_data s g (set_waitlist w ts (s.dbs g))) >>= λ s'. wake_all n g w s')
  unfolding wake_all
  wake_all-first n s t ts first = rw (first, wake_all) refl

  list_left :
      (s s' : LockGraph) (ts : List ℕ)
      → SameLists ((set_db_data s g (set_waitlist w ts (s.dbs g))).dbs g) (s'.dbs g)
      → waitlist w (s'.dbs g) ≡ ts
  list_left s s' ts same =
      waitlist-SameLists w (set_waitlist w ts (s.dbs g)) (s'.dbs g) (
        subst
          (λ (x : Bool). SameLists (if x then set_waitlist w ts (s.dbs g) else s.dbs g) (s'.dbs g))
          (==_refl g) same)
      ∙ waitlist-set w ts (s.dbs g)
    where
      waitlist-set :
          (w : Waitlist) (ts : List ℕ) (d : DbData) → waitlist w (set_waitlist w ts d) ≡ ts
      waitlist-set shared ts d = refl
      waitlist-set exclusive_read ts d = refl
      waitlist-set exclusive_write ts d = refl

  pub wake_all-Freed :
      (ts : List ℕ) (s : LockGraph) (holders : ℕ → Holders)
      → IsConsistent s (at_phase g p) none holders
      → waitlist w (s.dbs g) ≡ ts
      → ((h : ℕ) → held (holders h) + wants s ts < 2 ^ 32)
      → Succeeds (Freed holders) (wake_all (length ts) g w s)
  unfolding Succeeds
  wake_all-Freed [] s holders c empty small = rw (wake_all-empty s empty) (
      settled-Freed s g p holders c (
        drains.ends (s.dbs g) empty (
          subst (λ (x : Bool). WaitsAreBlocked (if x then p else rest) (s.dbs g)) (==_refl g)
            (c.blocked g))))
  wake_all-Freed (t ∷ ts) s holders c first small = rw (wake_all-first (length ts) s t ts first) (
      Succeeds->>= (TaskWoken s holders t ts c first) (Freed holders)
        (wake_task g t (set_db_data s g (set_waitlist w ts (s.dbs g)))) _
        (task_wakes s holders t ts c first small)
        λ s' k.
          Succeeds-map (Freed k.after) (Freed holders) _
            (λ s'' f. kept_by_both s holders t ts c first s' k s'' f)
            (wake_all-Freed ts s' k.after k.consistent (list_left s s' ts k.same)
              (room_left s holders t ts c first s' k small)))

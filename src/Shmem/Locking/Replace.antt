-- ===== src/Shmem/Locking/Replace.antt =====
-- A block that loses a holder, or whose first waiting task is taken out to try again (`unlock` in
-- include/shmem/ocr_tbb_locking.h).
use ocr_vx.Prelude.{
  ℕ, ◌+◌, ◌<◌, Bool, true, false, Option, none, some, List, ◌∷◌, ◌==◌, if◌then◌else◌, ◌≡◌, inl, inr,
  refl, arith, count, ==_iff, ==_refl, Bool-cases, sym, ◌∙◌, subst,
}
use ocr_vx.One.Types.{Mode}
use ocr_vx.Shmem.Locking.{
  DbData, LockGraph, set_db_data, Waitlist, shared, exclusive_read, exclusive_write, waitlist,
  set_waitlist,
}
use ocr_vx.Shmem.Locking.Block.{Counts, Phase, WaitsAreBlocked, SameLists}
use ocr_vx.Shmem.Locking.Calls.{next_lock}
use ocr_vx.Shmem.Locking.Consistent.{
  IsConsistent, Holders, HoldsIn, Behind, lists_mode, waits_in, shared_held, const_held, ew_held,
}
use ocr_vx.Shmem.Locking.Acquire.{eq_sym, waitlist-SameLists}

-- The holders, with `hs` for those of block `g`
abbrev pub with_holders : (ℕ → Holders) → ℕ → Holders → ℕ → Holders
with_holders holders g hs h = if h == g then hs else holders h

-- What a task that stands in a waitlist locks next
waits_in-pos :
    (g : ℕ) (w : Waitlist) (next : Option (ℕ × Mode))
    → 0 < waits_in g w next
    → (m : Mode) × (next ≡ some (g, m)) × (lists_mode w m ≡ 1)
waits_in-pos g w none h = absurd (omega (arith, h))
waits_in-pos g shared (some (h, m)) p = (m, ground arith, ground arith)
waits_in-pos g exclusive_read (some (h, m)) p = (m, ground arith, ground arith)
waits_in-pos g exclusive_write (some (h, m)) p = (m, ground arith, ground arith)

count_pop :
    (w v : Waitlist) (t u : ℕ) (ts : List ℕ) (d : DbData) (m : Mode)
    → waitlist w d ≡ t ∷ ts
    → lists_mode w m ≡ 1
    → count u (waitlist v (set_waitlist w ts d)) + (if t == u then lists_mode v m else 0)
      ≡ count u (waitlist v d)
unfolding count
count_pop shared shared t u ts d m first k = rw (first, k) (ground arith)
count_pop shared v t u ts d m first k = ground arith
count_pop exclusive_read exclusive_read t u ts d m first k = rw (first, k) (ground arith)
count_pop exclusive_read v t u ts d m first k = ground arith
count_pop exclusive_write exclusive_write t u ts d m first k = rw (first, k) (ground arith)
count_pop exclusive_write v t u ts d m first k = ground arith

module _ (s : LockGraph) (phase after : ℕ → Phase) (holders : ℕ → Holders) (g : ℕ) (e : DbData)
    (hs : Holders) (c : IsConsistent s phase none holders)
    (subset : (u : ℕ) → HoldsIn u hs → HoldsIn u (holders g))
    (counts : Counts e (shared_held hs) (const_held hs) (ew_held hs))
    (blocked : WaitsAreBlocked (after g) e)
    (others : (h : ℕ) → (h == g) ≡ false → after h ≡ phase h) where
  Counts-after :
      (h : ℕ)
      → Counts
          (if h == g then e else s.dbs h)
          (shared_held (with_holders holders g hs h))
          (const_held (with_holders holders g hs h))
          (ew_held (with_holders holders g hs h))
  Counts-after h = elim (Bool-cases (h == g)) [
    | inl here ↦ rw here counts
    | inr there ↦ rw there (c.counts h)
  ]

  blocked_after : (h : ℕ) → WaitsAreBlocked (after h) (if h == g then e else s.dbs h)
  blocked_after h = elim (Bool-cases (h == g)) [
    | inl here ↦ rw ((==_iff h g).0 here, ==_refl g) blocked
    | inr there ↦ rw (there, others h there) (c.blocked h)
  ]

  behind_after : (h u : ℕ) → HoldsIn u (with_holders holders g hs h) → Behind (s.edts u) h
  behind_after h u = elim (Bool-cases (h == g)) [
    | inl here ↦
        rw ((==_iff h g).0 here, ==_refl g) (λ (k : HoldsIn u hs). c.behind g u (subset u k))
    | inr there ↦ rw there (c.behind h u)
  ]

  module _ (same : SameLists (s.dbs g) e) where
    queued_after :
        (h : ℕ) (v : Waitlist) (u : ℕ)
        → count u (waitlist v (if h == g then e else s.dbs h)) ≡ waits_in h v (next_lock (s.edts u))
    queued_after h v u = elim (Bool-cases (h == g)) [
      | inl here ↦
          rw ((==_iff h g).0 here, ==_refl g, waitlist-SameLists v (s.dbs g) e same)
            (c.queued g v u)
      | inr there ↦ rw there (c.queued h v u)
    ]

    pub replaced-IsConsistent :
        IsConsistent (set_db_data s g e) after none (with_holders holders g hs)
    replaced-IsConsistent = record {
      counts = Counts-after;
      blocked = blocked_after;
      queued = queued_after;
      tasks = c.tasks;
      behind = behind_after;
    }

  pub waits_for :
      (w : Waitlist) (t : ℕ) (ts : List ℕ)
      → waitlist w (s.dbs g) ≡ t ∷ ts
      → (m : Mode) × (next_lock (s.edts t) ≡ some (g, m)) × (lists_mode w m ≡ 1)
  unfolding count
  waits_for w t ts first =
      waits_in-pos g w (next_lock (s.edts t))
        (subst (λ n. 0 < n) (c.queued g w t) (rw first (rw (==_refl t) (omega arith))))

  module _ (w : Waitlist) (t : ℕ) (ts : List ℕ) (m : Mode) (first : waitlist w (s.dbs g) ≡ t ∷ ts)
      (next : next_lock (s.edts t) ≡ some (g, m)) (in_list : lists_mode w m ≡ 1)
      (popped : SameLists (set_waitlist w ts (s.dbs g)) e) where
    queued_here :
        (v : Waitlist) (u : ℕ)
        → count u (waitlist v (set_waitlist w ts (s.dbs g)))
          ≡ (if t == u then 0 else waits_in g v (next_lock (s.edts u)))
    queued_here v u = elim (Bool-cases (t == u)) [
      | inl me ↦ rw me (
          omega (
            arith,
            subst
                (λ (b : Bool).
                  count u (waitlist v (set_waitlist w ts (s.dbs g)))
                    + (if b then lists_mode v m else 0)
                  ≡ count u (waitlist v (s.dbs g)))
                me (count_pop w v t u ts (s.dbs g) m first in_list),
            c.queued g v u,
            mine v u me,
          ))
      | inr other ↦ rw other (
          omega (
            arith,
            subst
                (λ (b : Bool).
                  count u (waitlist v (set_waitlist w ts (s.dbs g)))
                    + (if b then lists_mode v m else 0)
                  ≡ count u (waitlist v (s.dbs g)))
                other (count_pop w v t u ts (s.dbs g) m first in_list),
            c.queued g v u,
          ))
    ]
      where
        mine :
            (v : Waitlist) (u : ℕ)
            → (t == u) ≡ true
            → waits_in g v (next_lock (s.edts u)) ≡ lists_mode v m
        mine v u me = rw (sym ((==_iff t u).0 me), next, ==_refl g) refl

    queued_there :
        (h : ℕ) (v : Waitlist) (u : ℕ)
        → (h == g) ≡ false
        → waits_in h v (next_lock (s.edts u))
          ≡ (if t == u then 0 else waits_in h v (next_lock (s.edts u)))
    queued_there h v u there = elim (Bool-cases (t == u)) [
      | inl me ↦ rw (sym ((==_iff t u).0 me), ==_refl t, next, eq_sym g h ∙ there) refl
      | inr other ↦ rw other refl
    ]

    queued_popped :
        (h : ℕ) (v : Waitlist) (u : ℕ)
        → count u (waitlist v (if h == g then e else s.dbs h))
          ≡ (if t == u then 0 else waits_in h v (next_lock (s.edts u)))
    queued_popped h v u = elim (Bool-cases (h == g)) [
      | inl here ↦
          rw
            (
              (==_iff h g).0 here,
              ==_refl g,
              waitlist-SameLists v (set_waitlist w ts (s.dbs g)) e popped,
            )
            (queued_here v u)
      | inr there ↦ rw there (c.queued h v u ∙ queued_there h v u there)
    ]

    pub popped-IsConsistent :
        IsConsistent (set_db_data s g e) after (some t) (with_holders holders g hs)
    popped-IsConsistent = record {
      counts = Counts-after;
      blocked = blocked_after;
      queued = queued_popped;
      tasks = c.tasks;
      behind = behind_after;
    }

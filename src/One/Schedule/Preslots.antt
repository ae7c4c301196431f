-- ===== src/One/Schedule/Preslots.antt =====
-- Preslots and the queue: `set_preslot`, `edt::satisfy`, `spawn` (include/one/edt.h).
use ocr_vx.Prelude.{
  ℕ, zero, suc, ◌≡◌, refl, sym, ◌∙◌, true, false, List, [], ◌∷◌, ◌++◌, some, ◌==◌, count-snoc,
  arith, set, get_elem?, Option-cases, Bool-cases, inl, inr, ==_refl, ==_iff, ap,
}
use ocr_vx.One.Types.{Runtime, Object, event_object, edt_object, Edt, Mode, Preslot, invalid_slot}
use ocr_vx.One.Monad.{ok, ◌>>◌, get, add_object, put, update, as_edt}
use ocr_vx.One.Logic.{Post, Keeps, Keeps-bind, Keeps-stop}
use ocr_vx.One.Reads.{get-bind, at_slot-Keeps}
use ocr_vx.One.Edges.{set_preslot, set_preslot_of}
use ocr_vx.One.Node.{
  all_satisfied, at_slot, append_task, spawn, get_edt, satisfy_edt_slot, satisfy_edt_object,
  edt_satisfy,
}
use ocr_vx.One.Schedule.Defs.{
  is_ready, IsScheduled, write-IsScheduled, Ready, put-Keeps, at-IsScheduled,
}

-- A task that becomes ready joins the queue.
pub spawned-IsScheduled :
    (s : Runtime) (g : ℕ) (o : Object)
    → is_ready (s.objects g) ≡ false
    → is_ready (some o) ≡ true
    → IsScheduled s
    → IsScheduled (record s {
      objects = update s.objects g (some o);
      ready_tasks = s.ready_tasks ++ (g ∷ []);
    })
spawned-IsScheduled s g o old new p h = elim (Bool-cases (g == h)) [
  | inl same ↦ rw same (
      ground (
        arith,
        p h,
        count-snoc h g s.ready_tasks,
        ap (λ (k : ℕ). is_ready (s.objects k)) ((==_iff g h).0 same),
      ))
  | inr other ↦ rw (count-snoc h g s.ready_tasks, other) (omega (arith, p h))
]

pub spawn-at :
    (s : Runtime) (g : ℕ) (e : Edt)
    → s.objects g ≡ some (edt_object e)
    → spawn g s ≡ ok (tt, record s { ready_tasks = s.ready_tasks ++ (g ∷ []) })
unfolding spawn get_edt get as_edt append_task
spawn-at s g e h = rw (h, get)

pub add_ready-Keeps :
    (g : ℕ) (e : Edt)
    → all_satisfied e.preslots ≡ true
    → Keeps IsScheduled (add_object g (edt_object e) >> spawn g)
unfolding add_object spawn
add_ready-Keeps g e h = record {
  keep = λ s p. elim (Option-cases (s.objects g)) [
    | inl e' ↦
        simp
          (
            e',
            add_object,
            spawn-at (record s { objects = update s.objects g (some (edt_object e)) }) g e
                (rw (==_refl g)),
          )
          (spawned-IsScheduled s g (edt_object e) (rw e') h p)
    | inr (x, e') ↦ simp (e', add_object) tt
  ];
}

-- Defining a preslot keeps its `satisfied`.
pub all_satisfied-set_same :
    (ps : List Preslot) (i : ℕ) (p q : Preslot)
    → get_elem? ps i ≡ some p
    → q.satisfied ≡ p.satisfied
    → all_satisfied (set ps i q) ≡ all_satisfied ps
unfolding all_satisfied
all_satisfied-set_same [] i p q h e = refl
all_satisfied-set_same (x ∷ ps) zero p q h e = ground arith
all_satisfied-set_same (x ∷ ps) (suc i) p q h e = rw (all_satisfied-set_same ps i p q h e) refl

-- While a preslot is unsatisfied, the node waits.
pub all_satisfied-false :
    (ps : List Preslot) (i : ℕ) (p : Preslot)
    → get_elem? ps i ≡ some p
    → p.satisfied ≡ false
    → all_satisfied ps ≡ false
unfolding all_satisfied
all_satisfied-false [] i p h e = cc
all_satisfied-false (x ∷ ps) zero p h e = ground arith
all_satisfied-false (x ∷ ps) (suc i) p h e = ground (arith, all_satisfied-false ps i p h e)

pub set_preslot-Keeps :
    (g i : ℕ) (mode : Mode) (source : ℕ) → Keeps IsScheduled (set_preslot g i mode source)
unfolding set_preslot set_preslot_of at_slot
set_preslot-Keeps g i mode source = at-IsScheduled g _ go
  where
    go : (o : Object) → Keeps (Ready g (is_ready (some o))) (set_preslot_of o g i mode source)
    go (event_object e) =
        Keeps-bind (at_slot-Keeps e.preslots i invalid_slot) λ p. put-Keeps g _ false refl
    go (edt_object e) = record {
      keep = λ s q. elim (Option-cases (get_elem? e.preslots i)) [
        | inl h ↦ rw (h, at_slot) tt
        | inr (p, h) ↦
            rw (h, at_slot)
              ((put-Keeps g _ _ (all_satisfied-set_same e.preslots i p _ h refl)).keep s q)
      ];
    }
    go _ = Keeps-stop _

-- `spawn` is called when the last preslot is satisfied, which happens once.
pub satisfy_edt_slot-Keeps :
    (s : Runtime) (g : ℕ) (e : Edt) (arg slot : ℕ) (p : Preslot)
    → s.objects g ≡ some (edt_object e)
    → get_elem? e.preslots slot ≡ some p
    → IsScheduled s
    → Post IsScheduled (satisfy_edt_slot g e arg slot p s)
unfolding satisfy_edt_slot put
satisfy_edt_slot-Keeps s g e arg slot p o h q = elim (Bool-cases p.satisfied) [
  | inl twice ↦ simp twice tt
  | inr first ↦ elim (Bool-cases (all_satisfied slots)) [
    | inl last ↦
        simp
          (
            first,
            last,
            spawn-at (record s { objects = update s.objects g (some new) }) g
                (record e { preslots = slots }) (rw (==_refl g)),
          )
          (spawned-IsScheduled s g new (rw o (waiting first)) last q)
    | inr more ↦
        simp (first, more) (write-IsScheduled s g (some new) (rw o (waiting first ∙ sym more)) q)
  ]
]
  where
    slots : List Preslot
    slots = set e.preslots slot (record p { satisfied = true; data_guid = arg })

    new : Object
    new = edt_object (record e { preslots = slots })

    waiting : p.satisfied ≡ false → all_satisfied e.preslots ≡ false
    waiting first = all_satisfied-false e.preslots slot p h first

pub edt_satisfy-Keeps : (g arg slot : ℕ) → Keeps IsScheduled (edt_satisfy g arg slot)
unfolding edt_satisfy satisfy_edt_object at_slot
edt_satisfy-Keeps g arg slot = get-bind g _ go
  where
    go :
        (s : Runtime) (o : Object)
        → s.objects g ≡ some o
        → IsScheduled s
        → Post IsScheduled (satisfy_edt_object g arg slot o s)
    go s (edt_object e) o q = elim (Option-cases (get_elem? e.preslots slot)) [
      | inl h ↦ rw (h, at_slot) tt
      | inr (p, h) ↦ rw (h, at_slot) (satisfy_edt_slot-Keeps s g e arg slot p o h q)
    ]
    go s _ o q = tt

-- ===== src/One/Cascade/Defs.antt =====
-- The graph of events without cycles: each edge leads to a node of lower rank. The elementary steps
-- of a satisfaction keep it (include/one/event.h, include/one/node.h).
use ocr_vx.Prelude.{
  ℕ, ◌≡◌, ◌<◌, ◌≤◌, refl, false, List, [], ◌∷◌, Option, none, some, ◌==◌, Option-cases, Bool-cases,
  inl, inr, subst, arith, get_elem?, ==_iff,
}
use ocr_vx.One.Types.{
  Runtime, Object, Fault, Event, Postslot, event_object, edt_object, lid_object, db_object,
  invalid_slot, null_guid,
}
use ocr_vx.One.Monad.{
  M, ◌>>=◌, pure, get, put, update, remove_object, remove_as, event_kind, has_kind, as_event,
  as_edt, as_db, resolve_object, resolve_lid,
}
use ocr_vx.One.Db.{get_db}
use ocr_vx.One.Node.{
  at_slot, get_event, get_edt, write_event, update_event, spawn, append_task, satisfy_edt_slot,
  satisfy_edt_object, edt_satisfy, check_data,
}
use ocr_vx.One.Cascade.Logic.{
  is_out_of_fuel, Any, Halts, Halts-bind, Halts-then, Halts-pure, Halts-stop, Halts-if, Halts-guard,
  get-Halts,
}

-- Each edge leads to a rank below `n`.
abbrev pub EdgesBelow : (ℕ → ℕ) → ℕ → List Postslot → Type 0
EdgesBelow rank n [] = Unit
EdgesBelow rank n (p ∷ ps) = (rank p.destination < n) × EdgesBelow rank n ps

abbrev pub EventRanked : (ℕ → ℕ) → ℕ → Event → Type 0
EventRanked rank n e = EdgesBelow rank n e.postslots × EdgesBelow rank n e.channel_out_queue

-- A lid ranks at least as high as what it stands for.
abbrev pub ObjectRanked : (ℕ → ℕ) → ℕ → Option Object → Type 0
ObjectRanked rank n (some (event_object e)) = EventRanked rank n e
ObjectRanked rank n (some (lid_object target)) = rank target ≤ n
ObjectRanked rank n _ = Unit

abbrev pub Ranked : (ℕ → ℕ) → Runtime → Type 0
Ranked rank s = (g : ℕ) → ObjectRanked rank (rank g) (s.objects g)

pub write-Ranked :
    (rank : ℕ → ℕ) (s : Runtime) (g : ℕ) (o : Option Object)
    → ObjectRanked rank (rank g) o
    → Ranked rank s
    → Ranked rank (record s { objects = update s.objects g o })
write-Ranked rank s g o h p k = elim (Bool-cases (g == k)) [
  | inl same ↦ rw same (subst (λ (j : ℕ). ObjectRanked rank (rank j) o) ((==_iff g k).0 same) h)
  | inr other ↦ rw other (p k)
]

module _ {rank : ℕ → ℕ} where
  pub put-Halts :
      (g : ℕ) (o : Object) → ObjectRanked rank (rank g) (some o) → Halts (Ranked rank) Any (put g o)
  unfolding put
  put-Halts g o h = record { halts = λ s p. (write-Ranked rank s g (some o) h p, tt) }

  -- The object that `get` finds is ranked.
  pub at-Ranked :
      {B : Type 0} {R : B → Type 0} (g : ℕ) (f : Object → M B)
      → ((o : Object) → ObjectRanked rank (rank g) (some o) → Halts (Ranked rank) R (f o))
      → Halts (Ranked rank) R (get g >>= f)
  at-Ranked g f h =
      get-Halts g f λ s o e p. (h o (subst (ObjectRanked rank (rank g)) e (p g))).halts s p

  pub get_event-Halts : (g : ℕ) → Halts (Ranked rank) (EventRanked rank (rank g)) (get_event g)
  unfolding get_event as_event
  get_event-Halts g = at-Ranked g _ go
    where
      go :
          (o : Object)
          → ObjectRanked rank (rank g) (some o)
          → Halts (Ranked rank) (EventRanked rank (rank g)) (as_event o)
      go (event_object e) h = Halts-pure e h
      go _ h = Halts-stop _ refl

  get_edt-Halts : (g : ℕ) → Halts (Ranked rank) Any (get_edt g)
  unfolding get_edt as_edt
  get_edt-Halts g = at-Ranked g _ go
    where
      go : (o : Object) → ObjectRanked rank (rank g) (some o) → Halts (Ranked rank) Any (as_edt o)
      go (edt_object e) h = Halts-pure e tt
      go _ h = Halts-stop _ refl

  get_db-Halts : (g : ℕ) → Halts (Ranked rank) Any (get_db g)
  unfolding get_db as_db
  get_db-Halts g = at-Ranked g _ go
    where
      go : (o : Object) → ObjectRanked rank (rank g) (some o) → Halts (Ranked rank) Any (as_db o)
      go (db_object e) h = Halts-pure e tt
      go _ h = Halts-stop _ refl

  pub exists-Halts : (g : ℕ) → Halts (Ranked rank) Any (get g >>= λ _. pure tt)
  exists-Halts g = at-Ranked g (λ _. pure tt) λ o h. Halts-pure tt tt

  pub at_slot-Halts :
      {A : Type 0} (xs : List A) (i : ℕ) (e : Fault)
      → is_out_of_fuel e ≡ false
      → Halts (Ranked rank) Any (at_slot xs i e)
  unfolding at_slot
  at_slot-Halts xs i e h = record {
    halts = λ s p. elim (Option-cases (get_elem? xs i)) [
      | inl none' ↦ rw (none', at_slot) h
      | inr (x, some') ↦ rw (some', at_slot) (p, tt)
    ];
  }

  -- A lid leads to an object that does not rank higher.
  pub resolve_lid-Halts :
      (g : ℕ) → Halts (Ranked rank) (λ target. rank target ≤ rank g) (resolve_lid g)
  unfolding resolve_lid resolve_object
  resolve_lid-Halts g =
      Halts-if (g == null_guid) (Halts-pure g (omega arith)) (at-Ranked g (resolve_object g) go)
    where
      go :
          (o : Object)
          → ObjectRanked rank (rank g) (some o)
          → Halts (Ranked rank) (λ target. rank target ≤ rank g) (resolve_object g o)
      go (lid_object target) h =
          Halts-if (target == null_guid) (Halts-stop _ refl) (Halts-pure target h)
      go _ h = Halts-pure g (omega arith)

  -- Fields that are not edges may change.
  pub update_event-Halts :
      (g : ℕ) (f : Event → Event)
      → ((e : Event) → EventRanked rank (rank g) e → EventRanked rank (rank g) (f e))
      → Halts (Ranked rank) Any (update_event g f)
  unfolding update_event write_event
  update_event-Halts g f k = at-Ranked g (write_event g f) go
    where
      go :
          (o : Object)
          → ObjectRanked rank (rank g) (some o)
          → Halts (Ranked rank) Any (write_event g f o)
      go (event_object e) h = put-Halts g (event_object (f e)) (k e h)
      go _ h = Halts-stop _ refl

  spawn-Halts : (g : ℕ) → Halts (Ranked rank) Any (spawn g)
  unfolding spawn append_task
  spawn-Halts g = Halts-bind (get_edt-Halts g) λ e _. record { halts = λ s p. (p, tt) }

  pub edt_satisfy-Halts : (g arg slot : ℕ) → Halts (Ranked rank) Any (edt_satisfy g arg slot)
  unfolding edt_satisfy satisfy_edt_object satisfy_edt_slot
  edt_satisfy-Halts g arg slot = at-Ranked g (satisfy_edt_object g arg slot) go
    where
      go :
          (o : Object)
          → ObjectRanked rank (rank g) (some o)
          → Halts (Ranked rank) Any (satisfy_edt_object g arg slot o)
      go (edt_object e) h = Halts-bind (at_slot-Halts e.preslots slot invalid_slot refl) λ p _.
          Halts-then (Halts-guard _ _ refl)
            (Halts-then (put-Halts g _ tt) (Halts-if _ (spawn-Halts g) (Halts-pure tt tt)))
      go _ h = Halts-stop _ refl

  pub check_data-Halts : (arg : ℕ) → Halts (Ranked rank) Any (check_data arg)
  unfolding check_data
  check_data-Halts arg =
      Halts-if (arg == null_guid) (Halts-pure tt tt)
        (Halts-bind (get_db-Halts arg) λ b _. Halts-guard _ _ refl)

  pub remove_event-Halts : (g : ℕ) → Halts (Ranked rank) Any (remove_as event_kind g)
  unfolding remove_as remove_object
  remove_event-Halts g = get-Halts g _ λ s o e p. elim (Bool-cases (has_kind event_kind o)) [
    | inl yes' ↦ simp (yes', e, remove_object) (write-Ranked rank s g none tt p, tt)
    | inr no' ↦ simp no' refl
  ]

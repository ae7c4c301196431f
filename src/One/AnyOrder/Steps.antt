-- ===== src/One/AnyOrder/Steps.antt =====
-- What `add_dependence` and the first satisfaction of a sticky event do, step by step.
use ocr_vx.Prelude.{
  ℕ, suc, ◌≡◌, ◌≢◌, refl, sym, ◌∙◌, ap, fun_ext, true, false, [], ◌∷◌, ◌++◌, some, ◌==◌, ==_refl,
  get_elem?, set, if◌then◌else◌, arith, Bool-cases, inl, inr,
}
use ocr_vx.One.Types.{
  Runtime, Event, Edt, Mode, Preslot, Postslot, event_object, edt_object, sticky_t, null_guid,
  db_mode_null, db_mode_const, db_mode_rw, db_mode_ew, db_mode_ro,
}
use ocr_vx.One.Monad.{pure, ◌>>◌, get, as_event, put, update, resolve_object, resolve_lid}
use ocr_vx.One.Node.{
  Deliver, at_slot, get_event, write_event, update_event, local_data, node_satisfy, object_satisfy,
  edt_satisfy, notify, is_channel, handle_satisfied, set_satisfied, satisfy_by_type,
  event_satisfy_step, event_satisfy,
}
use ocr_vx.One.Edges.{
  define_preslot, set_preslot, set_preslot_of, add_postslot, connect, add_dependence,
}
use ocr_vx.One.EventStates.{with_event}
use ocr_vx.One.Latch.{then_done}

abbrev pub with_edt : Runtime → ℕ → Edt → Runtime
with_edt s g e = record s { objects = update s.objects g (some (edt_object e)) }

-- The edge that `add_dependence` adds.
abbrev edge : ℕ → ℕ → Mode → Postslot
edge t i mode = record { destination = t; preslot_index = i; preslot_mode = mode }

abbrev connected : Event → ℕ → ℕ → Mode → Event
connected e t i mode = record e { postslots = e.postslots ++ (edge t i mode ∷ []) }

abbrev defined_at : Edt → ℕ → Preslot → Mode → ℕ → Edt
defined_at x i q mode g = record x { preslots = set x.preslots i (define_preslot q mode g) }

module _ (g t i : ℕ) (mode : Mode) (x : Edt) (q : Preslot) (g_named : (g == null_guid) ≡ false)
    (t_named : (t == null_guid) ≡ false) (apart : (t == g) ≡ false)
    (slot : get_elem? x.preslots i ≡ some q) where
  kept :
      (u : Runtime) (e : Event) (y : Edt)
      → u.objects g ≡ some (event_object e)
      → (with_edt u t y).objects g ≡ some (event_object e)
  kept u e y hg = rw apart hg

  add_dependence_at :
      (deliver : Deliver) (u : Runtime) (e : Event)
      → u.objects g ≡ some (event_object e)
      → u.objects t ≡ some (edt_object x)
      → is_channel e.type ≡ false
      → add_dependence deliver g t i mode u
        ≡ (if e.satisfied then node_satisfy deliver t e.data_guid i else pure tt)
            (with_event (with_edt u t (defined_at x i q mode g)) g (connected e t i mode))
  unfolding add_dependence resolve_lid resolve_object get set_preslot set_preslot_of at_slot put
      connect add_postslot get_event as_event update_event write_event
  add_dependence_at deliver u e hg ht plain =
      let same = kept u e (defined_at x i q mode g) hg in
      rw (g_named, t_named)
        (rw (hg, get)
          (rw (ht, get)
            (rw (ht, get)
              (rw (slot, at_slot)
                (rw g_named (
                  rw (same, get)
                    (rw (same, get) (rw plain (rw (same, get) (rw (==_refl g, get) refl))))))))))

-- A sticky event that is not satisfied
abbrev pub fresh : Event → Event
fresh e = record e { type = sticky_t; satisfied = false }

fresh_lem : (e : Event) → e.type ≡ sticky_t → e.satisfied ≡ false → e ≡ fresh e
fresh_lem e sticky open' = λ i. record e { type = sticky i; satisfied = open' i }

-- Its first satisfaction, up to the edges.
module _ (fuel g arg : ℕ) (p : Preslot) where
  abbrev got : Event → Event
  got e = record (fresh e) { data_guid = local_data p.mode arg }

  abbrev filled : Event → Event
  filled e = record (got e) { satisfied = true }

  satisfy_at :
      (u : Runtime) (e : Event)
      → u.objects g ≡ some (event_object (fresh e))
      → get_elem? e.preslots 0 ≡ some p
      → event_satisfy (suc fuel) g arg 0 u
        ≡ notify
            (event_satisfy fuel)
            g
            e.postslots
            (with_event (with_event u g (got e)) g (filled e))
  unfolding event_satisfy event_satisfy_step get_event get as_event at_slot update_event write_event
      put satisfy_by_type set_satisfied handle_satisfied is_channel
  satisfy_at u e hg slot =
      rw (hg, get)
        (rw (slot, at_slot) (rw (hg, get) (rw (==_refl g, get) (rw (==_refl g, get) refl))))

  -- One edge, to a task.
  notify_one :
      (u : Runtime) (e : Event) (t i : ℕ) (mode : Mode)
      → u.objects g ≡ some (event_object e)
      → notify (event_satisfy fuel) g (edge t i mode ∷ []) u
        ≡ node_satisfy (event_satisfy fuel) t (local_data mode e.data_guid) i u
  unfolding notify get_event get as_event
  notify_one u e t i mode hg = rw (hg, get) (then_done _)

pub carries : (mode : Mode) (arg : ℕ) → mode ≢ db_mode_null → local_data mode arg ≡ arg
unfolding local_data
carries db_mode_null arg h = absurd (h refl)
carries db_mode_const arg h = refl
carries db_mode_rw arg h = refl
carries db_mode_ew arg h = refl
carries db_mode_ro arg h = refl

node_satisfy-edt :
    (deliver : Deliver) (u : Runtime) (t arg i : ℕ) (y : Edt)
    → u.objects t ≡ some (edt_object y)
    → node_satisfy deliver t arg i u ≡ edt_satisfy t arg i u
unfolding node_satisfy get object_satisfy
node_satisfy-edt deliver u t arg i y h = rw (h, get) refl

-- Writes to one GUID and to another in either order.
same_writes :
    (s : Runtime) (g t : ℕ) (y : Edt) (a b c d e : Event)
    → with_event (with_event (with_event (with_edt s t y) g a) g b) g e
      ≡ with_event (with_edt (with_event (with_event s g c) g d) t y) g e
same_writes s g t y a b c d e =
    ap (λ o. record s { objects = o })
      (fun_ext λ k. elim (Bool-cases (g == k)) [ inl yes' ↦ rw yes' | inr no' ↦ rw no' ])

module _ (fuel g t i arg : ℕ) (mode : Mode) (s : Runtime) (e : Event) (p : Preslot) (x : Edt)
    (q : Preslot) (g_named : (g == null_guid) ≡ false) (t_named : (t == null_guid) ≡ false)
    (apart : (t == g) ≡ false) (hp : get_elem? e.preslots 0 ≡ some p)
    (hq : get_elem? x.preslots i ≡ some q) (ht : s.objects t ≡ some (edt_object x))
    (hg : s.objects g ≡ some (event_object (fresh (record e { postslots = [] })))) where
  abbrev alone : Event
  alone = record e { postslots = [] }

  abbrev wired : Event
  wired = record e { postslots = edge t i mode ∷ [] }

  abbrev task : Edt
  task = defined_at x i q mode g

  -- The task's slot is satisfied here in both orders.
  abbrev pub before_task : Runtime
  before_task =
      with_event
        (with_event (with_event (with_edt s t task) g (fresh wired)) g (got fuel g arg p wired)) g
        (filled fuel g arg p wired)

  abbrev lone_done : Runtime
  lone_done = with_event (with_event s g (got fuel g arg p alone)) g (filled fuel g arg p alone)

  abbrev after_both : Runtime
  after_both = with_event (with_edt lone_done t task) g (filled fuel g arg p wired)

  apart' : (g == t) ≡ false
  apart' = ground (arith, apart)

  pub connect_first :
      (add_dependence (event_satisfy (suc fuel)) g t i mode >> event_satisfy (suc fuel) g arg 0) s
      ≡ edt_satisfy t (local_data mode (local_data p.mode arg)) i before_task
  unfolding is_channel
  connect_first =
      rw
        (add_dependence_at g t i mode x q g_named t_named apart hq (event_satisfy (suc fuel)) s
          (fresh alone) hg ht refl)
        (satisfy_at fuel g arg p (with_event (with_edt s t task) g (fresh wired)) wired
            (rw (==_refl g)) hp
          ∙ notify_one fuel g arg p before_task (filled fuel g arg p wired) t i mode
              (rw (==_refl g))
          ∙ node_satisfy-edt (event_satisfy fuel) before_task t
              (local_data mode (local_data p.mode arg)) i task (rw (apart', ==_refl t)))

  pub satisfy_first :
      (event_satisfy (suc fuel) g arg 0 >> add_dependence (event_satisfy (suc fuel)) g t i mode) s
      ≡ edt_satisfy t (local_data p.mode arg) i before_task
  unfolding is_channel notify
  satisfy_first = rw (satisfy_at fuel g arg p s alone hg hp) (
      add_dependence_at g t i mode x q g_named t_named apart hq (event_satisfy (suc fuel)) lone_done
        (filled fuel g arg p alone) (rw (==_refl g)) (rw apart' ht) refl
      ∙ node_satisfy-edt (event_satisfy (suc fuel)) after_both t (local_data p.mode arg) i task
          (rw (apart', ==_refl t))
      ∙ ap (edt_satisfy t (local_data p.mode arg) i) (
          sym (
            same_writes s g t task (fresh wired) (got fuel g arg p wired) (got fuel g arg p alone)
              (filled fuel g arg p alone) (filled fuel g arg p wired))))

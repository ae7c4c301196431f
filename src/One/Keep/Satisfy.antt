-- ===== src/One/Keep/Satisfy.antt =====
-- Satisfying events and EDTs keeps a stable predicate, at any depth of nesting.
use ocr_vx.Prelude.{ℕ, zero, suc, List, [], ◌∷◌, Option-cases, inl, inr}
use ocr_vx.One.Types.{
  Runtime, Object, EventType, Event, Postslot, once_t, idem_t, sticky_t, latch_t, channel_t,
  event_object, edt_object,
}
use ocr_vx.One.Monad.{get_next}
use ocr_vx.One.Logic.{Keeps, keeping, Keeps-bind, Keeps-then, Keeps-pure, Keeps-stop}
use ocr_vx.One.Reads.{reading, get_event-Keeps}
use ocr_vx.One.Stable.{Stable}
use ocr_vx.One.Db.{add_acquired_block}
use ocr_vx.One.Node.{
  Deliver, object_satisfy, node_satisfy, satisfy_event, object_satisfy_preslot, satisfy_preslot,
  notify, channel_satisfied, handle_satisfied, set_satisfied, latch_satisfy, satisfy_by_type,
  event_satisfy_step, event_satisfy,
}

module _ {P : Runtime → Type 0} (st : Stable P) where
  open st use {
    on_sequence, on_this_edt, add_passive, add_db, add_waiting, add_ready, removes, updates_lid,
    updates_event, updates_range, acquires, releases, writes, sets_preslot, satisfies,
  }

  pub get_next-Keeps : Keeps P get_next
  unfolding get_next
  get_next-Keeps = record { keep = λ s p. on_sequence s _ p }

  pub add_acquired_block-Keeps : (g : ℕ) → Keeps P (add_acquired_block g)
  unfolding add_acquired_block
  add_acquired_block-Keeps g = record {
    keep = λ s p. elim (Option-cases s.this_edt) [
      | inl e ↦ simp (e, add_acquired_block) p
      | inr (x, e) ↦ simp (e, add_acquired_block) (on_this_edt s _ p)
    ];
  }

  module _ {deliver : Deliver} (d : (g arg slot : ℕ) → Keeps P (deliver g arg slot)) where
    object_satisfy-Keeps :
        (o : Object) (g arg slot : ℕ) → Keeps P (object_satisfy deliver o g arg slot)
    unfolding object_satisfy
    object_satisfy-Keeps (event_object e) g arg slot = d g arg slot
    object_satisfy-Keeps (edt_object e) g arg slot = satisfies g arg slot
    object_satisfy-Keeps _ g arg slot = Keeps-stop _

    pub node_satisfy-Keeps : (g arg slot : ℕ) → Keeps P (node_satisfy deliver g arg slot)
    unfolding node_satisfy
    node_satisfy-Keeps g arg slot = search (object_satisfy-Keeps, reading)

    pub satisfy_event-Keeps : (g arg slot : ℕ) → Keeps P (satisfy_event deliver g arg slot)
    unfolding satisfy_event
    satisfy_event-Keeps g arg slot = search (d, reading) depth 8

    object_satisfy_preslot-Keeps :
        (o : Object) (g arg slot : ℕ) → Keeps P (object_satisfy_preslot deliver o g arg slot)
    unfolding object_satisfy_preslot
    object_satisfy_preslot-Keeps (event_object e) g arg slot = satisfy_event-Keeps g arg slot
    object_satisfy_preslot-Keeps (edt_object e) g arg slot = satisfies g arg slot
    object_satisfy_preslot-Keeps _ g arg slot = Keeps-stop _

    satisfy_preslot-Keeps : (g arg slot : ℕ) → Keeps P (satisfy_preslot deliver g arg slot)
    unfolding satisfy_preslot
    satisfy_preslot-Keeps g arg slot = search (object_satisfy_preslot-Keeps, reading) depth 9

    notify-Keeps : (g : ℕ) (ps : List Postslot) → Keeps P (notify deliver g ps)
    unfolding notify
    notify-Keeps g [] = Keeps-pure tt
    notify-Keeps g (p ∷ ps) =
        Keeps-bind (get_event-Keeps g)
          λ e. Keeps-then (node_satisfy-Keeps _ _ _) (notify-Keeps g ps)

    channel_satisfied-Keeps :
        (g : ℕ) (ins : List ℕ) (outs : List Postslot)
        → Keeps P (channel_satisfied deliver g ins outs)
    unfolding channel_satisfied
    channel_satisfied-Keeps g [] outs = Keeps-stop _
    channel_satisfied-Keeps g (arg ∷ ins) [] = Keeps-pure tt
    channel_satisfied-Keeps g (arg ∷ ins) (p ∷ ps) =
        search (updates_event, satisfy_preslot-Keeps, keeping) depth 8

    pub handle_satisfied-Keeps : (g : ℕ) → Keeps P (handle_satisfied deliver g)
    unfolding handle_satisfied
    handle_satisfied-Keeps g = search (channel_satisfied-Keeps, notify-Keeps, reading) depth 8

    set_satisfied-Keeps : (g : ℕ) → Keeps P (set_satisfied g)
    unfolding set_satisfied
    set_satisfied-Keeps g = updates_event g _

    latch_satisfy-Keeps : (g n slot : ℕ) → Keeps P (latch_satisfy deliver g n slot)
    unfolding latch_satisfy
    latch_satisfy-Keeps g n slot =
        search (updates_event, handle_satisfied-Keeps, removes, keeping) depth 9

    satisfy_by_type-Keeps :
        (t : EventType) (e : Event) (g arg slot : ℕ)
        → Keeps P (satisfy_by_type deliver t e g arg slot)
    unfolding satisfy_by_type
    satisfy_by_type-Keeps idem_t e g arg slot =
        search (set_satisfied-Keeps, handle_satisfied-Keeps, keeping) depth 9
    satisfy_by_type-Keeps once_t e g arg slot =
        search (set_satisfied-Keeps, handle_satisfied-Keeps, removes, keeping) depth 9
    satisfy_by_type-Keeps sticky_t e g arg slot =
        search (set_satisfied-Keeps, handle_satisfied-Keeps, keeping) depth 9
    satisfy_by_type-Keeps latch_t e g arg slot = latch_satisfy-Keeps g e.latch_count slot
    satisfy_by_type-Keeps channel_t e g arg slot =
        search (updates_event, handle_satisfied-Keeps, keeping) depth 9
    satisfy_by_type-Keeps _ e g arg slot = Keeps-stop _

    event_satisfy_step-Keeps : (g arg slot : ℕ) → Keeps P (event_satisfy_step deliver g arg slot)
    unfolding event_satisfy_step
    event_satisfy_step-Keeps g arg slot =
        search (updates_event, satisfy_by_type-Keeps, reading) depth 9

  -- At every depth of nesting.
  pub event_satisfy-Keeps : (fuel g arg slot : ℕ) → Keeps P (event_satisfy fuel g arg slot)
  unfolding event_satisfy
  event_satisfy-Keeps zero g arg slot = Keeps-stop _
  event_satisfy-Keeps (suc fuel) g arg slot =
      event_satisfy_step-Keeps (event_satisfy-Keeps fuel) g arg slot

-- ===== src/One/Cascade/Satisfy.antt =====
-- `event::satisfy` returns on a graph without cycles (src/one/ocr_one.cpp): the depth to which the
-- calls nest is at most the rank of the event.
use ocr_vx.Prelude.{ℕ, zero, suc, ◌<◌, ◌≤◌, refl, true, not, List, [], ◌∷◌, ◌==◌, arith}
use ocr_vx.One.Types.{
  Object, Event, EventType, Postslot, event_object, edt_object, once_t, idem_t, sticky_t, latch_t,
  channel_t, null_guid, undefined_behaviour, invalid_slot, already_satisfied,
}
use ocr_vx.One.Node.{
  Deliver, object_satisfy, node_satisfy, satisfy_event, object_satisfy_preslot, satisfy_preslot,
  notify, channel_satisfied, pop_front, is_channel, handle_satisfied, set_satisfied, latch_satisfy,
  satisfy_by_type, event_satisfy_step, event_satisfy, latch_incr_slot, latch_decr_slot,
}
use ocr_vx.One.Cascade.Logic.{
  Any, Halts, Halts-bind, Halts-then, Halts-pure, Halts-stop, Halts-if, Halts-guard,
}
use ocr_vx.One.Cascade.Defs.{
  EdgesBelow, Ranked, at-Ranked, get_event-Halts, exists-Halts, at_slot-Halts, resolve_lid-Halts,
  update_event-Halts, edt_satisfy-Halts, check_data-Halts, remove_event-Halts,
}

pop_front-EdgesBelow :
    (rank : ℕ → ℕ) (n : ℕ) (ps : List Postslot)
    → EdgesBelow rank n ps
    → EdgesBelow rank n (pop_front ps)
pop_front-EdgesBelow rank n [] h = tt
pop_front-EdgesBelow rank n (p ∷ ps) h = h.1

-- With calls that return below rank `n`, those at `n` return.
module _ {rank : ℕ → ℕ} {deliver : Deliver} {n : ℕ}
    (d : (g arg slot : ℕ) → rank g < n → Halts (Ranked rank) Any (deliver g arg slot)) where
  object_satisfy-Halts :
      (o : Object) (g arg slot : ℕ)
      → rank g < n
      → Halts (Ranked rank) Any (object_satisfy deliver o g arg slot)
  unfolding object_satisfy
  object_satisfy-Halts (event_object e) g arg slot h = d g arg slot h
  object_satisfy-Halts (edt_object e) g arg slot h = edt_satisfy-Halts g arg slot
  object_satisfy-Halts _ g arg slot h = Halts-stop _ refl

  node_satisfy-Halts :
      (g arg slot : ℕ) → rank g < n → Halts (Ranked rank) Any (node_satisfy deliver g arg slot)
  unfolding node_satisfy
  node_satisfy-Halts g arg slot h =
      at-Ranked g (λ o. object_satisfy deliver o g arg slot)
        λ o _. object_satisfy-Halts o g arg slot h

  pub satisfy_event-Halts :
      (g arg slot : ℕ) → rank g < n → Halts (Ranked rank) Any (satisfy_event deliver g arg slot)
  unfolding satisfy_event
  satisfy_event-Halts g arg slot h = Halts-bind (resolve_lid-Halts g) λ event below.
      Halts-bind (resolve_lid-Halts arg) λ block _.
        Halts-bind (get_event-Halts event)
          λ e _. Halts-then (check_data-Halts block) (d event _ slot (omega (arith, below, h)))

  object_satisfy_preslot-Halts :
      (o : Object) (g arg slot : ℕ)
      → rank g < n
      → Halts (Ranked rank) Any (object_satisfy_preslot deliver o g arg slot)
  unfolding object_satisfy_preslot
  object_satisfy_preslot-Halts (event_object e) g arg slot h = satisfy_event-Halts g arg slot h
  object_satisfy_preslot-Halts (edt_object e) g arg slot h = edt_satisfy-Halts g arg slot
  object_satisfy_preslot-Halts _ g arg slot h = Halts-stop _ refl

  satisfy_preslot-Halts :
      (g arg slot : ℕ) → rank g < n → Halts (Ranked rank) Any (satisfy_preslot deliver g arg slot)
  unfolding satisfy_preslot
  satisfy_preslot-Halts g arg slot h = Halts-bind (resolve_lid-Halts g) λ target below.
      Halts-bind (resolve_lid-Halts arg) λ block _. at-Ranked target _ λ o _.
        Halts-then (Halts-if (block == null_guid) (Halts-pure tt tt) (exists-Halts block))
          (object_satisfy_preslot-Halts o target block slot (omega (arith, below, h)))

  notify-Halts :
      (g : ℕ) (ps : List Postslot)
      → EdgesBelow rank n ps
      → Halts (Ranked rank) Any (notify deliver g ps)
  unfolding notify
  notify-Halts g [] h = Halts-pure tt tt
  notify-Halts g (p ∷ ps) h = Halts-bind (get_event-Halts g) λ e _.
      Halts-then (node_satisfy-Halts p.destination _ p.preslot_index h.0) (notify-Halts g ps h.1)

  channel_satisfied-Halts :
      (g : ℕ) (ins : List ℕ) (outs : List Postslot)
      → EdgesBelow rank n outs
      → Halts (Ranked rank) Any (channel_satisfied deliver g ins outs)
  unfolding channel_satisfied
  channel_satisfied-Halts g [] outs h = Halts-stop _ refl
  channel_satisfied-Halts g (arg ∷ ins) [] h = Halts-pure tt tt
  channel_satisfied-Halts g (arg ∷ ins) (p ∷ ps) h =
      Halts-then
        (update_event-Halts g (λ e. record e { data_guid = arg; channel_in_queue = ins })
          (λ e k. k))
        (Halts-then (satisfy_preslot-Halts p.destination arg p.preslot_index h.0) (
          update_event-Halts g (λ e. record e { channel_out_queue = pop_front e.channel_out_queue })
            (λ e k. (k.0, pop_front-EdgesBelow rank (rank g) e.channel_out_queue k.1))))

  edges_up : (m : ℕ) (ps : List Postslot) → m ≤ n → EdgesBelow rank m ps → EdgesBelow rank n ps
  edges_up m [] h k = tt
  edges_up m (p ∷ ps) h k = (omega (arith, h, k.0), edges_up m ps h k.1)

  pub handle_satisfied-Halts :
      (g : ℕ) → rank g ≤ n → Halts (Ranked rank) Any (handle_satisfied deliver g)
  unfolding handle_satisfied
  handle_satisfied-Halts g h = Halts-bind (get_event-Halts g) λ e k.
      Halts-if (is_channel e.type)
        (channel_satisfied-Halts g e.channel_in_queue e.channel_out_queue
          (edges_up (rank g) e.channel_out_queue h k.1))
        (notify-Halts g e.postslots (edges_up (rank g) e.postslots h k.0))

  set_satisfied-Halts : (g : ℕ) → Halts (Ranked rank) Any (set_satisfied g)
  unfolding set_satisfied
  set_satisfied-Halts g = update_event-Halts g (λ e. record e { satisfied = true }) (λ e k. k)

  latch_satisfy-Halts :
      (g count slot : ℕ) → rank g ≤ n → Halts (Ranked rank) Any (latch_satisfy deliver g count slot)
  unfolding latch_satisfy
  latch_satisfy-Halts g count slot h =
      Halts-if (slot == latch_incr_slot) (update_event-Halts g _ (λ e k. k)) (
        Halts-if (slot == latch_decr_slot)
          (Halts-then (Halts-guard _ _ refl) (
            Halts-then (update_event-Halts g _ (λ e k. k)) (
              Halts-if _ (Halts-then (handle_satisfied-Halts g h) (remove_event-Halts g))
                (Halts-pure tt tt))))
          (Halts-stop _ refl))

  satisfy_by_type-Halts :
      (t : EventType) (e : Event) (g arg slot : ℕ)
      → rank g ≤ n
      → Halts (Ranked rank) Any (satisfy_by_type deliver t e g arg slot)
  unfolding satisfy_by_type
  satisfy_by_type-Halts idem_t e g arg slot h =
      Halts-then (Halts-guard (slot == 0) invalid_slot refl) (
        Halts-if _ (Halts-pure tt tt)
          (Halts-then (set_satisfied-Halts g) (handle_satisfied-Halts g h)))
  satisfy_by_type-Halts once_t e g arg slot h =
      Halts-then (Halts-guard (slot == 0) invalid_slot refl) (
        Halts-then (Halts-guard (not e.satisfied) already_satisfied refl) (
          Halts-then (set_satisfied-Halts g)
            (Halts-then (handle_satisfied-Halts g h) (remove_event-Halts g))))
  satisfy_by_type-Halts sticky_t e g arg slot h =
      Halts-then (Halts-guard (slot == 0) invalid_slot refl) (
        Halts-then (Halts-guard (not e.satisfied) already_satisfied refl)
          (Halts-then (set_satisfied-Halts g) (handle_satisfied-Halts g h)))
  satisfy_by_type-Halts latch_t e g arg slot h = latch_satisfy-Halts g e.latch_count slot h
  satisfy_by_type-Halts channel_t e g arg slot h =
      Halts-then (Halts-guard (slot == 0) invalid_slot refl)
        (Halts-then (update_event-Halts g _ (λ e k. k)) (handle_satisfied-Halts g h))
  satisfy_by_type-Halts _ e g arg slot h = Halts-stop _ refl

  pub event_satisfy_step-Halts :
      (g arg slot : ℕ)
      → rank g ≤ n
      → Halts (Ranked rank) Any (event_satisfy_step deliver g arg slot)
  unfolding event_satisfy_step
  event_satisfy_step-Halts g arg slot h = Halts-bind (get_event-Halts g) λ e _.
      Halts-bind (at_slot-Halts e.preslots slot undefined_behaviour refl) λ p _.
        Halts-then (update_event-Halts g _ (λ e k. k)) (satisfy_by_type-Halts e.type e g _ slot h)

pub event_satisfy-Halts :
    {rank : ℕ → ℕ} (fuel g arg slot : ℕ)
    → rank g < fuel
    → Halts (Ranked rank) Any (event_satisfy fuel g arg slot)
unfolding event_satisfy
event_satisfy-Halts zero g arg slot h = ground arith
event_satisfy-Halts (suc fuel) g arg slot h =
    event_satisfy_step-Halts (event_satisfy-Halts fuel) g arg slot (omega (arith, h))

-- ===== src/One/AnyOrder.antt =====
-- A dependence and the satisfaction of its source in either order (`add_dependence` in
-- include/one/runtime.h, `event::satisfy` in src/one/ocr_one.cpp).
pub mod Steps
use ocr_vx.Prelude.{
  ℕ, zero, suc, ◌≡◌, ◌≢◌, refl, sym, ◌∙◌, ap, fun_ext, Bool, true, false, List, [], ◌∷◌, ◌++◌,
  Option, none, some, ◌==◌, ==_refl, ==_iff, get_elem?, set, if◌then◌else◌, arith, Bool-cases, inl,
  inr,
}
use ocr_vx.One.Types.{
  Runtime, Object, Event, Edt, Mode, Preslot, Postslot, event_object, edt_object, sticky_t,
  null_guid, db_mode_null, db_mode_const, db_mode_rw, db_mode_ew, db_mode_ro,
}
use ocr_vx.One.Monad.{
  Result, ok, M, pure, bind_result, ◌>>◌, get, as_event, put, update, resolve_object, resolve_lid,
}
use ocr_vx.One.Node.{
  Deliver, at_slot, get_event, write_event, update_event, local_data, node_satisfy, object_satisfy,
  edt_satisfy, notify, is_channel, handle_satisfied, set_satisfied, satisfy_by_type,
  event_satisfy_step, event_satisfy,
}
use ocr_vx.One.Edges.{
  define_preslot, set_preslot, set_preslot_of, add_postslot, connect, add_dependence,
}
use ocr_vx.One.EventStates.{with_event}
use ocr_vx.One.Latch.{then_done}
use ocr_vx.One.AnyOrder.Steps.{fresh, carries, before_task, connect_first, satisfy_first}

lone :
    (e : Event)
    → e.type ≡ sticky_t
    → e.satisfied ≡ false
    → e.postslots ≡ []
    → e ≡ fresh (record e { postslots = [] })
lone e sticky open' no_edges =
    λ k. record e { type = sticky k; satisfied = open' k; postslots = no_edges k }

-- A task's dependence on a sticky event and the satisfaction of that event may come in either order:
-- both calls together have the same result, a fault included, if the dependence carries data (its
-- mode is not DB_MODE_NULL). The event has no edge yet and is not satisfied, its preslot and the
-- task's exist, and the two GUIDs differ and are not null.
pub connect-satisfy_any_order :
    (fuel g t i arg : ℕ) (mode : Mode) (s : Runtime) (e : Event) (p : Preslot) (x : Edt)
    (q : Preslot)
    → ((g == null_guid) ≡ false) × ((t == null_guid) ≡ false) × ((t == g) ≡ false)
    → (s.objects g ≡ some (event_object e)) × (s.objects t ≡ some (edt_object x))
    → (e.type ≡ sticky_t) × (e.satisfied ≡ false) × (e.postslots ≡ [])
    → (get_elem? e.preslots 0 ≡ some p) × (get_elem? x.preslots i ≡ some q)
    → mode ≢ db_mode_null
    → (add_dependence (event_satisfy (suc fuel)) g t i mode >> event_satisfy (suc fuel) g arg 0) s
      ≡ (event_satisfy (suc fuel) g arg 0 >> add_dependence (event_satisfy (suc fuel)) g t i mode) s
connect-satisfy_any_order fuel g t i arg mode s e p x q (gn, tn, apart) (hg, ht)
      (sticky, open', no_edges) (hp, hq) carried =
    let hg' = hg ∙ ap (λ o. some (event_object o)) (lone e sticky open' no_edges) in
    connect_first fuel g t i arg mode s e p x q gn tn apart hp hq ht hg'
    ∙ ap
        (λ a.
          edt_satisfy t a i (before_task fuel g t i arg mode s e p x q gn tn apart hp hq ht hg'))
        (carries mode (local_data p.mode arg) carried)
    ∙ sym (satisfy_first fuel g t i arg mode s e p x q gn tn apart hp hq ht hg')

-- With DB_MODE_NULL the order shows: for the same event and task, the dependence that is there when
-- the event is satisfied passes the null GUID to the task's slot, and the one that is added
-- afterwards passes the event's data.
pub connect-satisfy_null :
    (fuel g t i arg : ℕ) (s : Runtime) (e : Event) (p : Preslot) (x : Edt) (q : Preslot)
    → ((g == null_guid) ≡ false) × ((t == null_guid) ≡ false) × ((t == g) ≡ false)
    → (s.objects g ≡ some (event_object e)) × (s.objects t ≡ some (edt_object x))
    → (e.type ≡ sticky_t) × (e.satisfied ≡ false) × (e.postslots ≡ [])
    → (get_elem? e.preslots 0 ≡ some p) × (get_elem? x.preslots i ≡ some q)
    → (u : Runtime) × ((add_dependence (event_satisfy (suc fuel)) g t i db_mode_null
            >> event_satisfy (suc fuel) g arg 0)
          s
        ≡ edt_satisfy t null_guid i u)
      × ((event_satisfy (suc fuel) g arg 0
              >> add_dependence (event_satisfy (suc fuel)) g t i db_mode_null)
            s
          ≡ edt_satisfy t (local_data p.mode arg) i u)
unfolding local_data
connect-satisfy_null fuel g t i arg s e p x q (gn, tn, apart) (hg, ht) (sticky, open', no_edges)
      (hp, hq) =
    let hg' = hg ∙ ap (λ o. some (event_object o)) (lone e sticky open' no_edges) in
    (
      before_task fuel g t i arg db_mode_null s e p x q gn tn apart hp hq ht hg',
      connect_first fuel g t i arg db_mode_null s e p x q gn tn apart hp hq ht hg',
      satisfy_first fuel g t i arg db_mode_null s e p x q gn tn apart hp hq ht hg',
    )

-- ===== src/One/Keep/Tasks.antt =====
-- Dependences and the creation of EDTs keep a stable predicate.
use ocr_vx.Prelude.{
  ℕ, zero, suc, ◌+◌, ◌≡◌, refl, Bool, true, false, List, [], ◌∷◌, Option, none, some, arith, ◌==◌,
  leb, length, replicate,
}
use ocr_vx.One.Types.{
  Runtime, Object, Mode, Edt, EdtTemplate, Postslot, event_object, db_object, empty_preslot,
}
use ocr_vx.One.Monad.{pure}
use ocr_vx.One.Logic.{
  Keeps, keeping, Keeps-bind, Keeps-then, Keeps-pure, Keeps-stop, Keeps-if, Keeps-else,
}
use ocr_vx.One.Reads.{reading, current_latch-Keeps, read_deps-Keeps}
use ocr_vx.One.Stable.{Stable}
use ocr_vx.One.Keep.Satisfy.{node_satisfy-Keeps, satisfy_event-Keeps, handle_satisfied-Keeps}
use ocr_vx.One.Node.{Deliver, all_satisfied}
use ocr_vx.One.Edges.{channel_add_postslot, add_postslot, connect, add_dependence}
use ocr_vx.One.Tasks.{
  read_deps, read_array, join_parent, join_latches, new_edt, initialize_deps, enter_edt, finish_edt,
  create_edt,
}
use ocr_vx.One.Keep.Calls.{choose_guid-Keeps, create_event-Keeps}

leb_zero : (n : ℕ) → leb 0 n ≡ true
leb_zero n = ground arith

suc-ne-zero : (n : ℕ) → (suc n == 0) ≡ false
suc-ne-zero n = ground arith

read_deps_zero : (depv : Option (List ℕ)) → read_deps 0 depv ≡ pure []
unfolding read_deps read_array
read_deps_zero none = refl
read_deps_zero (some xs) = rw (leb_zero (length xs))

module _ {P : Runtime → Type 0} (st : Stable P) where
  open st use {
    on_sequence, on_this_edt, on_shutdown, on_abort, add_passive, add_db, add_waiting, add_ready,
    removes, updates_lid, updates_event, updates_range, acquires, releases, writes, sets_preslot,
    satisfies,
  }

  module _ {deliver : Deliver} (d : (g arg slot : ℕ) → Keeps P (deliver g arg slot)) where
    pub channel_add_postslot-Keeps :
        (g : ℕ) (p : Postslot) → Keeps P (channel_add_postslot deliver g p)
    unfolding channel_add_postslot
    channel_add_postslot-Keeps g p =
        search (updates_event, handle_satisfied-Keeps st d, reading) depth 9

    pub add_postslot-Keeps : (g : ℕ) (p : Postslot) → Keeps P (add_postslot deliver g p)
    unfolding add_postslot
    add_postslot-Keeps g p = search (updates_event, channel_add_postslot-Keeps, reading) depth 9

    pub connect-Keeps :
        (o : Object) (source destination slot : ℕ) (mode : Mode)
        → Keeps P (connect deliver o source destination slot mode)
    unfolding connect
    connect-Keeps (db_object b) source destination slot mode =
        node_satisfy-Keeps st d destination source slot
    connect-Keeps (event_object e) source destination slot mode =
        search (add_postslot-Keeps, node_satisfy-Keeps st d, reading) depth 9
    connect-Keeps _ source destination slot mode = Keeps-stop _

    pub add_dependence-Keeps :
        (source destination slot : ℕ) (mode : Mode)
        → Keeps P (add_dependence deliver source destination slot mode)
    unfolding add_dependence
    add_dependence-Keeps source destination slot mode =
        search (sets_preslot, node_satisfy-Keeps st d, connect-Keeps, reading) depth 12

    pub join_parent-Keeps : (event latch : ℕ) → Keeps P (join_parent deliver event latch)
    unfolding join_parent
    join_parent-Keeps event latch =
        search (satisfy_event-Keeps st d, add_dependence-Keeps, keeping) depth 9

    pub join_latches-Keeps :
        (event : ℕ) (is_finish : Bool) → Keeps P (join_latches deliver event is_finish)
    unfolding join_latches
    join_latches-Keeps event is_finish = Keeps-bind current_latch-Keeps λ parent.
        Keeps-bind (join_parent-Keeps event parent) λ joined.
          Keeps-then (Keeps-if is_finish (satisfy_event-Keeps st d _ _ _) (Keeps-pure tt))
            (Keeps-pure _)

    pub initialize_deps-Keeps :
        (g i : ℕ) (deps : List ℕ) → Keeps P (initialize_deps deliver g i deps)
    unfolding initialize_deps
    initialize_deps-Keeps g i [] = Keeps-pure tt
    initialize_deps-Keeps g i (x ∷ deps) =
        Keeps-then (Keeps-if _ (Keeps-pure tt) (add_dependence-Keeps _ _ _ _))
          (initialize_deps-Keeps g (i + 1) deps)

    -- The preslots of a new EDT are unsatisfied, so it waits unless it has none.
    pub enter_edt-Keeps :
        (g : ℕ) (e : Edt) (depc : ℕ) (depv : Option (List ℕ))
        → e.preslots ≡ replicate depc empty_preslot
        → Keeps P (enter_edt deliver g e depc depv)
    unfolding enter_edt all_satisfied initialize_deps
    enter_edt-Keeps g e zero depv h =
        simp (read_deps_zero depv, initialize_deps) (add_ready g e (rw (h, all_satisfied)))
    enter_edt-Keeps g e (suc depc) depv h = Keeps-then (add_waiting g e (rw (h, all_satisfied))) (
        Keeps-bind (read_deps-Keeps (suc depc) depv) λ deps.
          Keeps-then (initialize_deps-Keeps g 0 deps)
            (Keeps-else _ (suc-ne-zero depc) (Keeps-pure tt)))

    pub finish_edt-Keeps :
        (et : EdtTemplate) (params : List ℕ) (depc : ℕ) (depv : Option (List ℕ)) (properties : ℕ)
        (choice : Option ℕ) (guid : ℕ)
        → Keeps P (finish_edt deliver et params depc depv properties choice guid)
    unfolding finish_edt new_edt
    finish_edt-Keeps et params depc depv properties none guid = Keeps-pure _
    finish_edt-Keeps et params depc depv properties (some g) guid =
        Keeps-bind (Keeps-if _ (create_event-Keeps st _ _ _) (create_event-Keeps st _ _ _)) λ event.
          Keeps-bind (join_latches-Keeps event _)
            λ latch. Keeps-then (enter_edt-Keeps g _ depc depv refl) (Keeps-pure _)

    pub create_edt-Keeps :
        (guid template paramc : ℕ) (paramv : Option (List ℕ)) (depc : ℕ) (depv : Option (List ℕ))
        (properties : ℕ)
        → Keeps P (create_edt deliver guid template paramc paramv depc depv properties)
    unfolding create_edt
    create_edt-Keeps guid template paramc paramv depc depv properties =
        search (choose_guid-Keeps st, finish_edt-Keeps, reading) depth 14

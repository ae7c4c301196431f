-- ===== src/One/Keep/Calls.antt =====
-- The calls that satisfy nothing keep a stable predicate.
use ocr_vx.Prelude.{
  ℕ, ◌+◌, refl, true, List, [], ◌∷◌, Option, none, some, Option-cases, inl, inr, contains,
  Bool-cases,
}
use ocr_vx.One.Types.{Runtime, EventType}
use ocr_vx.One.Monad.{lid_kind}
use ocr_vx.One.Logic.{Keeps, keeping, Keeps-bind, Keeps-then, Keeps-pure, Keeps-if, Keeps-guard}
use ocr_vx.One.Reads.{reading, exists-Keeps, get_range-Keeps, at_slot-Keeps, is_unused-Keeps}
use ocr_vx.One.Stable.{Stable, is_passive}
use ocr_vx.One.Keep.Satisfy.{get_next-Keeps, add_acquired_block-Keeps}
use ocr_vx.One.Db.{create_db, release_db, destroy_db, remove_acquired_block}
use ocr_vx.One.Create.{
  has_any, has_all, guid_prop_check, guid_prop_is_labeled, choose_guid, finish_event, create_event,
  destroy_event, create_edt_template, destroy_edt_template, guid_range_create, guid_from_index,
  refresh_index,
}
use ocr_vx.One.Tasks.{remove_lids, els_set}
use ocr_vx.One.Run.{shutdown, abort, write_bytes}

module _ {P : Runtime → Type 0} (st : Stable P) where
  open st use {
    on_sequence, on_this_edt, on_shutdown, on_abort, add_passive, add_db, add_waiting, add_ready,
    removes, updates_lid, updates_event, updates_range, acquires, releases, writes, sets_preslot,
    satisfies,
  }

  pub remove_acquired_block-Keeps : (g : ℕ) → Keeps P (remove_acquired_block g)
  unfolding remove_acquired_block
  remove_acquired_block-Keeps g = record {
    keep = λ s p. elim (Option-cases s.this_edt) [
      | inl e ↦ simp (e, remove_acquired_block) p
      | inr (x, e) ↦ elim (Bool-cases (contains g x.acquired_blocks)) [
        | inl h ↦ simp (e, h, remove_acquired_block) (on_this_edt s _ p)
        | inr h ↦ simp (e, h, remove_acquired_block) tt
      ]
    ];
  }

  pub create_db-Keeps : (len flags : ℕ) → Keeps P (create_db len flags)
  unfolding create_db
  create_db-Keeps len flags = Keeps-then (Keeps-guard _ _) (
      Keeps-bind (get_next-Keeps st) λ g.
        Keeps-then (add_db g len) (search (acquires, add_acquired_block-Keeps st, keeping) depth 8))

  pub release_db-Keeps : (g : ℕ) → Keeps P (release_db g)
  unfolding release_db
  release_db-Keeps g = search (remove_acquired_block-Keeps, releases, reading) depth 9

  pub destroy_db-Keeps : (g : ℕ) → Keeps P (destroy_db g)
  unfolding destroy_db
  destroy_db-Keeps g = search (release_db-Keeps, removes, reading) depth 9

  pub choose_guid-Keeps :
      (mapped guid properties : ℕ) → Keeps P (choose_guid mapped guid properties)
  unfolding choose_guid
  choose_guid-Keeps mapped guid properties =
      Keeps-if (has_any properties mapped)
        (Keeps-then (Keeps-guard _ _) (
          Keeps-bind (get_next-Keeps st)
            λ g. Keeps-then (updates_lid guid g) (Keeps-pure (some g))))
        (Keeps-if (has_all properties guid_prop_check)
          (Keeps-then (Keeps-guard _ _) (Keeps-bind (exists-Keeps guid) λ b. Keeps-pure _))
          (Keeps-if (has_all properties guid_prop_is_labeled)
            (Keeps-then (Keeps-guard _ _)
              (Keeps-bind (exists-Keeps guid) λ b. Keeps-then (Keeps-guard _ _) (Keeps-pure _)))
            (Keeps-bind (get_next-Keeps st) λ g. Keeps-pure (some g))))

  pub finish_event-Keeps :
      (t : EventType) (properties guid : ℕ) (choice : Option ℕ)
      → Keeps P (finish_event t properties guid choice)
  unfolding finish_event is_passive
  finish_event-Keeps t properties guid none = Keeps-pure guid
  finish_event-Keeps t properties guid (some g) = Keeps-then (add_passive g _ refl) (Keeps-pure g)

  pub create_event-Keeps :
      (guid : ℕ) (t : EventType) (properties : ℕ) → Keeps P (create_event guid t properties)
  unfolding create_event
  create_event-Keeps guid t properties =
      search (choose_guid-Keeps, finish_event-Keeps, keeping) depth 9

  pub destroy_event-Keeps : (g : ℕ) → Keeps P (destroy_event g)
  unfolding destroy_event
  destroy_event-Keeps g = search (removes, reading)

  pub create_edt_template-Keeps :
      (func paramc depc : ℕ) → Keeps P (create_edt_template func paramc depc)
  unfolding create_edt_template is_passive
  create_edt_template-Keeps func paramc depc =
      Keeps-bind (get_next-Keeps st) λ g. Keeps-then (add_passive g _ refl) (Keeps-pure g)

  pub destroy_edt_template-Keeps : (g : ℕ) → Keeps P (destroy_edt_template g)
  unfolding destroy_edt_template
  destroy_edt_template-Keeps g = search (removes, reading)

  pub guid_range_create-Keeps : (n kind : ℕ) → Keeps P (guid_range_create n kind)
  unfolding guid_range_create is_passive
  guid_range_create-Keeps n kind =
      Keeps-then (Keeps-guard _ _)
        (Keeps-bind (get_next-Keeps st) λ g. Keeps-then (add_passive g _ refl) (Keeps-pure g))

  pub guid_from_index-Keeps : (g idx : ℕ) → Keeps P (guid_from_index g idx)
  unfolding guid_from_index refresh_index
  guid_from_index-Keeps g idx = Keeps-bind (get_range-Keeps g) λ r. Keeps-then (Keeps-guard _ _) (
      Keeps-bind (at_slot-Keeps _ _ _) λ res. Keeps-bind (is_unused-Keeps res) λ unused.
        Keeps-if unused
          (Keeps-bind (get_next-Keeps st) λ v. Keeps-then (updates_range g idx v) (Keeps-pure v))
          (Keeps-pure res))

  pub els_set-Keeps : (offset v : ℕ) → Keeps P (els_set offset v)
  unfolding els_set
  els_set-Keeps offset v = record {
    keep = λ s p. elim (Option-cases s.this_edt) [
      | inl e ↦ simp (e, els_set) tt
      | inr (x, e) ↦ simp (e, els_set) (on_this_edt s _ p)
    ];
  }

  pub remove_lids-Keeps : (lids : List ℕ) → Keeps P (remove_lids lids)
  unfolding remove_lids
  remove_lids-Keeps [] = Keeps-pure tt
  remove_lids-Keeps (l ∷ lids) = Keeps-then (removes lid_kind l) (remove_lids-Keeps lids)

  pub write_bytes-Keeps : (g offset : ℕ) (bytes : List ℕ) → Keeps P (write_bytes g offset bytes)
  unfolding write_bytes
  write_bytes-Keeps g offset [] = Keeps-pure tt
  write_bytes-Keeps g offset (b ∷ bytes) =
      Keeps-then (writes g offset b) (write_bytes-Keeps g (offset + 1) bytes)

  pub shutdown-Keeps : Keeps P shutdown
  unfolding shutdown
  shutdown-Keeps = record { keep = λ s p. on_shutdown s true p }

  pub abort-Keeps : (code : ℕ) → Keeps P (abort code)
  unfolding abort
  abort-Keeps code = record { keep = λ s p. on_abort s true code p }

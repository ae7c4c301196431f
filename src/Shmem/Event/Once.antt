-- ===== src/Shmem/Event/Once.antt =====
-- How often an event fires (`event::satisfy_preslot` in include/shmem/ocr_tbb_event.h).
use ocr_vx.Prelude.{
  ℕ, ◌+◌, ◌≤◌, Bool, true, false, not, ◌&&◌, ◌||◌, Option, none, some, List, [], ◌∷◌, ◌≡◌, refl,
  ◌∙◌, ap, subst, Bool-cases, Option-cases, inl, inr, sym, if◌then◌else◌, arith, get_elem?,
}
use ocr_vx.One.Types.{EventType, idem_t, db_default_mode}
use ocr_vx.Shmem.Event.{
  TbbEvent, new_tbb_event, satisfy_event_preslot, satisfy_latch_slot, satisfy_data_slot,
  set_preslot_data, trigger, is_latch_type, is_idem, is_channel_type,
}

-- Calls with a slot and data each: how many of them fire the event, and the event after them.
unfoldable pub satisfy_all : List (ℕ × ℕ) → TbbEvent → Option (ℕ × TbbEvent)
satisfy_all [] e = some (0, e)
satisfy_all ((slot, data_guid) ∷ calls) e = elim (satisfy_event_preslot slot data_guid e) [
  | none ↦ none
  | some (fires, f) ↦ elim (satisfy_all calls f) [
    | none ↦ none
    | some (n, h) ↦ some ((if fires then 1 else 0) + n, h)
  ]
]

-- How often the event can still fire
remaining : TbbEvent → ℕ
remaining e = if e.destroyed || (e.triggered && not (is_latch_type e.type)) then 0 else 1

-- The reply of a call, with what the event can still do, is within `n`.
Within : ℕ → Option (Bool × TbbEvent) → Type 0
Within n none = Unit {0}
Within n (some (fires, e)) = (if fires then 1 else 0) + remaining e ≤ n

latch-Within :
    (slot : ℕ) (e : TbbEvent)
    → e.destroyed ≡ false
    → is_latch_type e.type ≡ true
    → Within 1 (satisfy_latch_slot slot e)
unfolding satisfy_latch_slot Within remaining
latch-Within slot e alive kind = ground arith

trigger-Within :
    (e : TbbEvent)
    → e.destroyed ≡ false
    → is_latch_type e.type ≡ false
    → Within (remaining e) (some (trigger e))
unfolding trigger Within remaining
trigger-Within e alive kind = ground arith

-- The data changes neither the type nor what the event has done.
SameBut : TbbEvent → Option TbbEvent → Type 0
SameBut e none = Unit {0}
SameBut e (some f) = (f.destroyed ≡ e.destroyed) × (f.triggered ≡ e.triggered) × (f.type ≡ e.type)

set_preslot_data-SameBut :
    (slot data_guid : ℕ) (e : TbbEvent) → SameBut e (set_preslot_data slot data_guid e)
unfolding set_preslot_data SameBut
set_preslot_data-SameBut slot data_guid e = elim (Option-cases (get_elem? e.preslots slot)) [
  | inl absent ↦ rw (absent, SameBut) tt
  | inr (p, present) ↦ rw (present, SameBut) (refl, refl, refl)
]

same-remaining : (e f : TbbEvent) → SameBut e (some f) → remaining f ≡ remaining e
unfolding SameBut remaining
same-remaining e f (d, t, k) = rw (d, t, k) refl

stored-Within :
    (e f : TbbEvent)
    → e.destroyed ≡ false
    → is_latch_type e.type ≡ false
    → SameBut e (some f)
    → Within (remaining e) (some (trigger f))
unfolding SameBut
stored-Within e f alive kind (d, t, k) =
    subst (λ n. Within n (some (trigger f))) (same-remaining e f (d, t, k))
      (trigger-Within f (d ∙ alive) (ap is_latch_type k ∙ kind))

data-Within :
    (slot data_guid : ℕ) (e : TbbEvent)
    → e.destroyed ≡ false
    → is_latch_type e.type ≡ false
    → Within (remaining e) (satisfy_data_slot slot data_guid e)
unfolding satisfy_data_slot Within
data-Within slot data_guid e alive kind = elim (Bool-cases (not e.triggered || is_idem e.type)) [
  | inl allowed ↦ rw allowed (elim (Option-cases (set_preslot_data slot data_guid e)) [
    | inl absent ↦ rw absent tt
    | inr (f, done) ↦ rw done (
        stored-Within e f alive kind
          (subst (λ o. SameBut e o) done (set_preslot_data-SameBut slot data_guid e)))
  ])
  | inr refused ↦ rw refused tt
]

latch_remaining :
    (e : TbbEvent) → e.destroyed ≡ false → is_latch_type e.type ≡ true → remaining e ≡ 1
unfolding remaining
latch_remaining e alive kind = rw (alive, kind) (ground arith)

satisfy_event_preslot-Within :
    (slot data_guid : ℕ) (e : TbbEvent)
    → Within (remaining e) (satisfy_event_preslot slot data_guid e)
unfolding satisfy_event_preslot Within
satisfy_event_preslot-Within slot data_guid e =
    elim (Bool-cases (e.destroyed || is_channel_type e.type)) [
      | inl stops ↦ rw stops tt
      | inr goes ↦ rw goes (elim (Bool-cases (is_latch_type e.type)) [
        | inl latch ↦ rw latch (
            subst (λ n. Within n (satisfy_latch_slot slot e))
              (sym (latch_remaining e (alive e goes) latch))
              (latch-Within slot e (alive e goes) latch))
        | inr other ↦ rw other (data-Within slot data_guid e (alive e goes) other)
      ])
    ]
  where
    alive : (e : TbbEvent) → (e.destroyed || is_channel_type e.type) ≡ false → e.destroyed ≡ false
    alive e h = ground arith

-- What a list of calls fires is within `n`.
AllWithin : ℕ → Option (ℕ × TbbEvent) → Type 0
AllWithin n none = Unit {0}
AllWithin n (some (k, e)) = k + remaining e ≤ n

satisfy_all-Within :
    (calls : List (ℕ × ℕ)) (e : TbbEvent) → AllWithin (remaining e) (satisfy_all calls e)
unfolding satisfy_all AllWithin Within
satisfy_all-Within [] e = omega arith
satisfy_all-Within ((slot, data_guid) ∷ calls) e =
    elim (Option-cases (satisfy_event_preslot slot data_guid e)) [
      | inl stops ↦ rw (stops, AllWithin) tt
      | inr ((fires, f), first) ↦ elim (Option-cases (satisfy_all calls f)) [
        | inl stops ↦ rw (first, stops, AllWithin) tt
        | inr ((n, h), rest) ↦
            rw (first, rest, AllWithin)
              (omega (
                arith,
                subst (Within (remaining e)) first (satisfy_event_preslot-Within slot data_guid e),
                subst (AllWithin (remaining f)) rest (satisfy_all-Within calls f),
              ))
      ]
    ]

fresh_remaining :
    (type : EventType) (takes_arg : Bool) → remaining (new_tbb_event type takes_arg) ≡ 1
unfolding remaining
fresh_remaining type takes_arg = refl

-- An event of any type but a channel fires at most once: if a list of satisfactions of a new event, on
-- any slots and with any data, meets no assertion that fails, at most one of them says that the event
-- fires.
pub satisfy_all-once :
    (type : EventType) (takes_arg : Bool) (calls : List (ℕ × ℕ)) (n : ℕ) (e : TbbEvent)
    → is_channel_type type ≡ false
    → satisfy_all calls (new_tbb_event type takes_arg) ≡ some (n, e)
    → n ≤ 1
unfolding AllWithin
satisfy_all-once type takes_arg calls n e no_channel run = omega (
  arith,
  fresh_remaining type takes_arg,
  subst (AllWithin (remaining (new_tbb_event type takes_arg))) run
      (satisfy_all-Within calls (new_tbb_event type takes_arg)),
)

-- The idem event after its first satisfaction, with the data `d` of the last one
abbrev pub idem_with : Bool → ℕ → TbbEvent
idem_with takes_arg d = record (new_tbb_event idem_t takes_arg) {
  triggered = true;
  preslots = record { satisfied = true; data_guid = d; mode = db_default_mode } ∷ [];
}

abbrev pub at_slot_zero : List ℕ → List (ℕ × ℕ)
at_slot_zero [] = []
at_slot_zero (d ∷ ds) = (0, d) ∷ at_slot_zero ds

abbrev pub last_data : ℕ → List ℕ → ℕ
last_data d [] = d
last_data d (x ∷ ds) = last_data x ds

idem-silent :
    (takes_arg : Bool) (d : ℕ) (ds : List ℕ)
    → satisfy_all (at_slot_zero ds) (idem_with takes_arg d)
      ≡ some (0, idem_with takes_arg (last_data d ds))
unfolding satisfy_all satisfy_event_preslot satisfy_data_slot set_preslot_data trigger
idem-silent takes_arg d [] = refl
idem-silent takes_arg d (x ∷ ds) = rw (idem-silent takes_arg x ds) refl

-- A new idem event that is satisfied one or more times meets no assertion that fails and fires exactly
-- once. Though include/ocr/ocr-types.h says that the later satisfactions are ignored, each of them
-- replaces the data: the preslot ends with the data of the last one.
pub idem-fires_once :
    (takes_arg : Bool) (d : ℕ) (ds : List ℕ)
    → satisfy_all (at_slot_zero (d ∷ ds)) (new_tbb_event idem_t takes_arg)
      ≡ some (1, idem_with takes_arg (last_data d ds))
unfolding satisfy_all satisfy_event_preslot satisfy_data_slot set_preslot_data trigger
idem-fires_once takes_arg d ds = rw (idem-silent takes_arg d ds) refl

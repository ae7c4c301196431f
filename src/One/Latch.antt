-- ===== src/One/Latch.antt =====
-- Latch events as counters (`event::satisfy` in src/one/ocr_one.cpp).
use ocr_vx.Prelude.{
  ℕ, zero, suc, ◌+◌, ◌-◌, ◌%◌, ◌^◌, ◌≡◌, ◌<◌, refl, ◌∙◌, ap, fun_ext, Bool, true, false, List, [],
  ◌∷◌, ◌++◌, Option, none, some, ◌==◌, ==_refl, get_elem?, arith, if◌then◌else◌, Bool-cases, inl,
  inr, length, ltb,
}
use ocr_vx.One.Types.{Runtime, Event, Preslot, Mode, event_object, latch_t, null_guid, db_mode_null}
use ocr_vx.One.Monad.{
  Result, ok, fault, M, pure, bind_result, ◌>>◌, get, as_event, put, remove_as, event_kind,
}
use ocr_vx.One.Node.{
  at_slot, get_event, write_event, update_event, local_data, satisfy_by_type, event_satisfy_step,
  event_satisfy, latch_satisfy, notify, latch_incr_slot, latch_decr_slot, handle_satisfied,
  is_channel,
}
use ocr_vx.One.EventStates.{with_event}

-- The level after increments (`true`) and decrements, if the latch does not fire on the way.
abbrev pub latch_level : ℕ → List Bool → Option ℕ
latch_level n [] = some n
latch_level n (true ∷ ups) = latch_level (n + 1) ups
latch_level zero (false ∷ ups) = none
latch_level (suc zero) (false ∷ ups) = none
latch_level (suc (suc n)) (false ∷ ups) = latch_level (suc n) ups

-- A satisfaction without data for each entry.
abbrev pub satisfy_latch : ℕ → ℕ → List Bool → M (Unit {0})
satisfy_latch fuel g [] = pure tt
satisfy_latch fuel g (up ∷ ups) =
    event_satisfy fuel g null_guid (if up then latch_incr_slot else latch_decr_slot)
    >> satisfy_latch fuel g ups

-- The latch `e` at level `n`
abbrev pub latch_at : Event → ℕ → Event
latch_at e n = record e { type = latch_t; latch_count = n; data_guid = null_guid }

local_data_null : (mode : Mode) → local_data mode null_guid ≡ null_guid
unfolding local_data
local_data_null db_mode_null = refl
local_data_null _ = refl

with_event_twice :
    (s : Runtime) (g : ℕ) (a b : Event) → with_event (with_event s g a) g b ≡ with_event s g b
with_event_twice s g a b =
    ap (λ o. record s { objects = o })
      (fun_ext
        λ h. elim (Bool-cases (g == h)) [ inl same ↦ rw same refl | inr other ↦ rw other refl ])

positive : (n : ℕ) → ltb 0 (suc n) ≡ true
positive n = ground arith

still_up : (n : ℕ) → (suc (suc n) - 1 == 0) ≡ false
still_up n = ground arith

one_less : (n : ℕ) → suc (suc n) - 1 ≡ suc n
one_less n = omega arith

pub then_done : (r : Result (Unit {0} × Runtime)) → bind_result r (λ _. pure tt) ≡ r
then_done (ok (a, s)) = refl
then_done (fault e) = refl

level_one : (n : ℕ) → some n ≡ some 1 → n ≡ 1
level_one n h = cc

module _ (fuel g : ℕ) (s : Runtime) (e : Event) (decr incr : Preslot)
    (has_decr : get_elem? e.preslots 0 ≡ some decr)
    (has_incr : get_elem? e.preslots 1 ≡ some incr) where
  increment_at :
      (t : Runtime) (n : ℕ)
      → t.objects g ≡ some (event_object (latch_at e n))
      → event_satisfy (suc fuel) g null_guid latch_incr_slot t
        ≡ ok (tt, with_event (with_event t g (latch_at e n)) g (latch_at e ((n + 1) % 2 ^ 64)))
  unfolding event_satisfy event_satisfy_step get_event get as_event at_slot update_event write_event
      put satisfy_by_type latch_satisfy
  increment_at t n h =
      rw (h, get)
        (rw (has_incr, at_slot)
          (rw (h, get) (rw (==_refl g, get) (rw (local_data_null incr.mode)))))

  decrement_at :
      (t : Runtime) (n : ℕ)
      → t.objects g ≡ some (event_object (latch_at e (suc (suc n))))
      → event_satisfy (suc fuel) g null_guid latch_decr_slot t
        ≡ ok (tt, with_event (with_event t g (latch_at e (suc (suc n)))) g (latch_at e (suc n)))
  unfolding event_satisfy event_satisfy_step get_event get as_event at_slot update_event write_event
      put satisfy_by_type latch_satisfy
  decrement_at t n h =
      rw (h, get)
        (rw (has_decr, at_slot)
          (rw (h, get)
            (rw (positive (suc n)) (
              rw (==_refl g, get)
                (rw (still_up n) (rw (one_less n) (rw (local_data_null decr.mode))))))))

  fire_at :
      (t : Runtime)
      → t.objects g ≡ some (event_object (latch_at e 1))
      → event_satisfy (suc fuel) g null_guid latch_decr_slot t
        ≡ (notify (event_satisfy fuel) g e.postslots >> remove_as event_kind g)
            (with_event (with_event t g (latch_at e 1)) g (latch_at e 0))
  unfolding event_satisfy event_satisfy_step get_event get as_event at_slot update_event write_event
      put satisfy_by_type latch_satisfy handle_satisfied is_channel
  fire_at t h =
      rw (h, get)
        (rw (has_decr, at_slot)
          (rw (h, get)
            (rw (==_refl g, get) (rw (local_data_null decr.mode) (rw (==_refl g, get))))))

  found : (n : ℕ) → (with_event s g (latch_at e n)).objects g ≡ some (event_object (latch_at e n))
  found n = rw (==_refl g)

  back : (a b c : Event) → with_event (with_event (with_event s g a) g b) g c ≡ with_event s g c
  back a b c = with_event_twice (with_event s g a) g b c ∙ with_event_twice s g a c

  increment :
      (n : ℕ)
      → n + 1 < 2 ^ 64
      → event_satisfy (suc fuel) g null_guid latch_incr_slot (with_event s g (latch_at e n))
        ≡ ok (tt, with_event s g (latch_at e (n + 1)))
  increment n h =
      increment_at (with_event s g (latch_at e n)) n (found n)
      ∙ ap (λ t. ok (tt, t)) (back (latch_at e n) (latch_at e n) (latch_at e ((n + 1) % 2 ^ 64)))
      ∙ ap (λ m. ok (tt, with_event s g (latch_at e m))) (omega (arith, h))

  decrement :
      (n : ℕ)
      → event_satisfy
          (suc fuel)
          g
          null_guid
          latch_decr_slot
          (with_event s g (latch_at e (suc (suc n))))
        ≡ ok (tt, with_event s g (latch_at e (suc n)))
  decrement n =
      decrement_at (with_event s g (latch_at e (suc (suc n)))) n (found (suc (suc n)))
      ∙ ap (λ t. ok (tt, t))
          (back (latch_at e (suc (suc n))) (latch_at e (suc (suc n))) (latch_at e (suc n)))

  fire :
      event_satisfy (suc fuel) g null_guid latch_decr_slot (with_event s g (latch_at e 1))
      ≡ (notify (event_satisfy fuel) g e.postslots >> remove_as event_kind g)
          (with_event s g (latch_at e 0))
  fire =
      fire_at (with_event s g (latch_at e 1)) (found 1)
      ∙ ap (notify (event_satisfy fuel) g e.postslots >> remove_as event_kind g)
          (back (latch_at e 1) (latch_at e 1) (latch_at e 0))

  -- A latch with both preslots counts: if increments and decrements lead from level `n` to level
  -- one and no decrement reaches zero on the way, then these calls with a last decrement do what
  -- satisfying the nodes behind the edges in order and removing the latch's GUID does, on the
  -- runtime in which only the level has become zero. The count must not reach 2 ^ 64.
  pub latch-counts :
      (ups : List Bool) (n : ℕ)
      → latch_level n ups ≡ some 1
      → n + length ups < 2 ^ 64
      → satisfy_latch (suc fuel) g (ups ++ (false ∷ [])) (with_event s g (latch_at e n))
        ≡ (notify (event_satisfy fuel) g e.postslots >> remove_as event_kind g)
            (with_event s g (latch_at e 0))
  latch-counts [] n h b = rw (level_one n h) (then_done _ ∙ fire)
  latch-counts (true ∷ ups) n h b =
      rw (increment n (omega (arith, b))) (latch-counts ups (n + 1) h (omega (arith, b)))
  latch-counts (false ∷ ups) zero h b = cc
  latch-counts (false ∷ ups) (suc zero) h b = cc
  latch-counts (false ∷ ups) (suc (suc n)) h b =
      rw (decrement n) (latch-counts ups (suc n) h (omega (arith, b)))

-- ===== src/Shmem/Locking/Calls.antt =====
-- The calls of `wait_for_graph` that lock and unlock blocks (include/shmem/ocr_tbb_locking.h), and the
-- blocks that a task holds (`edt::add_db` in ocr_tbb_edt.h, `edt::remove_db` in src/ocr.cpp).
use ocr_vx.Prelude.{
  ℕ, zero, suc, ◌-◌, Bool, true, false, not, ◌&&◌, Option, none, some, List, [], ◌∷◌, ◌++◌, ◌==◌,
  leb, length, get_elem?, set, take, replicate, contains, if◌then◌else◌, ◌+◌,
}
use ocr_vx.One.Types.{Mode, db_mode_ro, null_guid}
use ocr_vx.Shmem.Event.{TbbPreslot, all_preslots}
use ocr_vx.Shmem.Locking.{
  LockResult, done, assertion_failed, out_of_fuel, ◌>>=◌, DbData, NodeData, LockGraph, set_db_data,
  set_node_data, try_lock, Waitlist, waitlist, set_waitlist, waitlist_of, Wake, no_one, new_owner,
  new_owners, release_lock,
}
use ocr_vx.Shmem.Locking.Modes.{combine_modes}

-- The block that the task locks next, and the mode; `none` when it has all.
abbrev pub next_lock : NodeData → Option (ℕ × Mode)
next_lock e = elim (get_elem? e.ordered_guids e.acquired) [
  | none ↦ none
  | some g ↦ elim (get_elem? e.lock_modes e.acquired) [ none ↦ none | some m ↦ some (g, m) ]
]

abbrev pub acquire_next : NodeData → NodeData
acquire_next e = record e { acquired = e.acquired + 1 }

unfoldable pub enqueue : ℕ → ℕ → Mode → DbData → LockGraph → LockResult LockGraph
enqueue t g m d s = elim (waitlist_of m) [
  | none ↦ assertion_failed
  | some w ↦ done (set_db_data s g (set_waitlist w (waitlist w d ++ (t ∷ [])) d))
]

-- `try_lock_all__locked`, with a round for each block that the task has not acquired
unfoldable pub lock_rounds : ℕ → ℕ → LockGraph → LockResult (Bool × LockGraph)
lock_rounds zero t s = done (true, s)
lock_rounds (suc n) t s = elim (next_lock (s.edts t)) [
  | none ↦ assertion_failed
  | some (g, m) ↦ elim (try_lock m (s.dbs g)) [
    | assertion_failed ↦ assertion_failed
    | out_of_fuel ↦ out_of_fuel
    | done (true, d) ↦
        lock_rounds n t (set_node_data (set_db_data s g d) t (acquire_next (s.edts t)))
    | done (false, d) ↦ enqueue t g m d s >>= λ s'. done (false, s')
  ]
]

abbrev pub rounds_left : NodeData → ℕ
rounds_left e = length e.ordered_guids - e.acquired

unfoldable pub try_lock_all : ℕ → LockGraph → LockResult (Bool × LockGraph)
try_lock_all t s = lock_rounds (rounds_left (s.edts t)) t s

abbrev pub spawn_edt : ℕ → LockGraph → LockGraph
spawn_edt t s = record s { spawned = s.spawned ++ (t ∷ []) }

unfoldable pub lock_and_spawn : ℕ → LockGraph → LockResult LockGraph
lock_and_spawn t s = try_lock_all t s >>= λ r. done (if r.0 then spawn_edt t r.1 else r.1)

-- A task that waited for block `g` tries again.
unfoldable pub wake_task : ℕ → ℕ → LockGraph → LockResult LockGraph
wake_task g t s = elim (get_elem? (s.edts t).ordered_guids (s.edts t).acquired) [
  | none ↦ assertion_failed
  | some h ↦ if h == g then lock_and_spawn t s else assertion_failed
]

-- The loop over `new_owners`
unfoldable pub wake_all : ℕ → ℕ → Waitlist → LockGraph → LockResult LockGraph
wake_all zero g w s = elim (waitlist w (s.dbs g)) [ [] ↦ done s | _ ∷ _ ↦ out_of_fuel ]
wake_all (suc n) g w s = elim (waitlist w (s.dbs g)) [
  | [] ↦ done s
  | t ∷ ts ↦
      wake_task g t (set_db_data s g (set_waitlist w ts (s.dbs g))) >>= λ s'. wake_all n g w s'
]

unfoldable pub wake : ℕ → Wake → LockGraph → LockResult LockGraph
wake g no_one s = done s
wake g (new_owner t) s = wake_task g t s
wake g (new_owners w) s = wake_all (length (waitlist w (s.dbs g))) g w s

unfoldable pub unlock : ℕ → Mode → LockGraph → LockResult LockGraph
unlock g m s = release_lock m (s.dbs g) >>= λ r. wake g r.0 (set_db_data s g r.1)

-- The blocks in the preslots, each once, in order.
unfoldable pub collect : List TbbPreslot → List ℕ → List ℕ
collect [] gs = gs
collect (p ∷ ps) gs = collect ps (
    if not (p.data_guid == null_guid) && not (contains p.data_guid gs)
    then gs ++ (p.data_guid ∷ [])
    else gs)

-- `std::sort`
unfoldable pub insert_guid : ℕ → List ℕ → List ℕ
insert_guid g [] = g ∷ []
insert_guid g (h ∷ hs) = if leb g h then g ∷ h ∷ hs else h ∷ insert_guid g hs

unfoldable pub sort_guids : List ℕ → List ℕ
sort_guids [] = []
sort_guids (g ∷ gs) = insert_guid g (sort_guids gs)

-- `std::vector::resize`
abbrev pub resize : List Mode → ℕ → Mode → List Mode
resize ms n m = take n ms ++ replicate (n - length ms) m

-- One round of the loop over the preslots
unfoldable pub combine_at : ℕ → Mode → List ℕ → List Mode → LockResult (List Mode)
combine_at g m [] ms = done ms
combine_at g m (h ∷ gs) [] = assertion_failed
combine_at g m (h ∷ gs) (n ∷ ms) = combine_at g m gs ms >>= λ rest.
    if h == g
    then elim (combine_modes n m) [ none ↦ assertion_failed | some k ↦ done (k ∷ rest) ]
    else done (n ∷ rest)

unfoldable pub combine_all : List TbbPreslot → List ℕ → List Mode → LockResult (List Mode)
combine_all [] gs ms = done ms
combine_all (p ∷ ps) gs ms =
    (if p.data_guid == null_guid then done ms else combine_at p.data_guid p.mode gs ms) >>= λ ms'.
    combine_all ps gs ms'

unfoldable pub order_locks : NodeData → LockResult NodeData
order_locks e =
    let gs : List ℕ = sort_guids (collect e.preslots []) in
    combine_all e.preslots gs (resize e.lock_modes (length gs) db_mode_ro) >>= λ ms.
    done (record e { ordered_guids = gs; lock_modes = ms })

-- `satisfy_event_internal__locked` for a task
unfoldable pub satisfy_task : ℕ → ℕ → ℕ → LockGraph → LockResult LockGraph
satisfy_task t slot data_guid s = elim (get_elem? (s.edts t).preslots slot) [
  | none ↦ assertion_failed
  | some p ↦
      let e : NodeData = record (s.edts t) {
        preslots =
            set (s.edts t).preslots slot (record p { data_guid = data_guid; satisfied = true });
      } in
      if all_preslots e.preslots
      then (order_locks e >>= λ e'. lock_and_spawn t (set_node_data s t e'))
      else done (set_node_data s t e)
]

unfoldable pub add_held_db : ℕ → ℕ → Mode → LockGraph → LockGraph
add_held_db t g m s =
    if g == null_guid
    then s
    else set_node_data s t (record (s.edts t) {
      held_dbs = (s.edts t).held_dbs ++ (g ∷ []);
      held_db_modes = (s.edts t).held_db_modes ++ (m ∷ []);
    })

unfoldable pub find_guid : ℕ → List ℕ → Option ℕ
find_guid g [] = none
find_guid g (h ∷ hs) =
    if h == g then some 0 else elim (find_guid g hs) [ none ↦ none | some j ↦ some (suc j) ]

-- `release_db_internal`
unfoldable pub release_db_internal : ℕ → ℕ → Mode → LockGraph → LockResult LockGraph
release_db_internal t g m s = elim (find_guid g (s.edts t).ordered_guids) [
  | none ↦ unlock g m s
  | some j ↦ elim (get_elem? (s.edts t).lock_modes j) [
    | none ↦ assertion_failed
    | some n ↦ unlock g n (
        set_node_data s t
          (record (s.edts t) { ordered_guids = set (s.edts t).ordered_guids j null_guid }))
  ]
]

-- The loop of `edt::remove_db`; `i` counts the entries passed. `dec_ref` is left out.
unfoldable pub remove_db_from : ℕ → ℕ → List ℕ → List Mode → ℕ → LockGraph → LockResult LockGraph
remove_db_from t i [] ms g s = done s
remove_db_from t i (h ∷ hs) [] g s = assertion_failed
remove_db_from t i (h ∷ hs) (m ∷ ms) g s =
    (if (h == g) && not (h == null_guid)
      then (release_db_internal t h m s >>= λ s'. done (
          set_node_data s' t
            (record (s'.edts t) { held_dbs = set (s'.edts t).held_dbs i null_guid })))
      else done s)
    >>= λ s'. remove_db_from t (suc i) hs ms g s'

unfoldable pub remove_db : ℕ → ℕ → LockGraph → LockResult LockGraph
remove_db t g s = remove_db_from t 0 (s.edts t).held_dbs (s.edts t).held_db_modes g s

unfoldable pub forget_held : ℕ → List ℕ → List ℕ
forget_held g [] = []
forget_held g (h ∷ hs) = (if h == g then null_guid else h) ∷ forget_held g hs

-- The two loops of `unlock_all`
unfoldable pub unlock_ordered : ℕ → List ℕ → List Mode → LockGraph → LockResult LockGraph
unlock_ordered t [] ms s = done s
unlock_ordered t (g ∷ gs) [] s = assertion_failed
unlock_ordered t (g ∷ gs) (m ∷ ms) s =
    (if g == null_guid
      then done s
      else unlock g m
          (set_node_data s t (record (s.edts t) { held_dbs = forget_held g (s.edts t).held_dbs })))
    >>= λ s'. unlock_ordered t gs ms s'

unfoldable pub unlock_held : List ℕ → List Mode → LockGraph → LockResult LockGraph
unlock_held [] ms s = done s
unlock_held (g ∷ gs) [] s = assertion_failed
unlock_held (g ∷ gs) (m ∷ ms) s =
    (if g == null_guid then done s else unlock g m s) >>= λ s'. unlock_held gs ms s'

unfoldable pub unlock_all : ℕ → LockGraph → LockResult LockGraph
unlock_all t s = unlock_ordered t (s.edts t).ordered_guids (s.edts t).lock_modes s >>= λ s'.
    unlock_held (s'.edts t).held_dbs (s'.edts t).held_db_modes s'

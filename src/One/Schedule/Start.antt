-- ===== src/One/Schedule/Start.antt =====
-- Taking a task off the queue (`task_list::get_next` in src/one/ocr_one.cpp).
use ocr_vx.Prelude.{
  ℕ, ◌≡◌, refl, true, List, [], ◌∷◌, none, some, ◌==◌, count, arith, Option-cases, Bool-cases, inl,
  inr, ==_iff, ap, subst,
}
use ocr_vx.One.Types.{Runtime, Object, edt_object, Edt, not_ready}
use ocr_vx.One.Monad.{M, ◌>>=◌, ◌>>◌, pure, guard, get, remove_object, update, as_edt}
use ocr_vx.One.Logic.{Post, Keeps}
use ocr_vx.One.Node.{all_satisfied, get_edt}
use ocr_vx.One.Run.{next_task, set_this_edt, start_edt}
use ocr_vx.One.Schedule.Defs.{is_ready, bit, IsScheduled}

-- The front task leaves the queue and the object list together.
pub take_task-IsScheduled :
    (s : Runtime) (g : ℕ) (rest : List ℕ)
    → s.ready_tasks ≡ g ∷ rest
    → is_ready (s.objects g) ≡ true
    → IsScheduled s
    → IsScheduled (record s { ready_tasks = rest; objects = update s.objects g none })
unfolding count
take_task-IsScheduled s g rest e r p h = ground (
  arith,
  subst (λ ts. count h ts ≡ bit (is_ready (s.objects h))) e (p h),
  r,
  λ (same : (g == h) ≡ true). ap (λ (k : ℕ). is_ready (s.objects k)) ((==_iff g h).0 same),
)

pub start_object : ℕ → Object → M Edt
start_object g o = do
  e ← as_edt o
  guard (all_satisfied e.preslots) not_ready
  remove_object g
  set_this_edt (some e)
  pure e

pub start_object-Post :
    (s : Runtime) (g : ℕ) (rest : List ℕ) (o : Object)
    → s.ready_tasks ≡ g ∷ rest
    → s.objects g ≡ some o
    → IsScheduled s
    → Post IsScheduled (start_object g o (record s { ready_tasks = rest }))
unfolding start_object as_edt remove_object set_this_edt
start_object-Post s g rest (edt_object e) r h p = elim (Bool-cases (all_satisfied e.preslots)) [
  | inl full ↦ simp (full, h, remove_object) (take_task-IsScheduled s g rest r (rw h full) p)
  | inr short ↦ simp short tt
]
start_object-Post s g rest _ r h p = tt

pub start_edt-Keeps : Keeps IsScheduled start_edt
unfolding start_edt next_task get_edt get start_object
start_edt-Keeps = record { keep = λ s p. go s s.ready_tasks refl p }
  where
    go :
        (s : Runtime) (tasks : List ℕ)
        → s.ready_tasks ≡ tasks
        → IsScheduled s
        → Post IsScheduled (start_edt s)
    go s [] r p = rw (r, next_task) tt
    go s (g ∷ rest) r p =
        rw (r, next_task)
          (elim (Option-cases (s.objects g)) [
            | inl h ↦ rw (h, get) tt
            | inr (o, h) ↦ rw (h, get) (start_object-Post s g rest o r h p)
          ])

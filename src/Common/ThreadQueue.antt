-- ===== src/Common/ThreadQueue.antt =====
-- The queue between threads: `threadqueue` of include/common/threadqueue.h. A call holds the mutex but
-- while it waits, so a call is one step, and a wait cuts `pop` in two. `cond.wait` may end without a
-- broadcast, as POSIX allows. Threads are numbers; an item is a type with its data.
use ocr_vx.Prelude.{ℕ, List, [], ◌∷◌, ◌++◌, if◌then◌else◌, contains, erase}
pub mod Fifo
mod Tests

-- `sleeping` waits for a broadcast, and `woken` has had it and asks for the mutex.
pub record ThreadQueue (A : Type 0) : Type 0 where
  pub queue : List A
  pub sleeping : List ℕ
  pub woken : List ℕ

-- What threads do: `resume` is the return from `cond.wait`.
pub data QueueEvent (A : Type 0) : Type 0 where
  pushes : ℕ → A → QueueEvent A
  pops : ℕ → QueueEvent A
  resumes : ℕ → QueueEvent A

module _ {A : Type 0} where
  abbrev pub new_queue : ThreadQueue A
  new_queue = record { queue = []; sleeping = []; woken = [] }

  unfoldable pub push : A → ThreadQueue A → ThreadQueue A
  push d q = record { queue = q.queue ++ (d ∷ []); sleeping = []; woken = q.woken ++ q.sleeping }

  -- The head of the loop in `pop`, which looks at the queue: the thread's item, if it gets one.
  unfoldable pub pop_or_wait : ℕ → List A → ThreadQueue A → List (ℕ × A) × ThreadQueue A
  pop_or_wait t [] q = ([], record q { sleeping = q.sleeping ++ (t ∷ []) })
  pop_or_wait t (d ∷ ds) q = ((t, d) ∷ [], record q { queue = ds })

  unfoldable pub pop : ℕ → ThreadQueue A → List (ℕ × A) × ThreadQueue A
  pop t q = pop_or_wait t q.queue q

  unfoldable pub resume : ℕ → ThreadQueue A → List (ℕ × A) × ThreadQueue A
  resume t q =
      if contains t q.woken
      then pop t (record q { woken = erase t q.woken })
      else if contains t q.sleeping
      then pop t (record q { sleeping = erase t q.sleeping })
      else ([], q)

  unfoldable pub queue_step : QueueEvent A → ThreadQueue A → List (ℕ × A) × ThreadQueue A
  queue_step (pushes t d) q = ([], push d q)
  queue_step (pops t) q = pop t q
  queue_step (resumes t) q = resume t q

  -- The items that threads get, in order.
  unfoldable pub run_queue : List (QueueEvent A) → ThreadQueue A → List (ℕ × A) × ThreadQueue A
  run_queue [] q = ([], q)
  run_queue (e ∷ es) q =
      let one = queue_step e q in let rest = run_queue es one.1 in (one.0 ++ rest.0, rest.1)

-- ===== src/Common/ThreadQueue/Tests.antt =====
-- Two consumers and a producer, where a thread also wakes for no reason.
use ocr_vx.Prelude.{ℕ, refl, inl, List, [], ◌∷◌, ◌≡◌, contains, erase}
use ocr_vx.Common.ThreadQueue.{
  QueueEvent, pushes, pops, resumes, new_queue, push, pop_or_wait, pop, resume, queue_step,
  run_queue,
}
use ocr_vx.Common.ThreadQueue.Fifo.{IsFifo, run_queue-IsFifo}

abbrev events : List (QueueEvent ℕ)
events =
    pops 1 ∷ pops 2 ∷ resumes 2 ∷ pushes 3 70 ∷ resumes 2 ∷ resumes 1 ∷ pushes 3 80 ∷ resumes 1 ∷ []

who_gets : (run_queue events new_queue).0 ≡ (2, 70) ∷ (1, 80) ∷ []
unfolding run_queue queue_step push pop pop_or_wait resume contains erase
who_gets = refl

run_queue-IsFifo_example : IsFifo events new_queue (run_queue events new_queue)
run_queue-IsFifo_example = run_queue-IsFifo events new_queue (inl refl)

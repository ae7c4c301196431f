-- ===== src/Common/ThreadQueue/Fifo.antt =====
-- Items leave the queue in the order in which they came, and no broadcast is missed
-- (include/common/threadqueue.h).
use ocr_vx.Prelude.{
  ℕ, ◌+◌, ◌≡◌, ◌∙◌, sym, ap, ◌⊎◌, inl, inr, refl, arith, true, List, [], ◌∷◌, ◌++◌, ◌==◌,
  if◌then◌else◌, contains, erase, count, count-snoc, append_assoc, append_nil, Bool-cases,
}
use ocr_vx.Common.ThreadQueue.{
  ThreadQueue, QueueEvent, pushes, pops, resumes, push, pop_or_wait, pop, resume, queue_step,
  run_queue,
}

count-append : (a : ℕ) (xs ys : List ℕ) → count a (xs ++ ys) ≡ count a xs + count a ys
unfolding count
count-append a [] ys = omega arith
count-append a (x ∷ xs) ys = omega (arith, count-append a xs ys)

count-erase :
    (a t : ℕ) (xs : List ℕ)
    → contains t xs ≡ true
    → count a xs ≡ count a (erase t xs) + (if t == a then 1 else 0)
unfolding count contains erase
count-erase a t [] h = cc
count-erase a t (x ∷ xs) h = ground (arith, count-erase a t xs)

none_there : (t : ℕ) (xs : List ℕ) → xs ≡ [] → contains t xs ≡ true → ⊥
unfolding contains
none_there t [] e h = cc
none_there t (x ∷ xs) e h = cc

module _ {A : Type 0} where
  abbrev pub items : List (ℕ × A) → List A
  items [] = []
  items ((t, d) ∷ got) = d ∷ items got

  -- The items that were pushed, and how often a thread called `pop`.
  abbrev pub pushed : List (QueueEvent A) → List A
  pushed [] = []
  pushed (pushes t d ∷ es) = d ∷ pushed es
  pushed (pops t ∷ es) = pushed es
  pushed (resumes t ∷ es) = pushed es

  abbrev pub calls : ℕ → List (QueueEvent A) → ℕ
  calls t [] = 0
  calls t (pushes u d ∷ es) = calls t es
  calls t (pops u ∷ es) = (if u == t then 1 else 0) + calls t es
  calls t (resumes u ∷ es) = calls t es

  abbrev pub got_by : ℕ → List (ℕ × A) → ℕ
  got_by t [] = 0
  got_by t ((u, d) ∷ got) = (if u == t then 1 else 0) + got_by t got

  abbrev pub waiting : ℕ → ThreadQueue A → ℕ
  waiting t q = count t q.sleeping + count t q.woken

  abbrev pub NobodySleeps : ThreadQueue A → Type 0
  NobodySleeps q = (q.sleeping ≡ []) ⊎ (q.queue ≡ [])

  -- What one step does.
  record Moves (e : QueueEvent A) (q : ThreadQueue A) (o : List (ℕ × A) × ThreadQueue A)
      : Type 0 where
    pub order : items o.0 ++ o.1.queue ≡ q.queue ++ pushed (e ∷ [])
    pub served : (t : ℕ) → got_by t o.0 + waiting t o.1 ≡ calls t (e ∷ []) + waiting t q
    pub awake : NobodySleeps o.1

  cons_nil : (d : A) (ds : List A) → (d ∷ ds) ≡ [] → ⊥
  cons_nil d ds e = cc

  pop_or_wait-Moves :
      (t : ℕ) (q : ThreadQueue A) (ds : List A)
      → q.queue ≡ ds
      → NobodySleeps q
      → Moves (pops t) q (pop_or_wait t ds q)
  unfolding pop_or_wait
  pop_or_wait-Moves t q [] e v = record {
    order = append_nil q.queue;
    served = λ u. omega (arith, count-snoc u t q.sleeping);
    awake = inr e;
  }
  pop_or_wait-Moves t q (d ∷ ds) e v = record {
    order = sym e ∙ append_nil q.queue;
    served = λ u. omega arith;
    awake = elim v [ inl asleep ↦ inl asleep | inr empty ↦ absurd (cons_nil d ds (sym e ∙ empty)) ];
  }

  pop-Moves : (t : ℕ) (q : ThreadQueue A) → NobodySleeps q → Moves (pops t) q (pop t q)
  unfolding pop
  pop-Moves t q v = pop_or_wait-Moves t q q.queue refl v

  -- A thread that waited looks at the queue again.
  again-Moves :
      (t : ℕ) (q before : ThreadQueue A) (o : List (ℕ × A) × ThreadQueue A)
      → q.queue ≡ before.queue
      → ((u : ℕ) → waiting u before ≡ waiting u q + (if t == u then 1 else 0))
      → Moves (pops t) q o
      → Moves (resumes t) before o
  again-Moves t q before o same fewer m = record {
    order = m.order ∙ ap (λ l. l ++ []) same;
    served = λ u. omega (arith, m.served u, fewer u);
    awake = m.awake;
  }

  resume-Moves : (t : ℕ) (q : ThreadQueue A) → NobodySleeps q → Moves (resumes t) q (resume t q)
  unfolding resume
  resume-Moves t q v = elim (Bool-cases (contains t q.woken)) [
    | inl told ↦ rw told (
        again-Moves t (record q { woken = erase t q.woken }) q _ refl
          (λ u. omega (arith, count-erase u t q.woken told))
          (pop-Moves t (record q { woken = erase t q.woken }) v))
    | inr untold ↦ elim (Bool-cases (contains t q.sleeping)) [
      | inl spurious ↦
          rw (untold, spurious)
            (again-Moves t (record q { sleeping = erase t q.sleeping }) q _ refl
              (λ u. omega (arith, count-erase u t q.sleeping spurious))
              (pop-Moves t (record q { sleeping = erase t q.sleeping })
                (elim v [
                  | inl asleep ↦ absurd (none_there t q.sleeping asleep spurious)
                  | inr empty ↦ inr empty
                ])))
      | inr absent ↦
          rw (untold, absent)
            (record { order = append_nil q.queue; served = λ u. omega arith; awake = v })
    ]
  ]

  push-Moves : (t : ℕ) (d : A) (q : ThreadQueue A) → Moves (pushes t d) q ([], push d q)
  unfolding push count
  push-Moves t d q = record {
    order = refl;
    served = λ u. omega (arith, count-append u q.woken q.sleeping);
    awake = inl refl;
  }

  queue_step-Moves :
      (e : QueueEvent A) (q : ThreadQueue A) → NobodySleeps q → Moves e q (queue_step e q)
  unfolding queue_step
  queue_step-Moves (pushes t d) q v = push-Moves t d q
  queue_step-Moves (pops t) q v = pop-Moves t q v
  queue_step-Moves (resumes t) q v = resume-Moves t q v

  items-append : (a b : List (ℕ × A)) → items (a ++ b) ≡ items a ++ items b
  items-append [] b = refl
  items-append ((t, d) ∷ a) b = ap (λ l. d ∷ l) (items-append a b)

  got_by-append : (t : ℕ) (a b : List (ℕ × A)) → got_by t (a ++ b) ≡ got_by t a + got_by t b
  got_by-append t [] b = omega arith
  got_by-append t ((u, d) ∷ a) b = omega (arith, got_by-append t a b)

  pushed-cons :
      (e : QueueEvent A) (es : List (QueueEvent A)) → pushed (e ∷ es) ≡ pushed (e ∷ []) ++ pushed es
  pushed-cons (pushes t d) es = refl
  pushed-cons (pops t) es = refl
  pushed-cons (resumes t) es = refl

  calls-cons :
      (t : ℕ) (e : QueueEvent A) (es : List (QueueEvent A))
      → calls t (e ∷ es) ≡ calls t (e ∷ []) + calls t es
  calls-cons t (pushes u d) es = omega arith
  calls-cons t (pops u) es = omega arith
  calls-cons t (resumes u) es = omega arith

  chain :
      (a b : List (ℕ × A)) (last middle first : List A) (e : QueueEvent A)
      (es : List (QueueEvent A))
      → items a ++ middle ≡ first ++ pushed (e ∷ [])
      → items b ++ last ≡ middle ++ pushed es
      → items (a ++ b) ++ last ≡ first ++ pushed (e ∷ es)
  chain a b last middle first e es one rest =
      ap (λ l. l ++ last) (items-append a b)
      ∙ append_assoc (items a) (items b) last
      ∙ ap (λ l. items a ++ l) rest
      ∙ sym (append_assoc (items a) middle (pushed es))
      ∙ ap (λ l. l ++ pushed es) one
      ∙ append_assoc first (pushed (e ∷ [])) (pushed es)
      ∙ ap (λ l. first ++ l) (sym (pushed-cons e es))

  pub record IsFifo (es : List (QueueEvent A)) (q : ThreadQueue A)
      (o : List (ℕ × A) × ThreadQueue A) : Type 0 where
    pub order : items o.0 ++ o.1.queue ≡ q.queue ++ pushed es
    pub served : (t : ℕ) → got_by t o.0 + waiting t o.1 ≡ calls t es + waiting t q
    pub awake : NobodySleeps o.1

  -- Whatever threads push, pop and resume, from a queue at which nobody sleeps unless it is empty: the
  -- items that threads got, and then those in the queue, are the items that were in the queue and then
  -- the pushed ones, in order; each call of `pop` has got one item or its thread waits; and a thread
  -- sleeps only if the queue is empty.
  pub run_queue-IsFifo :
      (es : List (QueueEvent A)) (q : ThreadQueue A) → NobodySleeps q → IsFifo es q (run_queue es q)
  unfolding run_queue
  run_queue-IsFifo [] q v = record {
    order = append_nil q.queue;
    served = λ t. omega arith;
    awake = v;
  }
  run_queue-IsFifo (e ∷ es) q v =
      let m = queue_step-Moves e q v in
      let r = run_queue-IsFifo es (queue_step e q).1 m.awake in
      record {
        order =
            chain (queue_step e q).0 (run_queue es (queue_step e q).1).0
              (run_queue es (queue_step e q).1).1.queue (queue_step e q).1.queue q.queue e es
              m.order r.order;
        served = λ t. omega (
          arith,
          got_by-append t (queue_step e q).0 (run_queue es (queue_step e q).1).0,
          calls-cons t e es,
          m.served t,
          r.served t,
        );
        awake = r.awake;
      }

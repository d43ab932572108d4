-- ===== src/BlockingQueue/Fifo.antt =====
-- Sequences of calls of one queue (include/blocking_queue.hpp), as several threads make them.
use cmarket.Prelude.{
  ◌≡◌, refl, sym, ap, subst, ◌∙◌, ◌⊎◌, inl, inr, true, false, not, ◌||◌, Option, none, some, List,
  [], ◌∷◌, ◌++◌, arith, if◌then◌else◌, Bool-cases, push_back,
}
use cmarket.BlockingQueue.{BlockingQueue, push, empty, try_pop, pop, close}

-- A call, by any thread.
pub data Call (T : Type 0) : Type 0 where
  push_call : T → Call T
  pop_call try_pop_call close_call : Call T

-- What a call did: the value that it put in, and the one that it took out.
pub record Effect (T : Type 0) : Type 0 where
  pub put : Option T
  pub taken : Option T

module _ {T : Type 0} where
  -- One call; `none` where it waits, so that it is not the next one to run.
  pub step : Call T → BlockingQueue T → Option (Effect T × BlockingQueue T)
  step (push_call v) q =
      let (accepted, q') = push v q in
      some (record { put = if accepted then some v else none; taken = none }, q')
  step pop_call q = elim (pop q) [
    | none ↦ none
    | some r ↦ some (record { put = none; taken = r.0 }, r.1)
  ]
  step try_pop_call q =
      let (value, q') = try_pop q in some (record { put = none; taken = value }, q')
  step close_call q = some (record { put = none; taken = none }, close q)

  pub run : List (Call T) → BlockingQueue T → Option (List (Effect T) × BlockingQueue T)
  run [] q = some ([], q)
  run (c ∷ cs) q = elim (step c q) [
    | none ↦ none
    | some r ↦ elim (run cs r.1) [ none ↦ none | some t ↦ some (r.0 ∷ t.0, t.1) ]
  ]

  -- The values that a sequence put in, and those that it took out, in order.
  abbrev cons_some : Option T → List T → List T
  cons_some none xs = xs
  cons_some (some x) xs = x ∷ xs

  pub all_put : List (Effect T) → List T
  all_put [] = []
  all_put (e ∷ es) = cons_some e.put (all_put es)

  pub all_taken : List (Effect T) → List T
  all_taken [] = []
  all_taken (e ∷ es) = cons_some e.taken (all_taken es)

  pub push_back-append : (xs ys : List T) (x : T) → push_back xs x ++ ys ≡ xs ++ (x ∷ ys)
  push_back-append [] ys x = refl
  push_back-append (y ∷ xs) ys x = ap (λ zs. y ∷ zs) (push_back-append xs ys x)

  -- What a call may do: nothing is put into a closed queue, which stays closed, and a call
  -- takes nothing only from an empty queue; whatever is put in later stands behind.
  abbrev StepFifo : BlockingQueue T → Option (Effect T × BlockingQueue T) → Type 0
  StepFifo q none = Unit {0}
  StepFifo q (some (e, q')) =
      ((ys : List T) → q.queue ++ cons_some e.put ys ≡ cons_some e.taken (q'.queue ++ ys))
      × (q.is_closed ≡ true → (e.put ≡ none) × (q'.is_closed ≡ true))

  try_pop-cases :
      (q : BlockingQueue T)
      → ((q.queue ≡ []) × (try_pop q ≡ (none, q)))
        ⊎ ((x : T) × (xs : List T) × (q.queue ≡ x ∷ xs)
            × (try_pop q ≡ (some x, record q { queue = xs })))
  unfolding try_pop
  try_pop-cases q = by_queue q.queue refl
    where
      by_queue :
          (ys : List T)
          → q.queue ≡ ys
          → ((q.queue ≡ []) × (try_pop q ≡ (none, q)))
            ⊎ ((x : T) × (xs : List T) × (q.queue ≡ x ∷ xs)
                × (try_pop q ≡ (some x, record q { queue = xs })))
      by_queue [] h = inl (h, ground (arith, h))
      by_queue (x ∷ xs) h = inr (x, xs, h, ground (arith, h))

  try_pop-StepFifo :
      (q : BlockingQueue T)
      → StepFifo q (some (record { put = none; taken = (try_pop q).0 }, (try_pop q).1))
  try_pop-StepFifo q = elim (try_pop-cases q) [
    | inl (e, h) ↦ rw h ((λ ys. refl), λ c. (refl, c))
    | inr (x, xs, e, h) ↦ rw h ((λ ys. rw e refl), λ c. (refl, c))
  ]

  step-StepFifo : (c : Call T) (q : BlockingQueue T) → StepFifo q (step c q)
  unfolding step push pop close
  step-StepFifo (push_call v) q = elim (Bool-cases q.is_closed) [
    | inl h ↦ rw h ((λ ys. refl), λ c. (refl, c))
    | inr h ↦ rw h ((λ ys. sym (push_back-append q.queue ys v)), λ c. cc)
  ]
  step-StepFifo pop_call q = elim (Bool-cases (q.is_closed || not (empty q))) [
    | inl h ↦
        let e : step pop_call q
            ≡ some (record { put = none; taken = (try_pop q).0 }, (try_pop q).1) =
          ground (arith, h) in
        subst (StepFifo q) (sym e) (try_pop-StepFifo q)
    | inr h ↦ let e : step pop_call q ≡ none = ground (arith, h) in subst (StepFifo q) (sym e) tt
  ]
  step-StepFifo try_pop_call q = try_pop-StepFifo q
  step-StepFifo close_call q = elim (Bool-cases q.is_closed) [
    | inl h ↦ rw h ((λ ys. refl), λ c. (refl, c))
    | inr h ↦ rw h ((λ ys. refl), λ c. (refl, refl))
  ]

  -- What a run may do.
  abbrev pub RunFifo : BlockingQueue T → Option (List (Effect T) × BlockingQueue T) → Type 0
  RunFifo q none = Unit {0}
  RunFifo q (some (es, q')) =
      (q.queue ++ all_put es ≡ all_taken es ++ q'.queue)
      × (q.is_closed ≡ true → (all_put es ≡ []) × (q'.is_closed ≡ true))

  cons_some-append : (x : Option T) (xs ys : List T) → cons_some x xs ++ ys ≡ cons_some x (xs ++ ys)
  cons_some-append none xs ys = refl
  cons_some-append (some x) xs ys = refl

  run_cons :
      (c : Call T) (cs : List (Call T)) (q q' : BlockingQueue T) (e : Effect T)
      → step c q ≡ some (e, q')
      → RunFifo q' (run cs q')
      → RunFifo q (run (c ∷ cs) q)
  unfolding run all_put all_taken
  run_cons c cs q q' e h later = by_rest (run cs q') refl later
    where
      this : StepFifo q (some (e, q'))
      this = subst (StepFifo q) h (step-StepFifo c q)

      by_rest :
          (r : Option (List (Effect T) × BlockingQueue T))
          → run cs q' ≡ r
          → RunFifo q' r
          → RunFifo q (run (c ∷ cs) q)
      by_rest none k f =
          let eq : run (c ∷ cs) q ≡ none = ground (arith, h, k) in subst (RunFifo q) (sym eq) tt
      by_rest (some (es, q'')) k f =
          let eq : run (c ∷ cs) q ≡ some (e ∷ es, q'') = ground (arith, h, k) in
          subst (RunFifo q) (sym eq) (
            this.0 (all_put es)
                ∙ ap (cons_some e.taken) f.0
                ∙ sym (cons_some-append e.taken (all_taken es) q''.queue),
            λ closed. (
              ap (λ x. cons_some x (all_put es)) (this.1 closed).0 ∙ (f.1 (this.1 closed).1).0,
              (f.1 (this.1 closed).1).1,
            ),
          )

  run-step :
      (c : Call T) (cs : List (Call T)) (q : BlockingQueue T)
      → ((q' : BlockingQueue T) → RunFifo q' (run cs q'))
      → (r : Option (Effect T × BlockingQueue T)) → step c q ≡ r
      → RunFifo q (run (c ∷ cs) q)
  unfolding run
  run-step c cs q later none h =
      let eq : run (c ∷ cs) q ≡ none = ground (arith, h) in subst (RunFifo q) (sym eq) tt
  run-step c cs q later (some (e, q')) h = run_cons c cs q q' e h (later q')

  pub append-nil : (xs : List T) → xs ++ [] ≡ xs
  append-nil [] = refl
  append-nil (x ∷ xs) = ap (λ ys. x ∷ ys) (append-nil xs)

  -- Any sequence of calls of any threads that runs, from any state: the values taken out, followed
  -- by those that are still in the queue, are the values that were in it followed by those put in,
  -- in order; and into a queue that is closed nothing is put, and it stays closed.
  pub run-RunFifo : (cs : List (Call T)) (q : BlockingQueue T) → RunFifo q (run cs q)
  unfolding run all_put all_taken
  run-RunFifo [] q = (append-nil q.queue, λ closed. (refl, closed))
  run-RunFifo (c ∷ cs) q = run-step c cs q (run-RunFifo cs) (step c q) refl

  -- What `pop` may do.
  abbrev pub Pops : BlockingQueue T → Option (Option T × BlockingQueue T) → Type 0
  Pops q none = (q.is_closed ≡ false) × (q.queue ≡ [])
  Pops q (some (none, q')) = (q.is_closed ≡ true) × (q.queue ≡ []) × (q' ≡ q)
  Pops q (some (some x, q')) = (q.queue ≡ x ∷ q'.queue) × (q'.is_closed ≡ q.is_closed)

  pop_closed : (q : BlockingQueue T) → q.is_closed ≡ true → pop q ≡ some (try_pop q)
  unfolding pop
  pop_closed q c = ground (arith, c)

  pop_waits : (q : BlockingQueue T) → q.is_closed ≡ false → q.queue ≡ [] → pop q ≡ none
  unfolding pop empty
  pop_waits q c e = ground (arith, c, e)

  pop_full :
      (q : BlockingQueue T) (x : T) (xs : List T) → q.queue ≡ x ∷ xs → pop q ≡ some (try_pop q)
  unfolding pop empty
  pop_full q x xs e = elim (Bool-cases q.is_closed) [
    | inl c ↦ ground (arith, c, e)
    | inr c ↦ ground (arith, c, e)
  ]

  -- `pop` waits exactly while the queue is open and empty; it gives no value exactly where the
  -- queue is closed and empty, and then changes nothing; else it takes out the oldest value.
  pub pop-Pops : (q : BlockingQueue T) → Pops q (pop q)
  pop-Pops q = elim (try_pop-cases q) [
    | inl (e, h) ↦ elim (Bool-cases q.is_closed) [
      | inl c ↦ subst (Pops q) (sym (pop_closed q c ∙ ap some h)) (c, e, refl)
      | inr c ↦ subst (Pops q) (sym (pop_waits q c e)) (c, e)
    ]
    | inr (x, xs, e, h) ↦ subst (Pops q) (sym (pop_full q x xs e ∙ ap some h)) (e, refl)
  ]

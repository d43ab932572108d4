-- ===== src/ConcurrentMatchingEngine/Shutdown.antt =====
-- After a shutdown the worker serves what is left and returns (src/concurrent_matching_engine.cpp).
use cmarket.Prelude.{
  ℕ, zero, suc, ◌≡◌, refl, sym, ap, ap₂, subst, ◌∙◌, ◌⊎◌, inl, inr, true, false, Option, none, some,
  List, [], ◌∷◌, ◌++◌, arith, if◌then◌else◌, Bool-cases, Option-cases, length,
}
use cmarket.LongDouble.{LongDouble}
use cmarket.OrderBook.Book.{OrderBook}
use cmarket.BlockingQueue.{BlockingQueue, empty_queue, push, pop, close}
use cmarket.BlockingQueue.Fifo.{append-nil, Pops, pop-Pops}
use cmarket.MatchingEngine.Defs.{make}
use cmarket.ConcurrentMatchingEngine.{
  Command, ConcurrentMatchingEngine, start, submit, close_queue, process_taken, worker_round,
}
use cmarket.ConcurrentMatchingEngine.Schedule.{
  Event, submitted, shut_down, worked, accepted, run, serve,
}
use cmarket.ConcurrentMatchingEngine.Order.{Serves, run_worked, run-Serves}

-- A number of rounds of the worker.
unfoldable pub rounds : ℕ → List Event
rounds zero = []
rounds (suc n) = worked ∷ rounds n

-- The rounds that the worker needs after a shutdown.
unfoldable pub rounds_left : ConcurrentMatchingEngine → ℕ
rounds_left s = if s.worker_finished then 0 else suc (length s.command_queue.queue)

module _ (F : LongDouble) where
  -- A worker that has returned has left nothing behind, and nothing comes any more.
  abbrev IsLeftEmpty : ConcurrentMatchingEngine → Type 0
  IsLeftEmpty s =
      s.worker_finished ≡ true → (s.command_queue.is_closed ≡ true) × (s.command_queue.queue ≡ [])

  abbrev LeavesEmpty : Option ConcurrentMatchingEngine → Type 0
  LeavesEmpty none = Unit {0}
  LeavesEmpty (some t) = IsLeftEmpty t

  finished_waits :
      (s : ConcurrentMatchingEngine) → s.worker_finished ≡ true → worker_round F s ≡ none
  unfolding worker_round
  finished_waits s h = ground (arith, h)

  -- What a round of a worker that has not returned may do: it waits, returns, or serves a command.
  abbrev Worked : ConcurrentMatchingEngine → Type 0
  Worked s =
      ((worker_round F s ≡ none) × (s.command_queue.is_closed ≡ false))
      ⊎ ((worker_round F s ≡ some (record s { worker_finished = true }))
          × (s.command_queue.is_closed ≡ true)
          × (s.command_queue.queue ≡ []))
      ⊎ ((n : ℕ) × (c : Command) × (q : BlockingQueue (ℕ × Command)) × (worker_round F s
            ≡ some (process_taken F (n, c) q s))
          × (s.command_queue.queue ≡ (n, c) ∷ q.queue)
          × (q.is_closed ≡ s.command_queue.is_closed))

  worker_round-Worked : (s : ConcurrentMatchingEngine) → s.worker_finished ≡ false → Worked s
  unfolding worker_round
  worker_round-Worked s running =
      by_pop (pop s.command_queue) refl (pop-Pops s.command_queue) running
    where
      by_pop :
          (r : Option (Option (ℕ × Command) × BlockingQueue (ℕ × Command)))
          → pop s.command_queue ≡ r
          → Pops s.command_queue r
          → s.worker_finished ≡ false
          → Worked s
      by_pop none h (is_open, _) running = inl (ground (arith, h, running), is_open)
      by_pop (some (none, q)) h (closed, front, same) running =
          inr (inl (ground (arith, h, same, running), closed, front))
      by_pop (some (some (n, c), q)) h (front, closed) running =
          inr (inr (n, c, q, ground (arith, h, running), front, closed))

  run-IsLeftEmpty :
      (es : List Event) (s : ConcurrentMatchingEngine) → IsLeftEmpty s → LeavesEmpty (run F es s)
  unfolding run submit push close_queue close process_taken
  run-IsLeftEmpty [] s h = h
  run-IsLeftEmpty (submitted c ∷ es) s h =
      run-IsLeftEmpty es (submit c s).1 (λ finished. ground (arith, h finished))
  run-IsLeftEmpty (shut_down ∷ es) s h =
      run-IsLeftEmpty es (close_queue s) (λ finished. ground (arith, h finished))
  run-IsLeftEmpty (worked ∷ es) s h = elim (Bool-cases s.worker_finished) [
    | inl finished ↦
        let eq : run F (worked ∷ es) s ≡ none = ground (arith, finished_waits s finished) in
        subst LeavesEmpty (sym eq) tt
    | inr running ↦ elim (worker_round-Worked s running) [
      | inl (waits, _) ↦
          let eq : run F (worked ∷ es) s ≡ none = ground (arith, waits) in
          subst LeavesEmpty (sym eq) tt
      | inr (inl (returns, closed, front)) ↦
          subst LeavesEmpty (sym (run_worked F s (record s { worker_finished = true }) es returns))
            (run-IsLeftEmpty es (record s { worker_finished = true }) (λ _. (closed, front)))
      | inr (inr (n, c, q, serves, front, closed)) ↦
          subst LeavesEmpty (sym (run_worked F s (process_taken F (n, c) q s) es serves))
            (run-IsLeftEmpty es (process_taken F (n, c) q s) (λ finished. cc (finished, running)))
    ]
  ]

  -- A closed queue is drained in as many rounds as it has commands, and one more.
  drained :
      (n : ℕ) (s : ConcurrentMatchingEngine)
      → s.worker_finished ≡ false
      → s.command_queue.is_closed ≡ true
      → length s.command_queue.queue ≡ n
      → (t : ConcurrentMatchingEngine) × (run F (rounds (suc n)) s ≡ some t)
        × (t.worker_finished ≡ true)
        × (t.command_queue.queue ≡ [])
  unfolding run rounds process_taken
  drained zero s running closed size = elim (worker_round-Worked s running) [
    | inl (_, is_open) ↦ cc (closed, is_open)
    | inr (inl (eq, _, front)) ↦
        (record s { worker_finished = true }, ground (arith, eq), refl, front)
    | inr (inr (n, c, q, eq, front, _)) ↦ absurd (ground (arith, size, front))
  ]
  drained (suc n) s running closed size = elim (worker_round-Worked s running) [
    | inl (_, is_open) ↦ cc (closed, is_open)
    | inr (inl (eq, _, front)) ↦ absurd (ground (arith, size, front))
    | inr (inr (i, c, q, eq, front, same)) ↦
        let (t, later, finished, left) =
          drained n (process_taken F (i, c) q s) running (same ∙ closed)
            (ground (arith, size, front)) in
        (t, run_worked F s (process_taken F (i, c) q s) (rounds (suc n)) eq ∙ later, finished, left)
  ]

  run-append :
      (es more : List Event) (s t : ConcurrentMatchingEngine)
      → run F es s ≡ some t
      → run F (es ++ more) s ≡ run F more t
  unfolding run
  run-append [] more s t h = ground (arith, h)
  run-append (submitted c ∷ es) more s t h = run-append es more (submit c s).1 t h
  run-append (shut_down ∷ es) more s t h = run-append es more (close_queue s) t h
  run-append (worked ∷ es) more s t h = elim (Option-cases (worker_round F s)) [
    | inl waits ↦ absurd (ground (arith, waits, h))
    | inr (s', round) ↦
        run_worked F s s' (es ++ more) round
        ∙ run-append es more s' t (sym (run_worked F s s' es round) ∙ h)
  ]

  accepted-shut_down :
      (n : ℕ) (es more : List Event) → accepted n (es ++ shut_down ∷ more) ≡ accepted n es
  unfolding accepted
  accepted-shut_down n [] more = refl
  accepted-shut_down n (submitted c ∷ es) more =
      ap (λ cs. (n, c) ∷ cs) (accepted-shut_down (suc n) es more)
  accepted-shut_down n (shut_down ∷ es) more = refl
  accepted-shut_down n (worked ∷ es) more = accepted-shut_down n es more

  closed-returns :
      (s : ConcurrentMatchingEngine)
      → IsLeftEmpty s
      → (t : ConcurrentMatchingEngine) × (run F (shut_down ∷ rounds (rounds_left s)) s ≡ some t)
        × (t.worker_finished ≡ true)
        × (t.command_queue.queue ≡ [])
  unfolding run rounds rounds_left close_queue close
  closed-returns s left_empty = elim (Bool-cases s.worker_finished) [
    | inl finished ↦
        (close_queue s, ground (arith, finished), finished, ground (arith, left_empty finished))
    | inr running ↦
        let n = length s.command_queue.queue in
        let (t, later, finished, left) =
          drained n (close_queue s) running (ground arith) (ground arith) in
        let same : run F (shut_down ∷ rounds (rounds_left s)) s
            ≡ run F (rounds (suc n)) (close_queue s) =
          ap (λ b. run F (rounds (if b then 0 else suc n)) (close_queue s)) running in
        (t, same ∙ later, finished, left)
  ]

  -- `shutdown` completes, from every state that the threads can reach: the worker returns after
  -- `rounds_left` of its rounds, none of which has to wait; then every command that was accepted before
  -- the first shutdown has been served, in the order of the calls, and every promise of such a
  -- command has its reply.
  pub shut_down-completes :
      (b : OrderBook) (es : List Event) (s : ConcurrentMatchingEngine)
      → run F es (start b) ≡ some s
      → (t : ConcurrentMatchingEngine) × (run F (shut_down ∷ rounds (rounds_left s)) s ≡ some t)
        × (t.worker_finished ≡ true)
        × (t.command_queue.queue ≡ [])
        × ((t.replies, t.engine) ≡ serve F (accepted 0 es) (make b))
  unfolding start empty_queue
  shut_down-completes b es s h =
      let reached : IsLeftEmpty s =
        subst LeavesEmpty h (run-IsLeftEmpty es (start b) (λ finished. cc finished)) in
      let (t, returns, finished, left) = closed-returns s reached in
      let more = shut_down ∷ rounds (rounds_left s) in
      let served : Serves F (accepted 0 es) (start b) t =
        subst (λ cs. Serves F cs (start b) t) (accepted-shut_down 0 es (rounds (rounds_left s)))
          (run-Serves F b (es ++ more) t (run-append es more (start b) s h ∙ returns)) in
      let all : accepted 0 es ≡ served.done =
        served.in_order ∙ ap (λ q. served.done ++ q) left ∙ append-nil served.done in
      let reply_eq = served.replies ∙ ap (λ cs. (serve F cs (make b)).0) (sym all) in
      let engine_eq = served.engine ∙ ap (λ cs. (serve F cs (make b)).1) (sym all) in
      (t, returns, finished, left, ap₂ (λ x y. (x, y)) reply_eq engine_eq)

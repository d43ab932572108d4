-- ===== src/ConcurrentMatchingEngine/Order.antt =====
-- The worker serves the commands one after the other, in the order in which they were accepted
-- (src/concurrent_matching_engine.cpp).
use cmarket.Prelude.{
  ℕ, suc, ◌≡◌, refl, sym, ap, ap₂, subst, ◌∙◌, inl, inr, true, false, Option, none, some, List, [],
  ◌∷◌, ◌++◌, arith, if◌then◌else◌, Bool-cases,
}
use cmarket.LongDouble.{LongDouble}
use cmarket.OrderBook.Book.{OrderBook}
use cmarket.BlockingQueue.{BlockingQueue, empty_queue, push, pop, close}
use cmarket.BlockingQueue.Fifo.{push_back-append, append-nil, Pops, pop-Pops}
use cmarket.ConcurrentMatchingEngine.{
  Command, ConcurrentMatchingEngine, start, submit, close_queue, process_command, process_taken,
  worker_round,
}
use cmarket.ConcurrentMatchingEngine.Schedule.{
  Event, submitted, shut_down, worked, accepted, run, serve,
}

module _ (F : LongDouble) where
  -- From `s`, where the commands `todo` were to come, some have been served and the others wait.
  pub record Serves (todo : List (ℕ × Command)) (s t : ConcurrentMatchingEngine) : Type 0 where
    pub done : List (ℕ × Command)
    pub in_order : todo ≡ done ++ t.command_queue.queue
    pub replies : t.replies ≡ s.replies ++ (serve F done s.engine).0
    pub engine : t.engine ≡ (serve F done s.engine).1

  -- What was waiting, and what will be accepted.
  abbrev pub to_come : ConcurrentMatchingEngine → List Event → List (ℕ × Command)
  to_come s es =
      s.command_queue.queue
      ++ (if s.command_queue.is_closed then [] else accepted s.next_promise es)

  abbrev pub Runs : ConcurrentMatchingEngine → List Event → Option ConcurrentMatchingEngine → Type 0
  Runs s es none = Unit {0}
  Runs s es (some t) = Serves (to_come s es) s t

  -- A step that serves nothing.
  Runs-same :
      (s s' : ConcurrentMatchingEngine) (es es' : List Event) (r : Option ConcurrentMatchingEngine)
      → s'.engine ≡ s.engine
      → s'.replies ≡ s.replies
      → to_come s' es' ≡ to_come s es
      → Runs s' es' r
      → Runs s es r
  Runs-same s s' es es' none e k same h = tt
  Runs-same s s' es es' (some t) e k same h = record {
    done = h.done;
    in_order = sym same ∙ h.in_order;
    replies = h.replies ∙ ap₂ (λ rs m. rs ++ (serve F h.done m).0) k e;
    engine = h.engine ∙ ap (λ m. (serve F h.done m).1) e;
  }

  submit-to_come :
      (s : ConcurrentMatchingEngine) (c : Command) (es : List Event)
      → to_come (submit c s).1 es ≡ to_come s (submitted c ∷ es)
  unfolding submit push accepted
  submit-to_come s c es = elim (Bool-cases s.command_queue.is_closed) [
    | inl closed ↦ ground (arith, closed)
    | inr is_open ↦
        let behind =
          push_back-append s.command_queue.queue (accepted (suc s.next_promise) es)
            (s.next_promise, c) in
        ground (arith, is_open, behind)
  ]

  close_queue-to_come :
      (s : ConcurrentMatchingEngine) (es : List Event)
      → to_come (close_queue s) es ≡ to_come s (shut_down ∷ es)
  unfolding close_queue close accepted
  close_queue-to_come s es = ground arith

  -- A step that serves a command.
  Runs-served :
      (s : ConcurrentMatchingEngine) (es : List Event) (n : ℕ) (c : Command)
      (q : BlockingQueue (ℕ × Command)) (r : Option ConcurrentMatchingEngine)
      → s.command_queue.queue ≡ (n, c) ∷ q.queue
      → q.is_closed ≡ s.command_queue.is_closed
      → Runs (process_taken F (n, c) q s) es r
      → Runs s (worked ∷ es) r
  unfolding process_taken serve accepted
  Runs-served s es n c q none front closed h = tt
  Runs-served s es n c q (some t) front closed h = record {
    done = (n, c) ∷ h.done;
    in_order =
        ap₂ (λ xs b. xs ++ (if b then [] else accepted s.next_promise es)) front (sym closed)
        ∙ ap (λ xs. (n, c) ∷ xs) h.in_order;
    replies =
        h.replies
        ∙ push_back-append s.replies (serve F h.done (process_command F c s.engine).1).0
            (n, (process_command F c s.engine).0);
    engine = h.engine;
  }

  pub run_worked :
      (s t : ConcurrentMatchingEngine) (es : List Event)
      → worker_round F s ≡ some t
      → run F (worked ∷ es) s ≡ run F es t
  unfolding run
  run_worked s t es h = ground (arith, h)

  worked-Runs :
      (s : ConcurrentMatchingEngine) (es : List Event)
      → ((t : ConcurrentMatchingEngine) → Runs t es (run F es t))
      → (r : Option (Option (ℕ × Command) × BlockingQueue (ℕ × Command))) → pop s.command_queue ≡ r
      → Pops s.command_queue r
      → s.worker_finished ≡ false
      → Runs s (worked ∷ es) (run F (worked ∷ es) s)
  unfolding run worker_round accepted
  worked-Runs s es later none h p running =
      let eq : run F (worked ∷ es) s ≡ none = ground (arith, h, running) in
      subst (Runs s (worked ∷ es)) (sym eq) tt
  worked-Runs s es later (some (none, q)) h (closed, front, same) running =
      let t : ConcurrentMatchingEngine = record s { command_queue = q; worker_finished = true } in
      let eq : run F (worked ∷ es) s ≡ run F es t =
        run_worked s t es (ground (arith, h, running)) in
      subst (Runs s (worked ∷ es)) (sym eq) (
        Runs-same s t (worked ∷ es) es (run F es t) refl refl
          (ap
            (λ (u : BlockingQueue (ℕ × Command)).
              u.queue ++ (if u.is_closed then [] else accepted s.next_promise es))
            same)
          (later t))
  worked-Runs s es later (some (some (n, c), q)) h (front, closed) running =
      let t = process_taken F (n, c) q s in
      let eq : run F (worked ∷ es) s ≡ run F es t =
        run_worked s t es (ground (arith, h, running)) in
      subst (Runs s (worked ∷ es)) (sym eq)
        (Runs-served s es n c q (run F es t) front closed (later t))

  nothing_to_come : (s : ConcurrentMatchingEngine) → to_come s [] ≡ s.command_queue.queue
  unfolding accepted
  nothing_to_come s =
      let none_accepted : (if s.command_queue.is_closed then [] else accepted s.next_promise [])
          ≡ [] =
        ground arith in
      ap (λ xs. s.command_queue.queue ++ xs) none_accepted ∙ append-nil s.command_queue.queue

  pub run-Runs : (es : List Event) (s : ConcurrentMatchingEngine) → Runs s es (run F es s)
  unfolding run worker_round serve submit close_queue
  run-Runs [] s = record {
    done = [];
    in_order = nothing_to_come s;
    replies = sym (append-nil s.replies);
    engine = refl;
  }
  run-Runs (submitted c ∷ es) s =
      Runs-same s (submit c s).1 (submitted c ∷ es) es (run F es (submit c s).1) refl refl
        (submit-to_come s c es) (run-Runs es (submit c s).1)
  run-Runs (shut_down ∷ es) s =
      Runs-same s (close_queue s) (shut_down ∷ es) es (run F es (close_queue s)) refl refl
        (close_queue-to_come s es) (run-Runs es (close_queue s))
  run-Runs (worked ∷ es) s = elim (Bool-cases s.worker_finished) [
    | inl finished ↦
        let eq : run F (worked ∷ es) s ≡ none = ground (arith, finished) in
        subst (Runs s (worked ∷ es)) (sym eq) tt
    | inr running ↦
        worked-Runs s es (run-Runs es) (pop s.command_queue) refl (pop-Pops s.command_queue) running
  ]

  -- Whatever the threads do, and in whatever order: some of the commands that were accepted have been
  -- served, in the order of the calls that sent them, the others wait in that order; the replies are
  -- those, and the engine is the one, of a single thread that calls the matching engine for these
  -- commands one after the other.
  pub run-Serves :
      (b : OrderBook) (es : List Event) (t : ConcurrentMatchingEngine)
      → run F es (start b) ≡ some t
      → Serves (accepted 0 es) (start b) t
  unfolding start empty_queue
  run-Serves b es t h = subst (Runs (start b) es) h (run-Runs es (start b))

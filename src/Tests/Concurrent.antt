-- ===== src/Tests/Concurrent.antt =====
-- Two clients and the worker (src/concurrent_matching_engine.cpp), and the theorems at them.
use cmarket.Prelude.{◌≡◌, refl, true, none, some, List, [], ◌∷◌, pos}
use cmarket.LongDouble.{exact}
use cmarket.BlockingQueue.{empty_queue, push, pop, empty, try_pop}
use cmarket.MatchingEngine.Defs.{make}
use cmarket.ConcurrentMatchingEngine.{
  place_limit_sell_command, execute_market_buy_command, cancel_order_command,
  ConcurrentMatchingEngine, start, submit, process_taken, worker_round,
}
use cmarket.ConcurrentMatchingEngine.Schedule.{
  Event, submitted, shut_down, worked, accepted, run, serve,
}
use cmarket.ConcurrentMatchingEngine.Order.{Serves, run-Serves}
use cmarket.ConcurrentMatchingEngine.Shutdown.{rounds, rounds_left, shut_down-completes}
use cmarket.Tests.Engine.{engine}

-- An order, a market order that meets it, and a cancellation that comes after it is too late.
abbrev events : List Event
events =
    submitted (place_limit_sell_command (pos 500) (pos 20))
    ∷ worked
    ∷ submitted (execute_market_buy_command (pos 20))
    ∷ submitted (cancel_order_command 1)
    ∷ worked
    ∷ []

abbrev reached : ConcurrentMatchingEngine
reached = elim (run exact events (start engine.order_book)) [
  | none ↦ start engine.order_book
  | some t ↦ t
]

ran : run exact events (start engine.order_book) ≡ some reached
unfolding run worker_round pop empty try_pop process_taken submit push start empty_queue
ran = refl

run-Serves_example : Serves exact (accepted 0 events) (start engine.order_book) reached
run-Serves_example = run-Serves exact engine.order_book events reached ran

shut_down-completes_example :
    (t : ConcurrentMatchingEngine) × (run exact (shut_down ∷ rounds (rounds_left reached)) reached
      ≡ some t)
    × (t.worker_finished ≡ true)
    × (t.command_queue.queue ≡ [])
    × ((t.replies, t.engine) ≡ serve exact (accepted 0 events) (make engine.order_book))
shut_down-completes_example = shut_down-completes exact engine.order_book events reached ran

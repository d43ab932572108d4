-- ===== src/ConcurrentMatchingEngine.antt =====
-- include/engine_command.hpp, include/concurrent_matching_engine.hpp and
-- src/concurrent_matching_engine.cpp. A promise, and the future that shares its state, is the number
-- of its command; what a promise is given is an entry of `replies`. The threads are the clients and
-- the worker, whose calls of the queue are single steps (see BlockingQueue); only the worker uses
-- the engine, so that processing a command is a part of the step that takes it.
pub mod Schedule
pub mod Order
pub mod Shutdown
use cmarket.Prelude.{
  ℕ, suc, Bool, true, false, Option, none, some, List, [], if◌then◌else◌, push_back, ℤ, Action,
  Result, ok, err, runtime_error,
}
use cmarket.LongDouble.{LongDouble}
use cmarket.Execution.{Trade, ExecutionResult, LimitOrder}
use cmarket.OrderBook.Book.{OrderBook}
use cmarket.BlockingQueue.{BlockingQueue, empty_queue, push, pop, close}
use cmarket.MatchingEngine.Defs.{MatchingEngine, make}
use cmarket.MatchingEngine.Defs
use cmarket.MatchingEngine.Place
use cmarket.MatchingEngine.Market
use cmarket.MatchingEngine.Cancel
use cmarket.MatchingEngine.Modify

-- The commands without their promises. `EngineCommandHolder` is the tag that `process_command`
-- finds by `dynamic_cast`.
pub data Command : Type 0 where
  place_limit_buy_command place_limit_sell_command : ℤ → ℤ → Command
  execute_market_buy_command execute_market_sell_command : ℤ → Command
  cancel_order_command : ℕ → Command
  modify_order_command : ℕ → ℤ → ℤ → Command
  active_orders_command trade_history_command clear_trade_history_command : Command

-- What a promise is given: a value of its type, or the exception.
pub data Reply : Type 0 where
  order_id_reply : Result ℕ → Reply
  execution_reply : Result ExecutionResult → Reply
  bool_reply : Result Bool → Reply
  orders_reply : Result (List LimitOrder) → Reply
  trades_reply : Result (List Trade) → Reply
  void_reply : Result (Unit {0}) → Reply

pub record ConcurrentMatchingEngine : Type 0 where
  pub engine : MatchingEngine
  pub command_queue : BlockingQueue (ℕ × Command)
  pub next_promise : ℕ
  pub replies : List (ℕ × Reply)
  -- `worker_loop` has returned.
  pub worker_finished : Bool

unfoldable pub start : OrderBook → ConcurrentMatchingEngine
start order_book = record {
  engine = make order_book;
  command_queue = empty_queue;
  next_promise = 0;
  replies = [];
  worker_finished = false;
}

-- What every public method does with its command: the future, or an exception after a shutdown.
unfoldable pub submit : Command → Action ConcurrentMatchingEngine ℕ
submit command s =
    let (accepted, q) = push (s.next_promise, command) s.command_queue in
    (
      if accepted then ok s.next_promise else err runtime_error,
      record s { command_queue = q; next_promise = suc s.next_promise },
    )

unfoldable pub place_limit_buy : ℤ → ℤ → Action ConcurrentMatchingEngine ℕ
place_limit_buy price_ticks quantity = submit (place_limit_buy_command price_ticks quantity)

unfoldable pub place_limit_sell : ℤ → ℤ → Action ConcurrentMatchingEngine ℕ
place_limit_sell price_ticks quantity = submit (place_limit_sell_command price_ticks quantity)

unfoldable pub execute_market_buy : ℤ → Action ConcurrentMatchingEngine ℕ
execute_market_buy quantity = submit (execute_market_buy_command quantity)

unfoldable pub execute_market_sell : ℤ → Action ConcurrentMatchingEngine ℕ
execute_market_sell quantity = submit (execute_market_sell_command quantity)

unfoldable pub cancel_order : ℕ → Action ConcurrentMatchingEngine ℕ
cancel_order order_id = submit (cancel_order_command order_id)

unfoldable pub modify_order : ℕ → ℤ → ℤ → Action ConcurrentMatchingEngine ℕ
modify_order order_id new_price_ticks new_quantity =
    submit (modify_order_command order_id new_price_ticks new_quantity)

unfoldable pub active_limit_orders : Action ConcurrentMatchingEngine ℕ
active_limit_orders = submit active_orders_command

unfoldable pub trade_history : Action ConcurrentMatchingEngine ℕ
trade_history = submit trade_history_command

unfoldable pub clear_trade_history : Action ConcurrentMatchingEngine ℕ
clear_trade_history = submit clear_trade_history_command

-- `shutdown` before it joins the worker.
unfoldable pub close_queue : ConcurrentMatchingEngine → ConcurrentMatchingEngine
close_queue s = record s { command_queue = close s.command_queue }

unfoldable pub is_shutdown : ConcurrentMatchingEngine → Bool
is_shutdown s = s.command_queue.is_closed

-- `execute_command` and `execute_void_command`: the value, or the exception that was caught.
abbrev execute_command :
    {A : Type 0} → (Result A → Reply) → Result A × MatchingEngine → Reply × MatchingEngine
execute_command reply (r, e) = (reply r, e)

module _ (F : LongDouble) where
  unfoldable pub process_command : Command → MatchingEngine → Reply × MatchingEngine
  process_command (place_limit_buy_command price_ticks quantity) e =
      execute_command order_id_reply (Place.place_limit_buy price_ticks quantity e)
  process_command (place_limit_sell_command price_ticks quantity) e =
      execute_command order_id_reply (Place.place_limit_sell price_ticks quantity e)
  process_command (execute_market_buy_command quantity) e =
      execute_command execution_reply (Market.execute_market_buy F quantity e)
  process_command (execute_market_sell_command quantity) e =
      execute_command execution_reply (Market.execute_market_sell F quantity e)
  process_command (cancel_order_command order_id) e =
      execute_command bool_reply (Cancel.cancel_order order_id e)
  process_command (modify_order_command order_id new_price_ticks new_quantity) e =
      execute_command bool_reply (Modify.modify_order order_id new_price_ticks new_quantity e)
  process_command active_orders_command e =
      execute_command orders_reply (ok (Defs.active_limit_orders e), e)
  process_command trade_history_command e =
      execute_command trades_reply (ok (Defs.trade_history e), e)
  process_command clear_trade_history_command e =
      execute_command void_reply (ok tt, Defs.clear_trade_history e)

  -- A command that the worker has taken.
  unfoldable pub process_taken :
      ℕ × Command
      → BlockingQueue (ℕ × Command)
      → ConcurrentMatchingEngine
      → ConcurrentMatchingEngine
  process_taken (promise, command) q s =
      let (reply, e) = process_command command s.engine in
      record s { engine = e; command_queue = q; replies = push_back s.replies (promise, reply) }

  -- One round of `worker_loop`; `none` while it waits, and after it has returned.
  unfoldable pub worker_round : ConcurrentMatchingEngine → Option ConcurrentMatchingEngine
  worker_round s = if s.worker_finished then none else elim (pop s.command_queue) [
    | none ↦ none
    | some r ↦ elim r.0 [
      | none ↦ some (record s { command_queue = r.1; worker_finished = true })
      | some taken ↦ some (process_taken taken r.1 s)
    ]
  ]

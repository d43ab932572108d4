-- ===== src/Lib.antt =====
-- CMarket: the order book, the order manager and the matching engine.
--
-- The program is a simulated exchange. A `MatchingEngine` takes limit and market orders, matches
-- limit orders against each other by price and time, records trades, and keeps an aggregated
-- `OrderBook` in step with the orders that rest. Paths are from the root of the repository.
--
-- Parts and files:
-- - Prelude: integers (Prelude/Int), lists over native numbers (Prelude/Lists), tests
--   (Prelude/Tests), exceptions and state (Prelude/Throws), comparators (Prelude/Order). A method
--   that may throw is an `Action S A = S → Result A × S`: the state it leaves behind comes with
--   what it returns or throws, so that a `catch` block sees what the code before it did. The
--   `Error`s are the standard exception classes.
-- - Execution, Validation, IdGenerator: include/execution.hpp, include/limit_order.hpp,
--   include/validation.hpp, include/order_id_generator.hpp.
-- - TradeStore: include/trade_store.hpp; TradeStore/Rollback is about its checkpoints.
-- - OrderBook: include/order_book.hpp and src/order_book.cpp. OrderBook/Levels has the edits of one
--   side, a sorted vector of levels; Levels/Sorted reads a side as a map from prices to
--   quantities, Levels/Adjust and Levels/Canonical are about the edits as updates of that map.
--   OrderBook/Normalize has the snapshots, OrderBook/Book the class; its children are about its
--   invariant, its queries and its depths. OrderBook/Text has the conversions between prices and
--   texts, which are lists of bytes; its children are about decimal digits, the round trip and the
--   numbers that are read. OrderBook/Averages has the queries in floating point.
-- - SortedSet: `std::set` with a comparator, as the order manager uses it.
-- - OrderManager: include/order_manager.hpp and src/order_manager.cpp. Defs, Lookup and Removal
--   have the operations: a vector of orders, an index from identifiers to positions, and a
--   priority set for each side. Invariant says when these agree; Add, Cancel, Best and Restore
--   are about the operations.
-- - MatchingEngine: include/matching_engine.hpp and src/matching_engine.cpp. Defs has the state
--   and the helpers, Matching the match loop and the rollback of matches, which
--   `place_limit_order` and `modify_order` repeat in the source and share here, Place, Modify
--   and Cancel the operations. Matching/Trade, Round and Ends are about one trade, one round and the
--   loop, Matching/Undo and Synced about what the rounds keep, Place/Crossing, Handler, Atomic and
--   Valid about the rollbacks and the result of `place_limit_order`. Invariant ties the book to the
--   resting orders, Priority and Cancel/Refines are about the search for a match and about
--   cancellation.
-- - MatchingEngine/Market: `execute_market_order`, which matches the active orders or, where there
--   are none, takes the levels of the book. Its children are about the figures of the result
--   (Tally), the first level and order (Front), one trade and the two loops (Trades, Levels,
--   Orders), and the whole call (Executes).
-- - LongDouble: the type `long double` and its arithmetic, an argument of what computes with it.
-- - ConcurrentMatchingEngine: include/engine_command.hpp, include/concurrent_matching_engine.hpp and
--   src/concurrent_matching_engine.cpp. Schedule has the sequences of calls and rounds, Order and
--   Shutdown are about the order in which commands are served and about the end of the worker.
-- - RiskManagedExecution: include/risk_managed_execution.hpp, which joins the engine, the positions
--   and the limits; Within and Analytics are about its two calls.
-- - BlockingQueue: include/blocking_queue.hpp; BlockingQueue/Fifo is about sequences of calls.
-- - RiskLimits: include/risk_limits.hpp; RiskLimits/Agreement compares its two tests.
-- - Position: include/position.hpp; Position/Products is about its arithmetic, Position/Pnl,
--   Increase, Reduce and Sum about trades. Int64 has the overflow and the conversions to 64 bits.
-- - PositionManager: include/position_manager.hpp and include/position_execution_handler.hpp, with
--   Entries, Trades and Executions about the map, the trades and the executions.
-- - RiskValidator: include/risk_validator.hpp.
-- - OrderFlowImbalance: include/order_flow_imbalance.hpp, over SymbolMap, a hash map from symbols.
--   Window, History, Remembers and Exact are about the window of its events.
-- - WebSocketMarketState: include/websocket_market_state.hpp and include/websocket_subscription.hpp;
--   Subscribed is about both.
-- - ReconnectBackoff: include/reconnect_backoff.hpp. HeartbeatState: include/heartbeat_state.hpp,
--   with Events about sequences of its calls.
-- - Tests: concrete values of each part, and the theorems at them.
--
-- Numbers: a 64-bit signed number is an integer, and each statement says where it needs the bounds
-- INT64_MIN and INT64_MAX; the book and the engine test before they add or subtract, and an overflow
-- of a position, which does not test, is `undefined_behaviour`. Counters of 64 bits wrap.
-- A vector is a list and an index outside it is `undefined_behaviour`; the hash map from
-- identifiers to positions is a function to an option.
--
-- Fuel: the match loop takes one round for each active order and one more, since a round that does
-- not end the loop takes its resting order out; `match_fuel` is that number. The loops of a market
-- order have one round more (`level_fuel`, `order_fuel`). Running out is the error `out_of_fuel`.
--
-- Not modelled: failure to allocate, the locks of the book, the analytics but for the imbalance of
-- order flow, and the network clients.
pub mod Prelude
pub mod Execution
pub mod Validation
pub mod IdGenerator
pub mod TradeStore
pub mod OrderBook
pub mod SortedSet
pub mod OrderManager
pub mod MatchingEngine
pub mod BlockingQueue
pub mod RiskLimits
pub mod RiskManagedExecution
pub mod Int64
pub mod LongDouble
pub mod SymbolMap
pub mod WebSocketMarketState
pub mod OrderFlowImbalance
pub mod ConcurrentMatchingEngine
pub mod ReconnectBackoff
pub mod HeartbeatState
pub mod Position
pub mod PositionManager
pub mod RiskValidator
pub mod Tests

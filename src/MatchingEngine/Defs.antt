-- ===== src/MatchingEngine/Defs.antt =====
-- The state of the class `MatchingEngine` and its small helpers (src/matching_engine.cpp). The
-- book that the class holds by reference is part of the state: nobody else writes to it during a
-- call.
use cmarket.Prelude.{
  ℕ, Bool, false, Option, none, some, List, if◌then◌else◌, ◌-ℤ◌, neg, leb_ℤ, min_ℤ, ℤ, Action, pure,
  ◌>>◌, modify,
}
use cmarket.Execution.{OrderSide, buy, sell, Trade, LimitOrder}
use cmarket.IdGenerator.{OrderIdGenerator}
use cmarket.TradeStore.{TradeStore, empty_store, record_trade, clear}
use cmarket.OrderBook.Book.{OrderBook, adjust_bid, adjust_ask, best_bid, best_ask}
use cmarket.OrderManager.Defs.{OrderManager, empty_manager}
use cmarket.OrderManager.Lookup.{best_buy_order, best_sell_order, write_order}

pub record MatchingEngine : Type 0 where
  pub order_book : OrderBook
  pub order_id_generator : OrderIdGenerator
  pub next_sequence_number : ℕ
  pub order_manager : OrderManager
  pub trade_store : TradeStore

-- The constructor: an engine on a given book.
unfoldable pub make : OrderBook → MatchingEngine
make order_book = record {
  order_book = order_book;
  order_id_generator = record { next_order_id = 1 };
  next_sequence_number = 1;
  order_manager = empty_manager;
  trade_store = empty_store;
}

-- Calls of the members' methods.
module _ {A : Type 0} where
  abbrev pub on_book : Action OrderBook A → Action MatchingEngine A
  on_book call e = let (r, b) = call e.order_book in (r, record e { order_book = b })

  abbrev pub on_orders : Action OrderManager A → Action MatchingEngine A
  on_orders call e = let (r, m) = call e.order_manager in (r, record e { order_manager = m })

  abbrev pub on_trades : Action TradeStore A → Action MatchingEngine A
  on_trades call e = let (r, t) = call e.trade_store in (r, record e { trade_store = t })

  abbrev pub on_ids : Action OrderIdGenerator A → Action MatchingEngine A
  on_ids call e = let (r, g) = call e.order_id_generator in (r, record e { order_id_generator = g })

unfoldable pub adjust_order_book : OrderSide → ℤ → ℤ → Action MatchingEngine (Unit {0})
adjust_order_book buy price_ticks quantity_delta = on_book (adjust_bid price_ticks quantity_delta)
adjust_order_book sell price_ticks quantity_delta = on_book (adjust_ask price_ticks quantity_delta)

unfoldable pub crosses_order_book : OrderSide → ℤ → MatchingEngine → Bool
crosses_order_book buy price_ticks e = elim (best_ask e.order_book) [
  | none ↦ false
  | some level ↦ leb_ℤ level.price_ticks price_ticks
]
crosses_order_book sell price_ticks e = elim (best_bid e.order_book) [
  | none ↦ false
  | some level ↦ leb_ℤ price_ticks level.price_ticks
]

-- The best order of the other side.
unfoldable pub best_opposite : OrderSide → OrderManager → Option LimitOrder
best_opposite buy m = best_sell_order m
best_opposite sell m = best_buy_order m

unfoldable pub prices_cross : OrderSide → ℤ → ℤ → Bool
prices_cross buy incoming resting = leb_ℤ resting incoming
prices_cross sell incoming resting = leb_ℤ incoming resting

unfoldable pub find_best_match : LimitOrder → MatchingEngine → Option ℕ
find_best_match incoming e = elim (best_opposite incoming.side e.order_manager) [
  | none ↦ none
  | some best ↦
      if prices_cross incoming.side incoming.price_ticks best.price_ticks
      then some best.order_id
      else none
]

-- The identifiers of the two parties, the buyer's first.
unfoldable pub parties : LimitOrder → LimitOrder → ℕ × ℕ
parties incoming resting = elim incoming.side [
  | buy ↦ (incoming.order_id, resting.order_id)
  | sell ↦ (resting.order_id, incoming.order_id)
]

-- Writes the resting order back to where the reference points, and returns the incoming one.
unfoldable pub execute_limit_trade : LimitOrder → LimitOrder → Action MatchingEngine LimitOrder
execute_limit_trade incoming resting =
    let executed = min_ℤ incoming.remaining_quantity resting.remaining_quantity in
    let (buy_order_id, sell_order_id) = parties incoming resting in
    let resting' : LimitOrder = record resting {
      remaining_quantity = resting.remaining_quantity -ℤ executed;
    } in
    let incoming' : LimitOrder = record incoming {
      remaining_quantity = incoming.remaining_quantity -ℤ executed;
    } in
    do
      on_trades (
          record_trade incoming.side resting.price_ticks executed (some buy_order_id)
            (some sell_order_id))
      adjust_order_book resting.side resting.price_ticks (neg executed)
      modify
          (λ e. record e { order_manager = write_order resting.order_id resting' e.order_manager })
      pure incoming'

unfoldable pub active_limit_orders : MatchingEngine → List LimitOrder
active_limit_orders e = e.order_manager.orders

unfoldable pub trade_history : MatchingEngine → List Trade
trade_history e = e.trade_store.trades

unfoldable pub clear_trade_history : MatchingEngine → MatchingEngine
clear_trade_history e = record e { trade_store = clear e.trade_store }

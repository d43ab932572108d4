-- ===== src/MatchingEngine/Market.antt =====
-- `execute_market_order` (src/matching_engine.cpp). Where there are active orders it matches them,
-- else it takes the levels of the book.
pub mod Tally
pub mod Front
pub mod Levels
pub mod Trades
pub mod Orders
pub mod Executes
use cmarket.Prelude.{
  ℕ, zero, suc, Bool, true, false, not, Option, none, some, List, [], ◌∷◌, if◌then◌else◌, length,
  push_back, ◌+ℤ◌, ◌-ℤ◌, neg, ltb_ℤ, leb_ℤ, min_ℤ, ℤ, Action, pure, lift, ◌>>=◌, ◌>>◌, modify, when,
  on_throw, pos, ok, err, logic_error, out_of_fuel,
}
use cmarket.LongDouble.{LongDouble}
use cmarket.Execution.{OrderSide, buy, sell, Trade, ExecutionResult, LimitOrder, is_filled}
use cmarket.Validation.{validate_market_order}
use cmarket.TradeStore.{Checkpoint, checkpoint, record_trade, rollback}
use cmarket.OrderBook.Levels.{PriceLevel}
use cmarket.OrderBook.Book.{OrderBook, update_bid, update_ask}
use cmarket.OrderManager.Lookup.{find_order, write_order}
use cmarket.OrderManager.Removal.{Removal, cancel_order_into}
use cmarket.MatchingEngine.Defs.{
  MatchingEngine, on_orders, on_trades, on_book, adjust_order_book, best_opposite,
}
use cmarket.MatchingEngine.Matching.{OrderMutation, undo_mutations_in_book}
use cmarket.MatchingEngine.Place.{is_empty}

-- The levels that an order takes from.
unfoldable pub opposite_levels : OrderSide → OrderBook → List PriceLevel
opposite_levels buy b = b.asks
opposite_levels sell b = b.bids

unfoldable pub update_opposite : OrderSide → ℤ → ℤ → Action OrderBook (Unit {0})
update_opposite buy price_ticks quantity = update_ask price_ticks quantity
update_opposite sell price_ticks quantity = update_bid price_ticks quantity

-- The identifiers of the buyer and the seller, of which a market order has none.
unfoldable pub market_parties : OrderSide → ℕ → Option ℕ × Option ℕ
market_parties buy resting_order_id = (none, some resting_order_id)
market_parties sell resting_order_id = (some resting_order_id, none)

-- A round takes out a level, or an order, or is the last but one.
unfoldable pub level_fuel : OrderSide → MatchingEngine → ℕ
level_fuel side e = suc (suc (length (opposite_levels side e.order_book)))

unfoldable pub order_fuel : MatchingEngine → ℕ
order_fuel e = suc (suc (length e.order_manager.orders))

module _ (F : LongDouble) where
  -- The variables that both loops work on; the last mutation stands first.
  pub record Market : Type 0 where
    pub engine : MatchingEngine
    pub result : ExecutionResult
    pub weighted_price_total : F.Carrier
    pub mutations : List OrderMutation

  abbrev pub in_market : {A : Type 0} → Action MatchingEngine A → Action Market A
  in_market call s = let (r, e) = call s.engine in (r, record s { engine = e })

  -- What both loops do with a recorded trade.
  unfoldable pub add_trade : Trade → ℤ → ℤ → Market → Market
  add_trade trade price_ticks executed s = record s {
    result = record s.result {
      executed_quantity = s.result.executed_quantity +ℤ executed;
      remaining_quantity = s.result.remaining_quantity -ℤ executed;
      trades = push_back s.result.trades trade;
    };
    weighted_price_total =
        F.plus s.weighted_price_total (F.times (F.of_int64 price_ticks) (F.of_int64 executed));
  }

  unfoldable pub take_level : PriceLevel → Action Market (Unit {0})
  take_level best_level s =
      let executed_at_level = min_ℤ s.result.remaining_quantity best_level.quantity in
      (do
        recorded_trade ← in_market (
            on_trades
              (record_trade s.result.side best_level.price_ticks executed_at_level none none))
        modify (add_trade recorded_trade best_level.price_ticks executed_at_level)
        in_market (
            on_book (
              update_opposite s.result.side best_level.price_ticks
                (best_level.quantity -ℤ executed_at_level))))
        s

  -- One round of the loop over the levels; false where its test fails or it breaks.
  unfoldable pub level_round : Action Market Bool
  level_round s =
      if leb_ℤ s.result.remaining_quantity (pos 0)
      then (ok false, s)
      else elim (opposite_levels s.result.side s.engine.order_book) [
        | [] ↦ (ok false, s)
        | best_level ∷ levels ↦ (do take_level best_level; pure true) s
      ]

  -- `mutations.push_back`.
  unfoldable pub note_match : LimitOrder → ℤ → Market → Market
  note_match resting executed s = record s {
    mutations =
        (record {
          order_id = resting.order_id;
          side = resting.side;
          price_ticks = resting.price_ticks;
          executed_quantity = executed;
          original_remaining_quantity = resting.remaining_quantity;
          removal = none;
        })
        ∷ s.mutations;
  }

  -- `mutation.removed = true`, with the removal that the cancellation filled in.
  unfoldable pub note_taken : Removal → Market → Market
  note_taken r s = elim s.mutations [
    | [] ↦ s
    | mutation ∷ rest ↦ record s { mutations = record mutation { removal = some r } ∷ rest }
  ]

  unfoldable pub take_filled : ℕ → Action Market (Unit {0})
  take_filled order_id = do
    removed ← in_market (on_orders (cancel_order_into order_id))
    removal ← lift (elim removed [ none ↦ err logic_error | some r ↦ ok r ])
    modify (note_taken removal)

  unfoldable pub take_order : LimitOrder → Action Market (Unit {0})
  take_order resting s =
      let executed_quantity = min_ℤ s.result.remaining_quantity resting.remaining_quantity in
      let (buy_order_id, sell_order_id) = market_parties s.result.side resting.order_id in
      let resting' : LimitOrder = record resting {
        remaining_quantity = resting.remaining_quantity -ℤ executed_quantity;
      } in
      (do
        modify (note_match resting executed_quantity)
        recorded_trade ← in_market (
            on_trades (
              record_trade s.result.side resting.price_ticks executed_quantity buy_order_id
                sell_order_id))
        modify (add_trade recorded_trade resting.price_ticks executed_quantity)
        in_market (adjust_order_book resting.side resting.price_ticks (neg executed_quantity))
        in_market (
            modify (λ e. record e {
              order_manager = write_order resting.order_id resting' e.order_manager;
            }))
        when (is_filled resting') (take_filled resting.order_id))
        s

  -- One round of the loop over the orders.
  unfoldable pub order_round : Action Market Bool
  order_round s =
      if leb_ℤ s.result.remaining_quantity (pos 0)
      then (ok false, s)
      else elim (best_opposite s.result.side s.engine.order_manager) [
        | none ↦ (ok false, s)
        | some best_match ↦ elim (find_order s.engine.order_manager best_match.order_id) [
          | none ↦ (err logic_error, s)
          | some resting ↦ (do take_order resting; pure true) s
        ]
      ]

  -- Both loops, on fuel.
  unfoldable pub repeat : Action Market Bool → ℕ → Action Market (Unit {0})
  repeat round zero s = (err out_of_fuel, s)
  repeat round (suc fuel) s =
      let (r, s') = round s in
      elim r [ err e ↦ (err e, s') | ok true ↦ repeat round fuel s' | ok false ↦ (ok tt, s') ]

  -- The loop over the levels, and its handler.
  unfoldable pub take_levels : Action Market (Unit {0})
  take_levels s =
      on_throw (repeat level_round (level_fuel s.result.side s.engine))
        (do
          modify (λ t. record t { engine = record t.engine { order_book = s.engine.order_book } })
          in_market (on_trades (rollback (checkpoint s.engine.trade_store))))
        s

  -- The loop over the orders, and its handler.
  unfoldable pub take_orders : Action Market (Unit {0})
  take_orders s =
      on_throw (repeat order_round (order_fuel s.engine))
        (λ t.
          (do
            in_market (undo_mutations_in_book t.mutations)
            in_market (on_trades (rollback (checkpoint s.engine.trade_store))))
            t)
        s

  -- The result with the average price.
  unfoldable pub with_average : Market → ExecutionResult
  with_average s =
      if ltb_ℤ (pos 0) s.result.executed_quantity
      then record s.result {
        average_price_ticks = some (
            F.truncate
              (F.divided_by s.weighted_price_total (F.of_int64 s.result.executed_quantity)));
      }
      else s.result

  -- The state before the loops.
  unfoldable pub market_start : OrderSide → ℤ → MatchingEngine → Market
  market_start side quantity e = record {
    engine = e;
    result = record {
      side = side;
      requested_quantity = quantity;
      executed_quantity = pos 0;
      remaining_quantity = quantity;
      average_price_ticks = none;
      trades = [];
    };
    weighted_price_total = F.of_int64 (pos 0);
    mutations = [];
  }

  unfoldable pub take_either : Bool → Action Market (Unit {0})
  take_either uses_active_orders = if uses_active_orders then take_orders else take_levels

  unfoldable pub execute_market_order : OrderSide → ℤ → Action MatchingEngine ExecutionResult
  execute_market_order side quantity e = elim (validate_market_order quantity) [
    | err x ↦ (err x, e)
    | ok _ ↦
        let uses_active_orders = not (is_empty e.order_manager.orders) in
        let (r, s) = take_either uses_active_orders (market_start side quantity e) in
        elim r [ err x ↦ (err x, s.engine) | ok _ ↦ (ok (with_average s), s.engine) ]
  ]

  unfoldable pub execute_market_buy : ℤ → Action MatchingEngine ExecutionResult
  execute_market_buy = execute_market_order buy

  unfoldable pub execute_market_sell : ℤ → Action MatchingEngine ExecutionResult
  execute_market_sell = execute_market_order sell

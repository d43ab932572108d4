-- ===== src/MatchingEngine/Place.antt =====
-- `place_limit_order` (src/matching_engine.cpp).
pub mod Crossing
pub mod Back
pub mod Handler
pub mod Atomic
pub mod Valid
use cmarket.Prelude.{
  ℕ, suc, ◌%◌, Bool, true, false, Option, none, some, List, [], ◌∷◌, if◌then◌else◌, u64_mod, neg, ℤ,
  Action, pure, gets, lift, ◌>>=◌, ◌>>◌, modify, when, on_throw, ok, err, logic_error,
}
use cmarket.Execution.{OrderSide, buy, sell, LimitOrder, is_filled}
use cmarket.Validation.{validate_limit_order}
use cmarket.IdGenerator.{OrderIdGenerator}
use cmarket.IdGenerator
use cmarket.TradeStore.{Checkpoint, checkpoint, rollback}
use cmarket.OrderBook.Book.{OrderBook, replace_normalized_snapshot}
use cmarket.OrderManager.Defs.{add_order, cancel_order}
use cmarket.MatchingEngine.Defs.{
  MatchingEngine, on_orders, on_trades, on_ids, adjust_order_book, crosses_order_book,
}
use cmarket.MatchingEngine.Matching.{Matching, in_engine, match_loop, match_fuel, undo_mutations}

-- The variables of the outer `try` block.
pub record Placing : Type 0 where
  pub engine : MatchingEngine
  pub order_book_backup : Option OrderBook
  pub non_crossing_book_adjusted : Bool

abbrev while_placing : {A : Type 0} → Action MatchingEngine A → Action Placing A
while_placing call s = let (r, e) = call s.engine in (r, record s { engine = e })

-- A cancellation that has to find the order.
unfoldable pub cancel_or_throw : ℕ → Action MatchingEngine (Unit {0})
cancel_or_throw order_id = do
  removed ← on_orders (cancel_order order_id)
  lift (if removed then ok tt else err logic_error)

-- The inner `try` block, after the loop: what is left of the order rests in the book.
unfoldable pub rest_incoming : Action Matching (Unit {0})
rest_incoming s =
    let order = s.incoming in
    if is_filled order
    then (ok tt, s)
    else (do
      in_engine (on_orders (add_order order))
      modify (λ s. record s { incoming_added = true })
      in_engine (adjust_order_book order.side order.price_ticks order.remaining_quantity))
        s

-- The inner handler.
unfoldable pub undo_crossing : Checkpoint → Action Matching (Unit {0})
undo_crossing trades s =
    (do
      when s.incoming_added (in_engine (cancel_or_throw s.incoming.order_id))
      in_engine (undo_mutations s.mutations)
      in_engine (on_trades (rollback trades)))
      s

-- The crossing case: both `try` block and handler.
unfoldable pub place_crossing : LimitOrder → Action MatchingEngine ℕ
place_crossing incoming e =
    let start : Matching = record {
      engine = e;
      incoming = incoming;
      mutations = [];
      incoming_added = false;
    } in
    let (r, s) =
      on_throw (do match_loop (match_fuel e); rest_incoming; pure incoming.order_id)
        (undo_crossing (checkpoint e.trade_store)) start in
    (r, s.engine)

-- The other case.
unfoldable pub place_resting : LimitOrder → Action Placing ℕ
place_resting incoming = do
  while_placing (adjust_order_book incoming.side incoming.price_ticks incoming.remaining_quantity)
  modify (λ s. record s { non_crossing_book_adjusted = true })
  while_placing (on_orders (add_order incoming))
  pure incoming.order_id

-- `next_sequence_number_++`.
unfoldable pub take_sequence_number : Action MatchingEngine ℕ
take_sequence_number e = (
  ok e.next_sequence_number,
  record e { next_sequence_number = suc e.next_sequence_number % u64_mod },
)

-- Where the order crosses, the book is saved first, if it was not.
unfoldable pub place_as : Bool → LimitOrder → Action Placing ℕ
place_as false incoming = place_resting incoming
place_as true incoming = do
  modify (λ s. record s {
    order_book_backup = elim s.order_book_backup [
      | none ↦ some s.engine.order_book
      | some book ↦ some book
    ];
  })
  while_placing (place_crossing incoming)

-- The body of the outer `try` block.
unfoldable pub place_body : OrderSide → ℤ → ℤ → Bool → Action Placing ℕ
place_body side price_ticks quantity first_local_order = do
  when first_local_order (
      while_placing
        (modify (λ e. record e { order_book = replace_normalized_snapshot [] [] e.order_book })))
  order_id ← while_placing (on_ids IdGenerator.next)
  sequence_number ← while_placing take_sequence_number
  let incoming : LimitOrder = record {
    order_id = order_id;
    side = side;
    price_ticks = price_ticks;
    original_quantity = quantity;
    remaining_quantity = quantity;
    sequence_number = sequence_number;
  }
  crosses ← gets (λ s. crosses_order_book side price_ticks s.engine)
  place_as crosses incoming

-- The outer handler.
unfoldable pub undo_place : OrderIdGenerator → ℕ → OrderSide → ℤ → ℤ → Action Placing (Unit {0})
undo_place ids sequence_number side price_ticks quantity s =
    let e : MatchingEngine = record s.engine {
      order_id_generator = ids;
      next_sequence_number = sequence_number;
    } in
    let restored : Placing = record s { engine = e } in
    elim s.order_book_backup [
      | some book ↦ (ok tt, record s { engine = record e { order_book = book } })
      | none ↦
          when s.non_crossing_book_adjusted
            (while_placing (adjust_order_book side price_ticks (neg quantity))) restored
    ]

unfoldable pub is_empty : {A : Type 0} → List A → Bool
is_empty [] = true
is_empty (x ∷ xs) = false

unfoldable pub place_limit_order : OrderSide → ℤ → ℤ → Action MatchingEngine ℕ
unfolding is_empty
place_limit_order side price_ticks quantity e =
    let first_local_order = is_empty e.order_manager.orders in
    let start : Placing = record {
      engine = e;
      order_book_backup = if first_local_order then some e.order_book else none;
      non_crossing_book_adjusted = false;
    } in
    let (r, s) =
      on_throw (place_body side price_ticks quantity first_local_order)
        (undo_place e.order_id_generator e.next_sequence_number side price_ticks quantity) start in
    elim (validate_limit_order price_ticks quantity) [ err x ↦ (err x, e) | ok _ ↦ (r, s.engine) ]

unfoldable pub place_limit_buy : ℤ → ℤ → Action MatchingEngine ℕ
place_limit_buy = place_limit_order buy

unfoldable pub place_limit_sell : ℤ → ℤ → Action MatchingEngine ℕ
place_limit_sell = place_limit_order sell

-- ===== src/MatchingEngine/Cancel/Release.antt =====
-- How an adjustment of the book by the matching engine (`adjust_order_book`,
-- src/matching_engine.cpp) changes the quantities of the book.
use cmarket.Prelude.{
  ◌≡◌, refl, Bool, ◌&&◌, List, arith, if◌then◌else◌, ◌+ℤ◌, ◌≤ℤ◌, eqb_ℤ, int64_max, int64_min, ℤ,
  Result, pos, ok, err, invalid_argument, overflow_error, logic_error, runtime_error, out_of_range,
  undefined_behaviour, out_of_fuel,
}
use cmarket.Prelude.Order.{IsStrictOrder}
use cmarket.Execution.{OrderSide, buy, sell}
use cmarket.OrderBook.Levels.{PriceLevel, bid_before, ask_before}
use cmarket.OrderBook.Levels.Sorted.{
  quantity_at, bid_before-IsStrictOrder, ask_before-IsStrictOrder,
}
use cmarket.OrderBook.Levels.Adjust.{IsUpdate, Adjusts, adjust_levels-Adjusts}
use cmarket.OrderBook.Book.{OrderBook, adjust_bid, adjust_ask, set_bids, set_asks}
use cmarket.OrderBook.Book.Invariant.{IsBook}
use cmarket.OrderManager.Cancel.Sides.{same_side}
use cmarket.MatchingEngine.Defs.{MatchingEngine, adjust_order_book}
use cmarket.MatchingEngine.Invariant.{side_levels}

-- An adjustment whose sum is in range succeeds.
module _ (before : ℤ → ℤ → Bool) (order : IsStrictOrder before) (xs : List PriceLevel) (p d : ℤ)
    (low : pos 0 ≤ℤ quantity_at xs p +ℤ d) (high : quantity_at xs p +ℤ d ≤ℤ int64_max) where
  outcome :
      (r : Result (List PriceLevel))
      → Adjusts before order xs p d r
      → (ys : List PriceLevel) × (r ≡ ok ys) × IsUpdate before order xs p (quantity_at xs p +ℤ d) ys
  outcome (ok ys) a = (ys, refl, a.0)
  outcome (err invalid_argument) a = absurd (omega (arith, a, low))
  outcome (err overflow_error) a = absurd (omega (arith, a, high))
  outcome (err logic_error) a = absurd a
  outcome (err runtime_error) a = absurd a
  outcome (err out_of_range) a = absurd a
  outcome (err undefined_behaviour) a = absurd a
  outcome (err out_of_fuel) a = absurd a

-- The book with the quantity `q` at a price of one side.
pub record IsBookUpdate (s : OrderSide) (p q : ℤ) (b b' : OrderBook) : Type 0 where
  pub well_formed : IsBook b'
  pub map_eq :
      (t : OrderSide) (r : ℤ)
      → quantity_at (side_levels t b') r
        ≡ (if same_side s t && eqb_ℤ p r then q else quantity_at (side_levels t b) r)

-- A book whose one side is updated.
pub bids_update :
    (b : OrderBook) (p q : ℤ) (ys : List PriceLevel)
    → IsBook b
    → IsUpdate bid_before bid_before-IsStrictOrder b.bids p q ys
    → IsBookUpdate buy p q b (record b { bids = ys })
unfolding same_side
bids_update b p q ys h u = record {
  well_formed = record { bids_sorted = u.sorted; asks_sorted = h.asks_sorted };
  map_eq = by_side;
}
  where
    by_side :
        (t : OrderSide) (r : ℤ)
        → quantity_at (side_levels t (record b { bids = ys })) r
          ≡ (if same_side buy t && eqb_ℤ p r then q else quantity_at (side_levels t b) r)
    by_side buy r = u.map_eq r
    by_side sell r = refl

pub asks_update :
    (b : OrderBook) (p q : ℤ) (ys : List PriceLevel)
    → IsBook b
    → IsUpdate ask_before ask_before-IsStrictOrder b.asks p q ys
    → IsBookUpdate sell p q b (record b { asks = ys })
unfolding same_side
asks_update b p q ys h u = record {
  well_formed = record { bids_sorted = h.bids_sorted; asks_sorted = u.sorted };
  map_eq = by_side;
}
  where
    by_side :
        (t : OrderSide) (r : ℤ)
        → quantity_at (side_levels t (record b { asks = ys })) r
          ≡ (if same_side sell t && eqb_ℤ p r then q else quantity_at (side_levels t b) r)
    by_side buy r = refl
    by_side sell r = u.map_eq r

pub adjust_order_book_lem :
    (s : OrderSide) (p d : ℤ) (e : MatchingEngine)
    → IsBook e.order_book
    → pos 0 ≤ℤ p
    → int64_min ≤ℤ d
    → d ≤ℤ int64_max
    → pos 0 ≤ℤ quantity_at (side_levels s e.order_book) p +ℤ d
    → quantity_at (side_levels s e.order_book) p +ℤ d ≤ℤ int64_max
    → (b' : OrderBook) × (adjust_order_book s p d e ≡ (ok tt, record e { order_book = b' }))
      × IsBookUpdate s p (quantity_at (side_levels s e.order_book) p +ℤ d) e.order_book b'
unfolding adjust_order_book adjust_bid adjust_ask set_bids set_asks
adjust_order_book_lem buy p d e h priced low high sum_low sum_high =
    let (ys, done, u) =
      outcome bid_before bid_before-IsStrictOrder e.order_book.bids p d sum_low sum_high _ (
        adjust_levels-Adjusts bid_before bid_before-IsStrictOrder e.order_book.bids p d
          h.bids_sorted priced low high) in
    (record e.order_book { bids = ys }, rw done refl, bids_update e.order_book p _ ys h u)
adjust_order_book_lem sell p d e h priced low high sum_low sum_high =
    let (ys, done, u) =
      outcome ask_before ask_before-IsStrictOrder e.order_book.asks p d sum_low sum_high _ (
        adjust_levels-Adjusts ask_before ask_before-IsStrictOrder e.order_book.asks p d
          h.asks_sorted priced low high) in
    (record e.order_book { asks = ys }, rw done refl, asks_update e.order_book p _ ys h u)

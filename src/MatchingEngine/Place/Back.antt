-- ===== src/MatchingEngine/Place/Back.antt =====
-- The adjustment of the book that a limit order makes, and the one that takes it back
-- (`place_limit_order` and `modify_order`, src/matching_engine.cpp).
use cmarket.Prelude.{
  ◌≡◌, subst, inl, inr, arith, ◌+ℤ◌, neg, ◌≤ℤ◌, ◌<ℤ◌, int64_max, int64_min, ℤ, pos, ok,
}
use cmarket.Execution.{OrderSide, buy, sell}
use cmarket.OrderBook.Levels.{bid_before, ask_before, adjust_levels}
use cmarket.OrderBook.Levels.Sorted.{bid_before-IsStrictOrder, ask_before-IsStrictOrder}
use cmarket.OrderBook.Levels.Canonical.{adjust_levels-undo}
use cmarket.OrderBook.Book.{OrderBook, adjust_bid, adjust_ask, set_bids, set_asks}
use cmarket.OrderBook.Book.Invariant.{IsBook}
use cmarket.MatchingEngine.Defs.{MatchingEngine, adjust_order_book}
use cmarket.MatchingEngine.Matching.Trade.{Result-cases}
use cmarket.OrderBook.Levels.Sorted.{quantity_at}
use cmarket.OrderBook.Levels.Adjust.{Adjusts, adjust_levels-Adjusts}
use cmarket.MatchingEngine.Invariant.{side_levels}
use cmarket.MatchingEngine.Cancel.Release.{IsBookUpdate, bids_update, asks_update}

adjusted_bids :
    (e : MatchingEngine) (b : OrderBook) (p d : ℤ)
    → adjust_order_book buy p d e ≡ (ok tt, record e { order_book = b })
    → (adjust_levels bid_before e.order_book.bids p d ≡ ok b.bids) × (b.asks ≡ e.order_book.asks)
unfolding adjust_order_book adjust_bid set_bids
adjusted_bids e b p d h = elim (Result-cases (adjust_levels bid_before e.order_book.bids p d)) [
  | inl (ys, k) ↦ ground (arith, h, k)
  | inr (x, k) ↦ absurd (ground (arith, h, k))
]

adjusted_asks :
    (e : MatchingEngine) (b : OrderBook) (p d : ℤ)
    → adjust_order_book sell p d e ≡ (ok tt, record e { order_book = b })
    → (adjust_levels ask_before e.order_book.asks p d ≡ ok b.asks) × (b.bids ≡ e.order_book.bids)
unfolding adjust_order_book adjust_ask set_asks
adjusted_asks e b p d h = elim (Result-cases (adjust_levels ask_before e.order_book.asks p d)) [
  | inl (ys, k) ↦ ground (arith, h, k)
  | inr (x, k) ↦ absurd (ground (arith, h, k))
]

-- The opposite adjustment gives back the very book.
pub adjust_order_book-undo :
    (s : OrderSide) (p d : ℤ) (e f : MatchingEngine) (b : OrderBook)
    → IsBook e.order_book
    → pos 0 ≤ℤ p
    → int64_min <ℤ d
    → d ≤ℤ int64_max
    → adjust_order_book s p d e ≡ (ok tt, record e { order_book = b })
    → f.order_book ≡ b
    → adjust_order_book s p (neg d) f ≡ (ok tt, record f { order_book = e.order_book })
unfolding adjust_order_book adjust_bid adjust_ask set_bids set_asks
adjust_order_book-undo buy p d e f b h priced low high done same =
    let (levels, others) = adjusted_bids e b p d done in
    let back =
      adjust_levels-undo bid_before bid_before-IsStrictOrder e.order_book.bids b.bids p d
        h.bids_sorted priced low high levels in
    ground (arith, same, back, others)
adjust_order_book-undo sell p d e f b h priced low high done same =
    let (levels, others) = adjusted_asks e b p d done in
    let back =
      adjust_levels-undo ask_before ask_before-IsStrictOrder e.order_book.asks b.asks p d
        h.asks_sorted priced low high levels in
    ground (arith, same, back, others)

-- An adjustment that succeeded has added the delta at one price of one side.
pub adjust_order_book-IsBookUpdate :
    (s : OrderSide) (p d : ℤ) (e : MatchingEngine) (b : OrderBook)
    → IsBook e.order_book
    → pos 0 ≤ℤ p
    → int64_min ≤ℤ d
    → d ≤ℤ int64_max
    → adjust_order_book s p d e ≡ (ok tt, record e { order_book = b })
    → IsBookUpdate s p (quantity_at (side_levels s e.order_book) p +ℤ d) e.order_book b
adjust_order_book-IsBookUpdate buy p d e b h priced low high done =
    let (levels, others) = adjusted_bids e b p d done in
    let a = subst (Adjusts bid_before bid_before-IsStrictOrder e.order_book.bids p d) levels (
      adjust_levels-Adjusts bid_before bid_before-IsStrictOrder e.order_book.bids p d h.bids_sorted
        priced low high) in
    let eq : record e.order_book { bids = b.bids } ≡ b = ground (arith, others) in
    subst (IsBookUpdate buy p (quantity_at e.order_book.bids p +ℤ d) e.order_book) eq
      (bids_update e.order_book p _ b.bids h a.0)
adjust_order_book-IsBookUpdate sell p d e b h priced low high done =
    let (levels, others) = adjusted_asks e b p d done in
    let a = subst (Adjusts ask_before ask_before-IsStrictOrder e.order_book.asks p d) levels (
      adjust_levels-Adjusts ask_before ask_before-IsStrictOrder e.order_book.asks p d h.asks_sorted
        priced low high) in
    let eq : record e.order_book { asks = b.asks } ≡ b = ground (arith, others) in
    subst (IsBookUpdate sell p (quantity_at e.order_book.asks p +ℤ d) e.order_book) eq
      (asks_update e.order_book p _ b.asks h a.0)

-- An adjustment reads and changes nothing but the book.
pub adjust_order_book-frame :
    (s : OrderSide) (p d : ℤ) (e f : MatchingEngine) (b : OrderBook)
    → adjust_order_book s p d e ≡ (ok tt, record e { order_book = b })
    → f.order_book ≡ e.order_book
    → adjust_order_book s p d f ≡ (ok tt, record f { order_book = b })
unfolding adjust_order_book adjust_bid adjust_ask set_bids set_asks
adjust_order_book-frame buy p d e f b done same =
    let (levels, others) = adjusted_bids e b p d done in ground (arith, same, levels, others)
adjust_order_book-frame sell p d e f b done same =
    let (levels, others) = adjusted_asks e b p d done in ground (arith, same, levels, others)

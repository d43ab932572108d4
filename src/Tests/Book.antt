-- ===== src/Tests/Book.antt =====
-- Concrete sides and books (src/order_book.cpp), and the theorems at them.
use cmarket.Prelude.{
  ◌+◌, ◌≡◌, refl, some, List, [], ◌∷◌, arith, ◌+ℤ◌, ◌-ℤ◌, neg, ◌≤ℤ◌, int64_max, ℤ, pos, negsuc, ok,
}
use cmarket.OrderBook.Levels.{
  PriceLevel, bid_before, ask_before, adjust_levels, update_levels, lower_bound, level_at,
  validate_adjustment_price, adjust_existing,
}
use cmarket.OrderBook.Levels.Sorted.{IsSide, bid_before-IsStrictOrder, ask_before-IsStrictOrder}
use cmarket.OrderBook.Levels.Adjust.{Adjusts, Updates, adjust_levels-Adjusts, update_levels-Updates}
use cmarket.OrderBook.Levels.Canonical.{adjust_levels-undo}
use cmarket.OrderBook.Normalize.{normalize}
use cmarket.OrderBook.Normalize.Totals.{Aggregates, normalize-Aggregates}
use cmarket.OrderBook.Book.{
  OrderBook, best_bid, best_ask, front, spread_ticks, mid_price_ticks, bid_depth, ask_depth,
  total_depth,
}
use cmarket.OrderBook.Book.Invariant.{IsBook, add_bid, edit, Keeps, edit-Keeps}
use cmarket.OrderBook.Book.Queries.{IsBest, best_bid-IsBest, mid_price-between}
use cmarket.OrderBook.Book.Depth.{saturate, depth_sum, depth-saturates}

abbrev pub level : ℤ → ℤ → PriceLevel
level p q = record { price_ticks = p; quantity = q }

abbrev bids : List PriceLevel
bids = level (pos 490) (pos 8) ∷ level (pos 480) (pos 5) ∷ []

abbrev pub asks : List PriceLevel
asks = level (pos 500) (pos 20) ∷ []

abbrev book : OrderBook
book = record { bids = bids; asks = asks }

bids-IsSide : IsSide bid_before bid_before-IsStrictOrder bids
unfolding bid_before
bids-IsSide = ground arith

pub asks-IsSide : IsSide ask_before ask_before-IsStrictOrder asks
asks-IsSide = ground arith

book-IsBook : IsBook book
book-IsBook = record { bids_sorted = bids-IsSide; asks_sorted = asks-IsSide }

adjust_levels-Adjusts_example :
    Adjusts bid_before bid_before-IsStrictOrder bids
      (pos 480)
      (negsuc 4)
      (adjust_levels bid_before bids (pos 480) (negsuc 4))
adjust_levels-Adjusts_example =
    adjust_levels-Adjusts bid_before bid_before-IsStrictOrder bids (pos 480) (negsuc 4) bids-IsSide
      (omega arith) (omega arith) (omega arith)

update_levels-Updates_example :
    Updates bid_before bid_before-IsStrictOrder bids
      (pos 485)
      (pos 3)
      (update_levels bid_before bids (pos 485) (pos 3))
update_levels-Updates_example =
    update_levels-Updates bid_before bid_before-IsStrictOrder bids (pos 485) (pos 3) bids-IsSide
      (omega arith)

abbrev fewer_bids : List PriceLevel
fewer_bids = level (pos 490) (pos 8) ∷ level (pos 480) (pos 3) ∷ []

bids_adjusted : adjust_levels bid_before bids (pos 480) (negsuc 1) ≡ ok fewer_bids
unfolding adjust_levels validate_adjustment_price lower_bound level_at adjust_existing bid_before
    ◌-ℤ◌ neg
bids_adjusted = refl

adjust_levels-undo_example :
    adjust_levels bid_before fewer_bids (pos 480) (neg (negsuc 1)) ≡ ok bids
adjust_levels-undo_example =
    adjust_levels-undo bid_before bid_before-IsStrictOrder bids fewer_bids (pos 480) (negsuc 1)
      bids-IsSide (omega arith) (omega arith) (omega arith) bids_adjusted

edit-Keeps_example : Keeps book (edit (add_bid (pos 485) (pos 4)) book)
edit-Keeps_example =
    edit-Keeps (add_bid (pos 485) (pos 4)) book (omega arith, omega arith) book-IsBook

best_bid-IsBest_example :
    IsBest bid_before book.bids (best_bid book) × IsBest ask_before book.asks (best_ask book)
best_bid-IsBest_example = best_bid-IsBest book book-IsBook

normalize-Aggregates_example :
    Aggregates bid_before bid_before-IsStrictOrder [] bids (normalize bid_before bids)
normalize-Aggregates_example =
    normalize-Aggregates bid_before bid_before-IsStrictOrder bids (omega arith)

depth-saturates_example :
    (bid_depth book ≡ saturate (depth_sum book.bids))
    × (ask_depth book ≡ saturate (depth_sum book.asks))
    × (total_depth book ≡ saturate (depth_sum book.bids + depth_sum book.asks))
depth-saturates_example = depth-saturates book (ground arith) (ground arith)

best_bid_is : best_bid book ≡ some (level (pos 490) (pos 8))
unfolding best_bid front
best_bid_is = refl

best_ask_is : best_ask book ≡ some (level (pos 500) (pos 20))
unfolding best_ask front
best_ask_is = refl

fits : pos 500 -ℤ pos 490 ≤ℤ int64_max
unfolding ◌-ℤ◌
fits = omega arith

mid_price-between_example :
    (mid : ℤ) × (spread_ticks book ≡ ok (some (pos 500 -ℤ pos 490)))
    × (mid_price_ticks book ≡ ok (some mid))
    × (pos 0 ≤ℤ pos 500 -ℤ pos 490)
    × (pos 490 ≤ℤ mid)
    × (mid ≤ℤ pos 500)
    × (mid +ℤ mid ≤ℤ pos 490 +ℤ pos 500)
    × (pos 490 +ℤ pos 500 ≤ℤ mid +ℤ mid +ℤ pos 1)
mid_price-between_example =
    mid_price-between book (level (pos 490) (pos 8)) (level (pos 500) (pos 20)) best_bid_is
      best_ask_is (omega arith) (omega arith) (omega arith) fits

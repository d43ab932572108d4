-- ===== src/OrderBook/Book.antt =====
-- The class `OrderBook` (src/order_book.cpp, include/order_book.hpp). Each method takes the lock
-- for the whole of its body, so a method is one step on the two sides.
pub mod Queries
pub mod Invariant
pub mod Depth
use cmarket.Prelude.{
  Bool, true, false, Option, none, some, List, [], ◌∷◌, if◌then◌else◌, ◌+ℤ◌, ◌-ℤ◌, ◌/ℤ◌, ltb_ℤ,
  int64_max, ℤ, and_then, Action, lift, ◌>>=◌, ◌>>◌, modify, Result, pos, ok, err, overflow_error,
}
use cmarket.Int64.{checked}
use cmarket.OrderBook.Levels.{PriceLevel, bid_before, ask_before, update_levels, adjust_levels}
use cmarket.OrderBook.Normalize.{normalize}

pub record OrderBook : Type 0 where
  pub bids : List PriceLevel
  pub asks : List PriceLevel

unfoldable pub empty_book : OrderBook
empty_book = record { bids = []; asks = [] }

-- Both sides are normalised before either is stored.
unfoldable pub replace_snapshot : List PriceLevel → List PriceLevel → Action OrderBook (Unit {0})
replace_snapshot bids asks = do
  normalized_bids ← lift (normalize bid_before bids)
  normalized_asks ← lift (normalize ask_before asks)
  modify (λ b. record { bids = normalized_bids; asks = normalized_asks })

unfoldable pub replace_normalized_snapshot :
    List PriceLevel → List PriceLevel → OrderBook → OrderBook
replace_normalized_snapshot bids asks b = record { bids = bids; asks = asks }

unfoldable pub set_bids : OrderBook → Result (List PriceLevel) → Result (Unit {0}) × OrderBook
set_bids b (ok levels) = (ok tt, record b { bids = levels })
set_bids b (err e) = (err e, b)

unfoldable pub set_asks : OrderBook → Result (List PriceLevel) → Result (Unit {0}) × OrderBook
set_asks b (ok levels) = (ok tt, record b { asks = levels })
set_asks b (err e) = (err e, b)

unfoldable pub update_bid : ℤ → ℤ → Action OrderBook (Unit {0})
unfolding set_bids
update_bid price_ticks quantity b =
    set_bids b (update_levels bid_before b.bids price_ticks quantity)

unfoldable pub update_ask : ℤ → ℤ → Action OrderBook (Unit {0})
unfolding set_asks
update_ask price_ticks quantity b =
    set_asks b (update_levels ask_before b.asks price_ticks quantity)

unfoldable pub adjust_bid : ℤ → ℤ → Action OrderBook (Unit {0})
unfolding set_bids
adjust_bid price_ticks quantity_delta b =
    set_bids b (adjust_levels bid_before b.bids price_ticks quantity_delta)

unfoldable pub adjust_ask : ℤ → ℤ → Action OrderBook (Unit {0})
unfolding set_asks
adjust_ask price_ticks quantity_delta b =
    set_asks b (adjust_levels ask_before b.asks price_ticks quantity_delta)

unfoldable pub front : List PriceLevel → Option PriceLevel
front [] = none
front (level ∷ levels) = some level

unfoldable pub best_bid : OrderBook → Option PriceLevel
unfolding front
best_bid b = front b.bids

unfoldable pub best_ask : OrderBook → Option PriceLevel
unfolding front
best_ask b = front b.asks

-- Both sides' best levels, where both have one.
unfoldable pub both_best : OrderBook → Option (PriceLevel × PriceLevel)
unfolding best_bid best_ask
both_best b = elim (best_bid b) [
  | none ↦ none
  | some bid ↦ elim (best_ask b) [ none ↦ none | some ask ↦ some (bid, ask) ]
]

-- The subtraction of 64-bit numbers is not tested.
unfoldable pub spread_ticks : OrderBook → Result (Option ℤ)
unfolding both_best
spread_ticks b = elim (both_best b) [
  | none ↦ ok none
  | some (bid, ask) ↦
      and_then (checked (ask.price_ticks -ℤ bid.price_ticks)) λ spread. ok (some spread)
]

unfoldable pub mid_price_ticks : OrderBook → Result (Option ℤ)
unfolding both_best
mid_price_ticks b = elim (both_best b) [
  | none ↦ ok none
  | some (bid, ask) ↦
      and_then (checked (ask.price_ticks -ℤ bid.price_ticks))
        λ spread. and_then (checked (bid.price_ticks +ℤ spread /ℤ pos 2)) λ mid. ok (some mid)
]

unfoldable pub empty : OrderBook → Bool
empty b = elim b.bids [ [] ↦ elim b.asks [ [] ↦ true | _ ∷ _ ↦ false ] | _ ∷ _ ↦ false ]

unfoldable pub depth_from : ℤ → List PriceLevel → Result ℤ
depth_from depth [] = ok depth
depth_from depth (level ∷ levels) =
    let rest = depth_from (depth +ℤ level.quantity) levels in
    if ltb_ℤ (int64_max -ℤ depth) level.quantity then err overflow_error else rest

unfoldable pub calculate_depth : List PriceLevel → Result ℤ
calculate_depth levels = depth_from (pos 0) levels

-- `catch (const std::overflow_error&) { return max; }`.
abbrev pub or_max : Result ℤ → ℤ
or_max (ok depth) = depth
or_max (err _) = int64_max

unfoldable pub bid_depth : OrderBook → ℤ
bid_depth b = or_max (calculate_depth b.bids)

unfoldable pub ask_depth : OrderBook → ℤ
ask_depth b = or_max (calculate_depth b.asks)

unfoldable pub total_depth : OrderBook → ℤ
total_depth b = or_max (
    and_then (calculate_depth b.bids) λ bid_total. and_then (calculate_depth b.asks) λ ask_total.
      if ltb_ℤ (int64_max -ℤ ask_total) bid_total
      then ok int64_max
      else ok (bid_total +ℤ ask_total))

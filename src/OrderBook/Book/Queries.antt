-- ===== src/OrderBook/Book/Queries.antt =====
-- What the best levels, the spread and the mid price say of the book (src/order_book.cpp).
use cmarket.Prelude.{
  ◌+◌, ◌*◌, ◌≤◌, ◌≡◌, refl, ◌≢◌, inl, inr, Bool, false, Option, none, some, List, [], ◌∷◌, arith,
  Bool-cases, pos_part, neg_part, ◌+ℤ◌, ◌-ℤ◌, ◌/ℤ◌, ◌≤ℤ◌, ◌<ℤ◌, eqb_ℤ, int64_max, int64_min,
  +ℤ_parts, -ℤ_parts, eqb_ℤ_iff, ℤ, pos, ok,
}
use cmarket.Int64.{checked}
use cmarket.Prelude.Order.{IsStrictOrder}
use cmarket.OrderBook.Levels.{PriceLevel, bid_before, ask_before}
use cmarket.OrderBook.Levels.Sorted.{
  IsSide, IsAhead, quantity_at, quantity_at_ahead, IsAhead-trans, bid_before-IsStrictOrder,
  ask_before-IsStrictOrder,
}
use cmarket.OrderBook.Book.{
  OrderBook, front, best_bid, best_ask, both_best, spread_ticks, mid_price_ticks,
}
use cmarket.OrderBook.Book.Invariant.{IsBook}

-- A level that stands in the side and that no price with a quantity comes before.
abbrev pub IsBest : (ℤ → ℤ → Bool) → List PriceLevel → Option PriceLevel → Type 0
IsBest before levels none = (r : ℤ) → quantity_at levels r ≡ pos 0
IsBest before levels (some l) =
    (quantity_at levels l.price_ticks ≡ l.quantity)
    × (pos 0 <ℤ l.quantity)
    × ((r : ℤ) → quantity_at levels r ≢ pos 0 → before r l.price_ticks ≡ false)

module _ (before : ℤ → ℤ → Bool) (order : IsStrictOrder before) where
  not_before_ahead :
      (x : PriceLevel) (xs : List PriceLevel) (r : ℤ)
      → IsAhead before order x.price_ticks xs
      → quantity_at xs r ≢ pos 0
      → before r x.price_ticks ≡ false
  not_before_ahead x xs r h ne = elim (Bool-cases (before r x.price_ticks)) [
    | inl e ↦ absurd (
        ne
          (quantity_at_ahead before order r xs (IsAhead-trans before order r x.price_ticks xs e h)))
    | inr e ↦ e
  ]

  not_before_cons :
      (x : PriceLevel) (xs : List PriceLevel) (r : ℤ)
      → IsAhead before order x.price_ticks xs
      → quantity_at (x ∷ xs) r ≢ pos 0
      → before r x.price_ticks ≡ false
  unfolding quantity_at
  not_before_cons x xs r h ne = elim (Bool-cases (eqb_ℤ x.price_ticks r)) [
    | inl e ↦
        let e' : x.price_ticks ≡ r = (eqb_ℤ_iff x.price_ticks r).0 e in
        rw (← e') (order.irrefl x.price_ticks)
    | inr e ↦ not_before_ahead x xs r h (λ z. ne (ground (arith, z, e)))
  ]

  front-IsBest : (xs : List PriceLevel) → IsSide before order xs → IsBest before xs (front xs)
  unfolding front quantity_at
  front-IsBest [] h = λ r. refl
  front-IsBest (x ∷ xs) h = (ground arith, h.0.1, λ r ne. not_before_cons x xs r h.1 ne)

-- In a well-formed book `best_bid` is the level of the highest price that has a quantity, and
-- `best_ask` that of the lowest; they are empty exactly where no price has one.
pub best_bid-IsBest :
    (b : OrderBook)
    → IsBook b
    → IsBest bid_before b.bids (best_bid b) × IsBest ask_before b.asks (best_ask b)
unfolding best_bid best_ask
best_bid-IsBest b h = (
  front-IsBest bid_before bid_before-IsStrictOrder b.bids h.bids_sorted,
  front-IsBest ask_before ask_before-IsStrictOrder b.asks h.asks_sorted,
)

half_parts :
    (a : ℤ)
    → pos 0 ≤ℤ a
    → (neg_part (a /ℤ pos 2) ≡ 0)
      × (2 * pos_part (a /ℤ pos 2) ≤ pos_part a)
      × (pos_part a ≤ 2 * pos_part (a /ℤ pos 2) + 1)
      × (neg_part a ≡ 0)
unfolding ◌/ℤ◌
half_parts a h = ground arith

in_range : (n : ℤ) → int64_min ≤ℤ n → n ≤ℤ int64_max → checked n ≡ ok n
unfolding checked
in_range n low high = ground arith

ruleset half_laws = (arith, +ℤ_parts, -ℤ_parts)

-- Where the best bid does not exceed the best ask, both are 64-bit numbers, and so is their
-- difference, which the source does not test: the spread is that difference and not negative, the
-- mid price lies between the two, and it is the bid plus half the spread, rounded down.
pub mid_price-between :
    (b : OrderBook) (bid ask : PriceLevel)
    → best_bid b ≡ some bid
    → best_ask b ≡ some ask
    → bid.price_ticks ≤ℤ ask.price_ticks
    → int64_min ≤ℤ bid.price_ticks
    → ask.price_ticks ≤ℤ int64_max
    → ask.price_ticks -ℤ bid.price_ticks ≤ℤ int64_max
    → (mid : ℤ) × (spread_ticks b ≡ ok (some (ask.price_ticks -ℤ bid.price_ticks)))
      × (mid_price_ticks b ≡ ok (some mid))
      × (pos 0 ≤ℤ ask.price_ticks -ℤ bid.price_ticks)
      × (bid.price_ticks ≤ℤ mid)
      × (mid ≤ℤ ask.price_ticks)
      × (mid +ℤ mid ≤ℤ bid.price_ticks +ℤ ask.price_ticks)
      × (bid.price_ticks +ℤ ask.price_ticks ≤ℤ mid +ℤ mid +ℤ pos 1)
unfolding spread_ticks mid_price_ticks both_best
mid_price-between b bid ask hb ha le low high fits =
    let spread = ask.price_ticks -ℤ bid.price_ticks in
    let half = spread /ℤ pos 2 in
    let positive : pos 0 ≤ℤ spread = omega (half_laws) in
    let above : bid.price_ticks ≤ℤ bid.price_ticks +ℤ half = omega (half_laws, half_parts spread) in
    let below : bid.price_ticks +ℤ half ≤ℤ ask.price_ticks = omega (half_laws, half_parts spread) in
    let spread_ok = in_range spread (omega (arith, positive)) fits in
    let mid_ok =
      in_range (bid.price_ticks +ℤ half) (omega (arith, low, above)) (omega (arith, below, high)) in
    (
      bid.price_ticks +ℤ half,
      ground (arith, hb, ha, spread_ok),
      ground (arith, hb, ha, spread_ok, mid_ok),
      positive,
      above,
      below,
      omega (half_laws, half_parts spread),
      omega (half_laws, half_parts spread),
    )

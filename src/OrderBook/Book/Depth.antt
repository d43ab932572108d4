-- ===== src/OrderBook/Book/Depth.antt =====
-- The depths of the book saturate (src/order_book.cpp, `calculate_depth` and its callers).
use cmarket.Prelude.{
  ℕ, ◌+◌, ◌≡◌, refl, ap, ◌⊎◌, inl, inr, List, [], ◌∷◌, arith, if◌then◌else◌, pos_part, ◌+ℤ◌, ◌-ℤ◌,
  ◌≤ℤ◌, ◌<ℤ◌, ltb_ℤ, leb_ℤ, int64_max, +ℤ_parts, -ℤ_parts, eq_of_parts, ℤ, and_then, Result, pos,
  ok, err, invalid_argument, overflow_error, logic_error, runtime_error, out_of_range,
  undefined_behaviour, out_of_fuel,
}
use cmarket.Prelude.Order.{All}
use cmarket.OrderBook.Levels.{PriceLevel}
use cmarket.OrderBook.Book.{
  or_max, OrderBook, depth_from, calculate_depth, bid_depth, ask_depth, total_depth,
}

-- The sum without bounds.
pub depth_sum : List PriceLevel → ℕ
depth_sum [] = 0
depth_sum (x ∷ xs) = pos_part x.quantity + depth_sum xs

-- A quantity as it stands in a book: not negative, and 64 bits wide.
abbrev pub IsQuantity : PriceLevel → Type 0
IsQuantity x = (pos 0 ≤ℤ x.quantity) × (x.quantity ≤ℤ int64_max)

abbrev Sums : ℕ → Result ℤ → Type 0
Sums n (ok d) = (d ≡ pos n) × (pos n ≤ℤ int64_max)
Sums n (err overflow_error) = int64_max <ℤ pos n
Sums n (err _) = ⊥

depth_from-Sums :
    (levels : List PriceLevel) (d : ℤ) (n t : ℕ)
    → d ≡ pos n
    → n + depth_sum levels ≡ t
    → d ≤ℤ int64_max
    → All IsQuantity levels
    → Sums t (depth_from d levels)
unfolding depth_from depth_sum
depth_from-Sums [] d n t e f h hs = ground arith
depth_from-Sums (x ∷ xs) d n t e f h hs = ground (
  arith,
  -ℤ_parts int64_max d,
  +ℤ_parts d x.quantity,
  eq_of_parts (d +ℤ x.quantity) (pos (n + pos_part x.quantity)),
  depth_from-Sums xs (d +ℤ x.quantity) (n + pos_part x.quantity) t,
)

calculate_depth-Sums :
    (levels : List PriceLevel)
    → All IsQuantity levels
    → Sums (depth_sum levels) (calculate_depth levels)
unfolding calculate_depth
calculate_depth-Sums levels hs =
    depth_from-Sums levels (pos 0) 0 (depth_sum levels) refl (omega arith) (omega arith) hs

-- A number cut at INT64_MAX.
pub saturate : ℕ → ℤ
saturate n = if leb_ℤ (pos n) int64_max then pos n else int64_max

-- No other exception is thrown.
Sums-cases :
    (n : ℕ) (r : Result ℤ)
    → Sums n r
    → ((r ≡ ok (pos n)) × (pos n ≤ℤ int64_max)) ⊎ ((r ≡ err overflow_error) × (int64_max <ℤ pos n))
Sums-cases n (ok d) h = inl (ap ok h.0, h.1)
Sums-cases n (err overflow_error) h = inr (refl, h)
Sums-cases n (err invalid_argument) h = absurd h
Sums-cases n (err logic_error) h = absurd h
Sums-cases n (err runtime_error) h = absurd h
Sums-cases n (err out_of_range) h = absurd h
Sums-cases n (err undefined_behaviour) h = absurd h
Sums-cases n (err out_of_fuel) h = absurd h

or_max-Sums : (n : ℕ) (r : Result ℤ) → Sums n r → or_max r ≡ saturate n
unfolding saturate
or_max-Sums n r h = ground (arith, Sums-cases n r h)

total-Sums :
    (n m : ℕ) (r s : Result ℤ)
    → Sums n r
    → Sums m s
    → or_max (
        and_then r λ bid_total. and_then s λ ask_total.
          if ltb_ℤ (int64_max -ℤ ask_total) bid_total
          then ok int64_max
          else ok (bid_total +ℤ ask_total))
      ≡ saturate (n + m)
unfolding saturate
total-Sums n m r s h k = ground (
  arith,
  Sums-cases n r h,
  Sums-cases m s k,
  -ℤ_parts int64_max (pos m),
  +ℤ_parts (pos n) (pos m),
  eq_of_parts (pos n +ℤ pos m) (pos (n + m)),
)

-- The three depths of a book whose quantities are not negative and 64 bits wide are the sums of
-- its quantities, cut at INT64_MAX, also where the sum of one side or of both overflows.
pub depth-saturates :
    (b : OrderBook)
    → All IsQuantity b.bids
    → All IsQuantity b.asks
    → (bid_depth b ≡ saturate (depth_sum b.bids))
      × (ask_depth b ≡ saturate (depth_sum b.asks))
      × (total_depth b ≡ saturate (depth_sum b.bids + depth_sum b.asks))
unfolding bid_depth ask_depth total_depth
depth-saturates b hb ha = (
  or_max-Sums (depth_sum b.bids) (calculate_depth b.bids) (calculate_depth-Sums b.bids hb),
  or_max-Sums (depth_sum b.asks) (calculate_depth b.asks) (calculate_depth-Sums b.asks ha),
  total-Sums (depth_sum b.bids) (depth_sum b.asks) (calculate_depth b.bids) (calculate_depth b.asks)
      (calculate_depth-Sums b.bids hb) (calculate_depth-Sums b.asks ha),
)

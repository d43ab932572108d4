-- ===== src/MatchingEngine/Market/Front.antt =====
-- The best level of a side, which a market order takes from (src/matching_engine.cpp).
use cmarket.Prelude.{
  ◌≡◌, refl, subst, inl, inr, Bool, List, ◌∷◌, arith, if◌then◌else◌, Bool-cases, ◌≤ℤ◌, ◌<ℤ◌, eqb_ℤ,
  int64_max, ℤ, pos, ok,
}
use cmarket.Prelude.Order.{IsStrictOrder}
use cmarket.Execution.{OrderSide, buy, sell}
use cmarket.OrderBook.Levels.{
  PriceLevel, bid_before, ask_before, lower_bound, level_at, validate_level, update_levels,
  erase_at,
}
use cmarket.OrderBook.Levels.Sorted.{IsSide, bid_before-IsStrictOrder, ask_before-IsStrictOrder}
use cmarket.OrderBook.Book.{OrderBook, update_bid, update_ask, set_bids, set_asks}
use cmarket.OrderBook.Book.Invariant.{IsBook}
use cmarket.MatchingEngine.Market.{opposite_levels, update_opposite}

-- The side whose best level holds `q`, or is gone.
abbrev pub with_front : PriceLevel → ℤ → List PriceLevel → List PriceLevel
with_front x q xs = if eqb_ℤ q (pos 0) then xs else (record x { quantity = q }) ∷ xs

module _ (before : ℤ → ℤ → Bool) (order : IsStrictOrder before) (x : PriceLevel)
    (xs : List PriceLevel) (q : ℤ) (h : IsSide before order (x ∷ xs)) (low : pos 0 ≤ℤ q)
    (high : q ≤ℤ int64_max) where
  update_front : update_levels before (x ∷ xs) x.price_ticks q ≡ ok (with_front x q xs)
  unfolding update_levels lower_bound level_at validate_level erase_at
  update_front = ground (arith, order.irrefl x.price_ticks, h.0, low)

  with_front-IsSide : IsSide before order (with_front x q xs)
  with_front-IsSide = elim (Bool-cases (eqb_ℤ q (pos 0))) [
    | inl e ↦ rw e h.2
    | inr e ↦ rw e ((h.0.0, ground (arith, e, low), high), h.1, h.2)
  ]

pub update_opposite_lem :
    (side : OrderSide) (b : OrderBook) (x : PriceLevel) (xs : List PriceLevel) (q : ℤ)
    → IsBook b
    → opposite_levels side b ≡ x ∷ xs
    → pos 0 ≤ℤ q
    → q ≤ℤ int64_max
    → (b' : OrderBook) × (update_opposite side x.price_ticks q b ≡ (ok tt, b'))
      × IsBook b'
      × (opposite_levels side b' ≡ with_front x q xs)
unfolding update_opposite opposite_levels update_bid update_ask set_bids set_asks
update_opposite_lem buy b x xs q h e low high =
    let side = subst (IsSide ask_before ask_before-IsStrictOrder) e h.asks_sorted in
    (
      record b { asks = with_front x q xs },
      ground (arith, e, update_front ask_before ask_before-IsStrictOrder x xs q side low high),
      record {
        bids_sorted = h.bids_sorted;
        asks_sorted = with_front-IsSide ask_before ask_before-IsStrictOrder x xs q side low high;
      },
      refl,
    )
update_opposite_lem sell b x xs q h e low high =
    let side = subst (IsSide bid_before bid_before-IsStrictOrder) e h.bids_sorted in
    (
      record b { bids = with_front x q xs },
      ground (arith, e, update_front bid_before bid_before-IsStrictOrder x xs q side low high),
      record {
        bids_sorted = with_front-IsSide bid_before bid_before-IsStrictOrder x xs q side low high;
        asks_sorted = h.asks_sorted;
      },
      refl,
    )

pub front-IsLevel :
    (side : OrderSide) (b : OrderBook) (x : PriceLevel) (xs : List PriceLevel)
    → IsBook b
    → opposite_levels side b ≡ x ∷ xs
    → (pos 0 <ℤ x.quantity) × (x.quantity ≤ℤ int64_max)
unfolding opposite_levels
front-IsLevel buy b x xs h e =
    let side = subst (IsSide ask_before ask_before-IsStrictOrder) e h.asks_sorted in
    (side.0.1, side.0.2)
front-IsLevel sell b x xs h e =
    let side = subst (IsSide bid_before bid_before-IsStrictOrder) e h.bids_sorted in
    (side.0.1, side.0.2)

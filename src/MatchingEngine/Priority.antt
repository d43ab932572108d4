-- ===== src/MatchingEngine/Priority.antt =====
-- `find_best_match` (src/matching_engine.cpp) follows price-time priority.
use cmarket.Prelude.{
  ◌↔◌, ◌≤ℤ◌, ℕ, ◌≡◌, refl, inl, inr, true, Option, none, some, arith, Bool-cases, ℤ,
}
use cmarket.Execution.{OrderSide, buy, sell, LimitOrder}
use cmarket.OrderManager.Lookup.{find_order}
use cmarket.OrderManager.Invariant.{IsConsistent}
use cmarket.OrderManager.Best.{HasPriority, IsBestOrder, best-IsBestOrder}
use cmarket.MatchingEngine.Defs.{MatchingEngine, best_opposite, prices_cross, find_best_match}

abbrev pub opposite : OrderSide → OrderSide
opposite buy = sell
opposite sell = buy

-- The price of a resting order satisfies the limit of an incoming one.
abbrev pub IsWithin : OrderSide → ℤ → ℤ → Type 0
IsWithin buy limit price = price ≤ℤ limit
IsWithin sell limit price = limit ≤ℤ price

-- A resting order that the incoming one may trade with.
abbrev pub IsMatch : LimitOrder → LimitOrder → Type 0
IsMatch incoming p =
    (p.side ≡ opposite incoming.side) × IsWithin incoming.side incoming.price_ticks p.price_ticks

-- What the search may answer.
abbrev pub IsBestMatch : MatchingEngine → LimitOrder → Option ℕ → Type 0
IsBestMatch e incoming none =
    (id : ℕ) (p : LimitOrder) → find_order e.order_manager id ≡ some p → ¬ IsMatch incoming p
IsBestMatch e incoming (some best_id) =
    (o : LimitOrder) × (find_order e.order_manager best_id ≡ some o)
    × IsMatch incoming o
    × ((id : ℕ) (p : LimitOrder)
        → find_order e.order_manager id ≡ some p
        → p.side ≡ opposite incoming.side
        → HasPriority (opposite incoming.side) o p)

prices_cross_iff :
    (s : OrderSide) (limit price : ℤ) → (prices_cross s limit price ≡ true) ↔ IsWithin s limit price
unfolding prices_cross
prices_cross_iff buy limit price = ground arith
prices_cross_iff sell limit price = ground arith

-- What crosses behind an order crosses before it too.
prices_cross-HasPriority :
    (s : OrderSide) (price : ℤ) (o p : LimitOrder)
    → HasPriority (opposite s) o p
    → prices_cross s price p.price_ticks ≡ true
    → prices_cross s price o.price_ticks ≡ true
unfolding prices_cross
prices_cross-HasPriority buy price o p h e = ground (arith, h, e)
prices_cross-HasPriority sell price o p h e = ground (arith, h, e)

pub best_opposite-IsBestOrder :
    (s : OrderSide) (e : MatchingEngine)
    → IsConsistent e.order_manager
    → IsBestOrder e.order_manager (opposite s) (best_opposite s e.order_manager)
unfolding best_opposite
best_opposite-IsBestOrder buy e c = (best-IsBestOrder e.order_manager c).1
best_opposite-IsBestOrder sell e c = (best-IsBestOrder e.order_manager c).0

-- Over consistent orders, the resting order that `find_best_match` names is an active order of
-- the other side whose price crosses, and it goes before every other order of that side by
-- price, then by sequence number; and where it names none, no active order of the other side
-- has a price that crosses.
pub find_best_match-IsBestMatch :
    (e : MatchingEngine) (incoming : LimitOrder)
    → IsConsistent e.order_manager
    → IsBestMatch e incoming (find_best_match incoming e)
unfolding find_best_match
find_best_match-IsBestMatch e incoming c =
    by_best (best_opposite incoming.side e.order_manager) refl
      (best_opposite-IsBestOrder incoming.side e c)
  where
    by_best :
        (r : Option LimitOrder)
        → best_opposite incoming.side e.order_manager ≡ r
        → IsBestOrder e.order_manager (opposite incoming.side) r
        → IsBestMatch e incoming (find_best_match incoming e)
    by_best none eq h = rw (eq, find_best_match) λ id p held m. h id p held m.0
    by_best (some o) eq h =
        elim (Bool-cases (prices_cross incoming.side incoming.price_ticks o.price_ticks)) [
          | inl yes_cross ↦
              rw (eq, find_best_match, yes_cross)
                (
                  o,
                  h.0,
                  (
                    h.1,
                    (prices_cross_iff incoming.side incoming.price_ticks o.price_ticks).0 yes_cross,
                  ),
                  λ id p held side_eq. h.2 id p held side_eq,
                )
          | inr no_cross ↦
              rw (eq, find_best_match, no_cross)
                λ id p held m.
                  let crossed =
                    prices_cross-HasPriority incoming.side incoming.price_ticks o p
                      (h.2 id p held m.0)
                      ((prices_cross_iff incoming.side incoming.price_ticks p.price_ticks).1 m.1) in
                  cc (crossed, no_cross)
        ]

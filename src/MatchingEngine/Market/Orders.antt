-- ===== src/MatchingEngine/Market/Orders.antt =====
-- The loop of `execute_market_order` (src/matching_engine.cpp) over the active orders.
use cmarket.Prelude.{
  ◌≡◌, refl, sym, subst, ◌⊎◌, inl, inr, Bool, true, false, none, some, arith, Bool-cases,
  Option-cases, ◌≤ℤ◌, leb_ℤ, int64_max, ℤ, Error, Result, pos, ok, err,
}
use cmarket.LongDouble.{LongDouble}
use cmarket.Execution.{OrderSide}
use cmarket.OrderManager.Lookup.{find_order}
use cmarket.MatchingEngine.Defs.{best_opposite}
use cmarket.MatchingEngine.Matching.Round.{Found, at_index}
use cmarket.OrderManager.Best.{IsBestOrder}
use cmarket.MatchingEngine.Priority.{opposite, best_opposite-IsBestOrder}
use cmarket.MatchingEngine.Market.{Market, order_round, order_fuel, repeat, take_orders}
use cmarket.MatchingEngine.Market.Tally.{RoundOf, LoopOf, repeat-LoopOf}
use cmarket.MatchingEngine.Market.Trades.{IsMatching, as_limit, size, matched}

module _ {F : LongDouble} (side : OrderSide) (q : ℤ) (bounded : q ≤ℤ int64_max) where
  abbrev pub IsMatched : Market F → Type 0
  IsMatched s =
      (s.result.remaining_quantity ≤ℤ pos 0) ⊎ (best_opposite side s.engine.order_manager ≡ none)

  abbrev Never : Error → Market F → Type 0
  Never x s = ⊥

  abbrev MatchesRound : Market F → Result Bool × Market F → Type 0
  MatchesRound s =
      RoundOf (IsMatching side q bounded) IsMatched Never (size side q bounded)
        (size side q bounded s)

  order_round-MatchesRound :
      (s : Market F) → IsMatching side q bounded s → MatchesRound s (order_round F s)
  unfolding order_round
  order_round-MatchesRound s h = elim (Bool-cases (leb_ℤ s.result.remaining_quantity (pos 0))) [
    | inl filled ↦
        let eq : order_round F s ≡ (ok false, s) = ground (arith, filled) in
        subst (MatchesRound s) (sym eq) (h, inl (ground (arith, filled)))
    | inr unfilled ↦ elim (Option-cases (best_opposite side s.engine.order_manager)) [
      | inl alone ↦
          let eq : order_round F s ≡ (ok false, s) =
            ground (arith, unfilled, h.tally.sided, alone) in
          subst (MatchesRound s) (sym eq) (h, inr alone)
      | inr (o, best) ↦
          let found : find_order s.engine.order_manager o.order_id ≡ some o =
            (subst (IsBestOrder s.engine.order_manager (opposite side)) best
              (best_opposite-IsBestOrder side s.engine h.local.orders)).0 in
          let (i, held, here) =
            at_index (as_limit side q bounded s) o o.order_id h.local.orders found in
          let f : Found (as_limit side q bounded s) = record {
            resting = o;
            index = i;
            held = held;
            here = here;
          } in
          let (s', run, h', less) = matched side q bounded s h f (ground (arith, unfilled)) in
          let eq : order_round F s ≡ (ok true, s') =
            ground (arith, unfilled, h.tally.sided, best, found, run) in
          subst (MatchesRound s) (sym eq) (h', less)
    ]
  ]

  -- The loop over the orders never throws, so that its handler never runs.
  abbrev pub MatchesOrders : Result (Unit {0}) × Market F → Type 0
  MatchesOrders (ok _, s) = IsMatching side q bounded s × IsMatched s
  MatchesOrders (err x, s) = ⊥

  module _ (s : Market F) (h : IsMatching side q bounded s) where
    by_loop :
        (r : Result (Unit {0}) × Market F)
        → repeat F (order_round F) (order_fuel s.engine) s ≡ r
        → LoopOf (IsMatching side q bounded) IsMatched Never r
        → MatchesOrders (take_orders F s)
    unfolding take_orders
    by_loop (ok tt, t) k p =
        let eq : take_orders F s ≡ (ok tt, t) = ground (arith, k) in subst MatchesOrders (sym eq) p
    by_loop (err x, t) k p = absurd p

    pub take_orders-MatchesOrders : MatchesOrders (take_orders F s)
    unfolding order_fuel
    take_orders-MatchesOrders = by_loop (repeat F (order_round F) (order_fuel s.engine) s) refl (
        repeat-LoopOf (IsMatching side q bounded) IsMatched Never (size side q bounded)
          (order_round F) order_round-MatchesRound (order_fuel s.engine) s h (ground arith))

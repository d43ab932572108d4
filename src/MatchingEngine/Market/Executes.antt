-- ===== src/MatchingEngine/Market/Executes.antt =====
-- What `execute_market_order` does (src/matching_engine.cpp).
use cmarket.Prelude.{
  ℕ, suc, ◌≡◌, refl, sym, ap, subst, ◌∙◌, ◌≢◌, ◌↔◌, ◌⊎◌, inl, inr, true, false, none, some, List,
  [], ◌∷◌, arith, Bool-cases, get_elem?, ◌+ℤ◌, ◌≤ℤ◌, ◌<ℤ◌, ltb_ℤ, leb_ℤ, int64_max, +ℤ_parts,
  eq_of_parts, eqb_ℤ_iff, ℤ, Result, pos, ok, err, invalid_argument,
}
use cmarket.LongDouble.{LongDouble}
use cmarket.Execution.{OrderSide, buy, sell, ExecutionResult, LimitOrder}
use cmarket.Validation.{validate_market_order, require_positive}
use cmarket.OrderBook.Levels.{PriceLevel}
use cmarket.OrderManager.Cancel.Sides.{same_side_iff}
use cmarket.MatchingEngine.Cancel.Refines.{share_is}
use cmarket.OrderBook.Levels.Sorted.{quantity_at}
use cmarket.OrderBook.Book.{OrderBook}
use cmarket.OrderBook.Book.Invariant.{IsBook}
use cmarket.OrderManager.Lookup.{find_order}
use cmarket.OrderManager.Best.{IsBestOrder}
use cmarket.MatchingEngine.Defs.{MatchingEngine, best_opposite}
use cmarket.MatchingEngine.Priority.{opposite, best_opposite-IsBestOrder}
use cmarket.MatchingEngine.Invariant.{
  side_levels, share, resting_quantity, IsValid, IsLocal, IsLocal-IsValid,
}
use cmarket.MatchingEngine.Place.{is_empty}
use cmarket.MatchingEngine.Market.{
  Market, opposite_levels, market_start, take_levels, take_orders, take_either, with_average,
  execute_market_order,
}
use cmarket.MatchingEngine.Market.Tally.{Tally, total_quantity}
use cmarket.MatchingEngine.Market.Front.{front-IsLevel}
use cmarket.MatchingEngine.Market.Trades.{IsMatching}
use cmarket.MatchingEngine.Market.Levels.{IsTaking, TakesLevels, take_levels-TakesLevels}
use cmarket.MatchingEngine.Market.Orders.{MatchesOrders, take_orders-MatchesOrders}

-- A side without orders has no quantity.
no_orders :
    (t : OrderSide) (p : ℤ) (os : List LimitOrder)
    → ((i : ℕ) (o : LimitOrder) → get_elem? os i ≡ some o → o.side ≢ t)
    → resting_quantity t p os ≡ 0
unfolding resting_quantity
no_orders t p [] h = refl
no_orders t p (o ∷ os) h =
    omega (arith, other_side t p o (h 0 o refl), no_orders t p os (λ i q at_i. h (suc i) q at_i))
  where
    other_side : (t : OrderSide) (p : ℤ) (o : LimitOrder) → o.side ≢ t → share t p o ≡ 0
    other_side t p o ne = ground (arith, share_is o t p, (same_side_iff o.side t).0, ne)

-- A side without quantity has no levels.
no_levels :
    (side : OrderSide) (b : OrderBook) (xs : List PriceLevel)
    → IsBook b
    → opposite_levels side b ≡ xs
    → ((p : ℤ) → quantity_at xs p ≡ pos 0)
    → xs ≡ []
unfolding quantity_at
no_levels side b [] h e empty = refl
no_levels side b (x ∷ xs) h e empty =
    let same = (eqb_ℤ_iff x.price_ticks x.price_ticks).1 refl in
    absurd (ground (arith, (front-IsLevel side b x xs h e).0, empty x.price_ticks, same))

opposite_levels-side_levels :
    (side : OrderSide) (b : OrderBook) → opposite_levels side b ≡ side_levels (opposite side) b
unfolding opposite_levels
opposite_levels-side_levels buy b = refl
opposite_levels-side_levels sell b = refl

-- Where the last order of the other side is gone, so are its levels.
exhausted :
    (side : OrderSide) (e : MatchingEngine)
    → IsLocal e
    → best_opposite side e.order_manager ≡ none
    → opposite_levels side e.order_book ≡ []
unfolding find_order
exhausted side e h alone =
    let absent =
      subst (IsBestOrder e.order_manager (opposite side)) alone
        (best_opposite-IsBestOrder side e h.orders) in
    no_levels side e.order_book (opposite_levels side e.order_book) h.book refl λ p.
      ap (λ xs. quantity_at xs p) (opposite_levels-side_levels side e.order_book)
      ∙ h.synced (opposite side) p
      ∙ ap pos (
          no_orders (opposite side) p e.order_manager.orders
            λ i o here. absent o.order_id o (ground (arith, h.orders.indexed i o here, here)))

-- What a market order that is executed gives: what was asked for is executed or left, and the
-- trades have what was executed.
pub record Fills (side : OrderSide) (q : ℤ) (r : ExecutionResult) : Type 0 where
  pub sided : r.side ≡ side
  pub requested : r.requested_quantity ≡ q
  pub executed : pos 0 ≤ℤ r.executed_quantity
  pub remaining : pos 0 ≤ℤ r.remaining_quantity
  pub sum : r.executed_quantity +ℤ r.remaining_quantity ≡ q
  pub traded : total_quantity r.trades ≡ r.executed_quantity
  pub priced : (r.average_price_ticks ≡ none) ↔ (r.executed_quantity ≡ pos 0)

-- What `execute_market_order` may do.
abbrev pub Executes :
    OrderSide → ℤ → MatchingEngine → Result ExecutionResult × MatchingEngine → Type 0
Executes side q e (ok r, e') =
    Fills side q r
    × IsValid e'
    × ((r.remaining_quantity ≡ pos 0) ⊎ (opposite_levels side e'.order_book ≡ []))
Executes side q e (err x, e') =
    (x ≡ invalid_argument) × (e' ≡ e) × ((q ≤ℤ pos 0) ⊎ (e.order_manager.orders ≡ []))

module _ (F : LongDouble) (side : OrderSide) (q : ℤ) (e : MatchingEngine) (v : IsValid e)
    (bounded : q ≤ℤ int64_max) where
  abbrev start : Market F
  start = market_start F side q e

  start-Tally : pos 0 <ℤ q → Tally side q (market_start F side q e).result
  unfolding market_start total_quantity
  start-Tally positive = record {
    sided = refl;
    requested = refl;
    executed = omega arith;
    remaining = omega (arith, positive);
    sum = eq_of_parts _ _ (omega (arith, +ℤ_parts (pos 0) q));
    traded = refl;
    unset = refl;
  }

  with_average-Fills : (s : Market F) → Tally side q s.result → Fills side q (with_average F s)
  unfolding with_average
  with_average-Fills s h = elim (Bool-cases (ltb_ℤ (pos 0) s.result.executed_quantity)) [
    | inl some_executed ↦ rw some_executed (record {
      sided = h.sided;
      requested = h.requested;
      executed = h.executed;
      remaining = h.remaining;
      sum = h.sum;
      traded = h.traded;
      priced = ((λ absent. cc absent), λ nothing. absurd (ground (arith, some_executed, nothing)));
    })
    | inr none_executed ↦ rw none_executed (record {
      sided = h.sided;
      requested = h.requested;
      executed = h.executed;
      remaining = h.remaining;
      sum = h.sum;
      traded = h.traded;
      priced = ((λ absent. ground (arith, none_executed, h.executed)), λ nothing. h.unset);
    })
  ]

  accepted : pos 0 <ℤ q → validate_market_order q ≡ ok tt
  unfolding validate_market_order require_positive
  accepted positive = ground (arith, positive)

  left_or_nothing :
      (s : Market F)
      → Tally side q s.result
      → s.result.remaining_quantity ≤ℤ pos 0
      → (with_average F s).remaining_quantity ≡ pos 0
  unfolding with_average
  left_or_nothing s h filled = ground (arith, h.remaining, filled)

  same_remaining :
      (s : Market F) → (with_average F s).remaining_quantity ≡ s.result.remaining_quantity
  unfolding with_average
  same_remaining s = ground arith

  is_empty-[] : (os : List LimitOrder) → is_empty os ≡ true → os ≡ []
  unfolding is_empty
  is_empty-[] [] h = refl
  is_empty-[] (o ∷ os) h = cc h

  start-IsLocal : is_empty e.order_manager.orders ≡ false → IsLocal e
  unfolding is_empty
  start-IsLocal some_order = record {
    book = v.book;
    orders = v.orders;
    active = v.active;
    synced = v.synced (λ none_there. cc (some_order, ap is_empty none_there));
  }

  module _ (positive : pos 0 <ℤ q) where
    by_levels :
        e.order_manager.orders ≡ []
        → (r : Result (Unit {0}) × Market F) → take_levels F start ≡ r
        → TakesLevels e side q r
        → Executes side q e (execute_market_order F side q e)
    unfolding execute_market_order take_either is_empty
    by_levels no_order (ok tt, s) k (taking, taken) =
        let eq : execute_market_order F side q e ≡ (ok (with_average F s), s.engine) =
          ground (arith, accepted positive, no_order, k) in
        subst (Executes side q e) (sym eq) (
          with_average-Fills s taking.tally,
          subst IsValid (sym taking.frame) (record {
            book = taking.book;
            orders = v.orders;
            active = v.active;
            synced = λ some_order. absurd (some_order no_order);
          }),
          elim taken [
            | inl filled ↦ inl (left_or_nothing s taking.tally filled)
            | inr none_left ↦ inr none_left
          ],
        )
    by_levels no_order (err x, s) k (refused, same) =
        let eq : execute_market_order F side q e ≡ (err x, s.engine) =
          ground (arith, accepted positive, no_order, k) in
        subst (Executes side q e) (sym eq) (refused, same, inr no_order)

    by_matches :
        is_empty e.order_manager.orders ≡ false
        → (r : Result (Unit {0}) × Market F) → take_orders F start ≡ r
        → MatchesOrders side q bounded r
        → Executes side q e (execute_market_order F side q e)
    unfolding execute_market_order take_either
    by_matches some_order (ok tt, s) k (matching, matched) =
        let eq : execute_market_order F side q e ≡ (ok (with_average F s), s.engine) =
          ground (arith, accepted positive, some_order, k) in
        subst (Executes side q e) (sym eq) (
          with_average-Fills s matching.tally,
          IsLocal-IsValid s.engine matching.local,
          elim matched [
            | inl filled ↦ inl (left_or_nothing s matching.tally filled)
            | inr alone ↦ inr (exhausted side s.engine matching.local alone)
          ],
        )
    by_matches some_order (err x, s) k h = absurd h

    accepted-Executes : Executes side q e (execute_market_order F side q e)
    unfolding market_start
    accepted-Executes = elim (Bool-cases (is_empty e.order_manager.orders)) [
      | inl no_order ↦
          let taking : IsTaking e side q start = record {
            tally = start-Tally positive;
            book = v.book;
            frame = refl;
            grown = λ old before. before;
          } in
          by_levels (is_empty-[] e.order_manager.orders no_order) (take_levels F start) refl
            (take_levels-TakesLevels e side q start refl taking)
      | inr some_order ↦
          let matching : IsMatching side q bounded start = record {
            tally = start-Tally positive;
            local = start-IsLocal some_order;
          } in
          by_matches some_order (take_orders F start) refl
            (take_orders-MatchesOrders side q bounded start matching)
    ]

-- `execute_market_order` on a valid engine, for any 64-bit quantity and whatever `long double` is:
-- it returns, and what was asked for is executed or left, the trades have what was executed, there
-- is an average price exactly if something was executed, the engine is valid again, and something
-- is left only if the other side of the book is empty; or it throws `invalid_argument`, and the
-- whole engine is as it was before, which happens only for a quantity that is not positive or
-- without active orders.
pub execute_market_order-Executes :
    (F : LongDouble) (side : OrderSide) (q : ℤ) (e : MatchingEngine)
    → IsValid e
    → q ≤ℤ int64_max
    → Executes side q e (execute_market_order F side q e)
unfolding execute_market_order validate_market_order require_positive
execute_market_order-Executes F side q e v bounded = elim (Bool-cases (leb_ℤ q (pos 0))) [
  | inl low ↦
      let eq : execute_market_order F side q e ≡ (err invalid_argument, e) = ground (arith, low) in
      subst (Executes side q e) (sym eq) (refl, refl, inl (ground (arith, low)))
  | inr high ↦ accepted-Executes F side q e v bounded (ground (arith, high))
]

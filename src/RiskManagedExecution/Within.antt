-- ===== src/RiskManagedExecution/Within.antt =====
-- Market orders under risk control (include/risk_managed_execution.hpp) stay within the limits.
use cmarket.Prelude.{
  ℕ, ◌≡◌, refl, sym, ap, ap₂, subst, ◌∙◌, ◌⊎◌, inl, inr, Bool, true, false, List, [], ◌∷◌, arith,
  Bool-cases, ◌+ℤ◌, neg, ◌≤ℤ◌, leb_ℤ, int64_max, +ℤ_parts, neg_parts, eq_of_parts, ℤ, Action,
  Result, pos, ok, err, invalid_argument, runtime_error, undefined_behaviour,
}
use cmarket.LongDouble.{LongDouble}
use cmarket.Execution.{OrderSide, buy, sell, Trade, ExecutionResult}
use cmarket.RiskLimits.{RiskLimits, is_position_allowed}
use cmarket.RiskLimits
use cmarket.RiskValidator.{is_trade_allowed}
use cmarket.PositionManager.{PositionManager, apply_execution}
use cmarket.PositionManager.Trades.{held, Trades}
use cmarket.PositionManager.Executions.{
  signed, signed_total, Executed, apply_execution-Executed, IsPartOf, is_trade_allowed-executed,
}
use cmarket.MatchingEngine.Defs.{MatchingEngine}
use cmarket.MatchingEngine.Invariant.{IsValid}
use cmarket.MatchingEngine.Market.Tally.{total_quantity}
use cmarket.MatchingEngine.Market.Executes.{Fills, Executes, execute_market_order-Executes}
use cmarket.MatchingEngine.Market
use cmarket.RiskManagedExecution.{
  AnalyticsHandler, RiskManagedExecution, validate_quantity, apply_analytics, execute_market,
  execute_market_buy, execute_market_sell,
}
use cmarket.RiskManagedExecution.Analytics.{IsSeparate, apply_analytics-frame}

signed-add : (side : OrderSide) (a b : ℤ) → signed side a +ℤ signed side b ≡ signed side (a +ℤ b)
unfolding signed
signed-add buy a b = refl
signed-add sell a b = eq_of_parts _ _ (
    omega
      (arith, neg_parts a, neg_parts b, neg_parts (a +ℤ b), +ℤ_parts a b, +ℤ_parts (neg a) (neg b)))

signed_total-signed :
    (side : OrderSide) (trades : List Trade)
    → signed_total side trades ≡ signed side (total_quantity trades)
unfolding signed_total total_quantity signed
signed_total-signed buy [] = refl
signed_total-signed sell [] = eq_of_parts _ _ (omega (arith, neg_parts (pos 0)))
signed_total-signed side (trade ∷ trades) =
    ap (λ n. signed side trade.quantity +ℤ n) (signed_total-signed side trades)
    ∙ signed-add side trade.quantity (total_quantity trades)

-- What the trades of a market order add up to.
executed_total :
    (side : OrderSide) (q : ℤ) (r : ExecutionResult)
    → Fills side q r
    → signed_total r.side r.trades ≡ signed side r.executed_quantity
executed_total side q r h = signed_total-signed r.side r.trades ∙ ap₂ signed h.sided h.traded

executed_part :
    (side : OrderSide) (q : ℤ) (r : ExecutionResult)
    → Fills side q r
    → IsPartOf (signed side r.executed_quantity) (signed side q)
unfolding signed
executed_part buy q r h = inl (
  h.executed,
  ground (arith, h.sum, h.remaining, +ℤ_parts r.executed_quantity r.remaining_quantity),
)
executed_part sell q r h = inr (
  ground (
    arith,
    h.sum,
    h.remaining,
    neg_parts q,
    neg_parts r.executed_quantity,
    +ℤ_parts r.executed_quantity r.remaining_quantity,
  ),
  ground (arith, h.executed, neg_parts r.executed_quantity),
)

module _ {A : Type 0} (limits : RiskLimits) (symbol : List ℕ) (side : OrderSide) (q : ℤ) where
  -- What a market order under risk control may do.
  abbrev pub Within :
      RiskManagedExecution A → Result ExecutionResult × RiskManagedExecution A → Type 0
  Within s (ok r, s') =
      (is_trade_allowed s.position_manager limits symbol (signed side q) ≡ ok true)
      × Fills side q r
      × IsValid s'.matching_engine
      × Trades symbol (signed side r.executed_quantity) s.position_manager s'.position_manager
      × (is_position_allowed limits (held symbol s'.position_manager) ≡ true)
  Within s (err x, s') =
      (s' ≡ s)
      ⊎ ((is_trade_allowed s.position_manager limits symbol (signed side q) ≡ ok true)
          × IsValid s'.matching_engine
          × ((x ≡ invalid_argument) ⊎ (x ≡ undefined_behaviour)))

  module _ (handler : AnalyticsHandler A) (separate : IsSeparate handler)
      (market : Action MatchingEngine ExecutionResult) (max : ℤ) (bounded : max ≤ℤ int64_max)
      (made : RiskLimits.make max ≡ ok limits) (s : RiskManagedExecution A)
      (before : is_position_allowed limits (held symbol s.position_manager) ≡ true) where
    abbrev out : Result ExecutionResult × RiskManagedExecution A
    out = execute_market limits handler (signed side q) market symbol q s

    by_positions :
        (r : ExecutionResult) (e' : MatchingEngine)
        → validate_quantity q ≡ ok tt
        → is_trade_allowed s.position_manager limits symbol (signed side q) ≡ ok true
        → market s.matching_engine ≡ (ok r, e')
        → Fills side q r
        → IsValid e'
        → (p : Result (Unit {0}) × PositionManager)
        → apply_execution symbol r s.position_manager ≡ p
        → Executed symbol (signed_total r.side r.trades) s.position_manager p
        → Within s out
    unfolding execute_market
    by_positions r e' positive allowed sent fills valid (err x, m') applied h =
        let eq : out ≡ (err x, record s { matching_engine = e'; position_manager = m' }) =
          ground (arith, positive, allowed, sent, applied) in
        subst (Within s) (sym eq) (inr (allowed, valid, h))
    by_positions r e' positive allowed sent fills valid (ok tt, m') applied trades =
        let after : RiskManagedExecution A = record s {
          matching_engine = e';
          position_manager = m';
        } in
        let eq : out ≡ (ok r, apply_analytics handler symbol r after) =
          ground (arith, positive, allowed, sent, applied) in
        let (same_engine, same_positions) = apply_analytics-frame handler symbol r after separate in
        let total = executed_total side q r fills in
        let part =
          subst (λ n. IsPartOf n (signed side q)) (sym total) (executed_part side q r fills) in
        let within =
          is_trade_allowed-executed max limits symbol (signed side q) r s.position_manager m'
            bounded made before allowed part applied in
        subst (Within s) (sym eq) (
          allowed,
          fills,
          subst IsValid (sym same_engine) valid,
          subst (Trades symbol (signed side r.executed_quantity) s.position_manager)
              (sym same_positions)
              (subst (λ n. Trades symbol n s.position_manager m') total trades),
          subst (λ m. is_position_allowed limits (held symbol m) ≡ true) (sym same_positions)
              within,
        )

    by_market :
        validate_quantity q ≡ ok tt
        → is_trade_allowed s.position_manager limits symbol (signed side q) ≡ ok true
        → (r : Result ExecutionResult × MatchingEngine) → market s.matching_engine ≡ r
        → Executes side q s.matching_engine r
        → Within s out
    unfolding execute_market
    by_market positive allowed (ok r, e') sent (fills, valid, _) =
        by_positions r e' positive allowed sent fills valid
          (apply_execution symbol r s.position_manager) refl
          (apply_execution-Executed symbol r s.position_manager)
    by_market positive allowed (err x, e') sent (_, same, _) =
        let eq : out ≡ (err x, record s { matching_engine = e' }) =
          ground (arith, positive, allowed, sent) in
        subst (Within s) (sym eq) (inl (ap (λ e. record s { matching_engine = e }) same))

    by_validator :
        validate_quantity q ≡ ok tt
        → (v : Result Bool) → is_trade_allowed s.position_manager limits symbol (signed side q) ≡ v
        → Executes side q s.matching_engine (market s.matching_engine)
        → Within s out
    unfolding execute_market
    by_validator positive (ok true) allowed h =
        by_market positive allowed (market s.matching_engine) refl h
    by_validator positive (ok false) refused h =
        let eq : out ≡ (err runtime_error, s) = ground (arith, positive, refused) in
        subst (Within s) (sym eq) (inl refl)
    by_validator positive (err x) refused h =
        let eq : out ≡ (err x, s) = ground (arith, positive, refused) in
        subst (Within s) (sym eq) (inl refl)

    execute_market-Within :
        Executes side q s.matching_engine (market s.matching_engine) → Within s out
    unfolding execute_market validate_quantity
    execute_market-Within h = elim (Bool-cases (leb_ℤ q (pos 0))) [
      | inl low ↦
          let eq : out ≡ (err invalid_argument, s) = ground (arith, low) in
          subst (Within s) (sym eq) (inl refl)
      | inr high ↦
          by_validator (ground (arith, high))
            (is_trade_allowed s.position_manager limits symbol (signed side q)) refl h
    ]

-- With limits that the constructor returned for a 64-bit number, on a valid engine and with a
-- position of the symbol that is within the limits, for any quantity of 64 bits and any analytics
-- that leave the engine and the positions alone, whether they return or throw: a market purchase, and a market sale, that returns was allowed by the validator, the result has
-- the figures of a market order, the engine is valid again, the position has changed by just what
-- was executed and no other position has, and it is within the limits again. One that throws has
-- changed nothing at all, or it was allowed, it throws `invalid_argument` or overflows, and the
-- engine is valid again.
pub execute_market-IsWithin :
    {A : Type 0} (F : LongDouble) (limits : RiskLimits) (handler : AnalyticsHandler A) (max : ℤ)
    (symbol : List ℕ) (q : ℤ) (s : RiskManagedExecution A)
    → IsSeparate handler
    → max ≤ℤ int64_max
    → RiskLimits.make max ≡ ok limits
    → IsValid s.matching_engine
    → is_position_allowed limits (held symbol s.position_manager) ≡ true
    → q ≤ℤ int64_max
    → Within limits symbol buy q s (execute_market_buy F limits handler symbol q s)
      × Within limits symbol sell q s (execute_market_sell F limits handler symbol q s)
unfolding execute_market_buy execute_market_sell Market.execute_market_buy
    Market.execute_market_sell signed
execute_market-IsWithin F limits handler max symbol q s separate bounded made valid before small = (
  execute_market-Within limits symbol buy q handler separate (Market.execute_market_buy F q) max
      bounded made s before (execute_market_order-Executes F buy q s.matching_engine valid small),
  execute_market-Within limits symbol sell q handler separate (Market.execute_market_sell F q) max
      bounded made s before (execute_market_order-Executes F sell q s.matching_engine valid small),
)

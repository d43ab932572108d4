-- ===== src/RiskManagedExecution/Analytics.antt =====
-- The analytics do not matter for what is executed (include/risk_managed_execution.hpp).
use cmarket.Prelude.{
  ℕ, ◌≡◌, refl, sym, ap, ap₂, ◌∙◌, inl, inr, Bool, true, false, none, some, List, arith, Bool-cases,
  neg, leb_ℤ, ℤ, Action, Result, pos, ok, err, runtime_error,
}
use cmarket.Execution.{ExecutionResult}
use cmarket.RiskLimits.{RiskLimits}
use cmarket.RiskValidator.{is_trade_allowed}
use cmarket.PositionManager.{PositionManager, apply_execution}
use cmarket.MatchingEngine.Defs.{MatchingEngine}
use cmarket.MatchingEngine.Market
use cmarket.LongDouble.{LongDouble}
use cmarket.RiskManagedExecution.{
  AnalyticsHandler, RiskManagedExecution, validate_quantity, note_analytics, apply_analytics,
  execute_market, execute_market_buy, execute_market_sell,
}

module _ {A B : Type 0} where
  -- The same but for the analytics.
  abbrev pub IsAlike : RiskManagedExecution A → RiskManagedExecution B → Type 0
  IsAlike s t = (s.matching_engine ≡ t.matching_engine) × (s.position_manager ≡ t.position_manager)

  abbrev pub EndsAlike :
      Result ExecutionResult × RiskManagedExecution A
      → Result ExecutionResult × RiskManagedExecution B
      → Type 0
  EndsAlike (r, s) (r', t) = (r ≡ r') × IsAlike s t

module _ {A : Type 0} where
  -- What the handler leaves of a state, whether it returns or throws: the same engine and positions.
  abbrev pub IsSeparate : AnalyticsHandler A → Type 0
  IsSeparate none = Unit {0}
  IsSeparate (some apply) =
      (symbol : List ℕ) (result : ExecutionResult) (s : RiskManagedExecution A)
      → IsAlike (apply symbol result s).1 s

  note_analytics-frame :
      (s : RiskManagedExecution A) (r : Result (Unit {0}) × RiskManagedExecution A)
      → IsAlike r.1 s
      → IsAlike (note_analytics r) s
  unfolding note_analytics
  note_analytics-frame s (ok _, s') h = h
  note_analytics-frame s (err _, s') h = h

  pub apply_analytics-frame :
      (handler : AnalyticsHandler A) (symbol : List ℕ) (result : ExecutionResult)
      (s : RiskManagedExecution A)
      → IsSeparate handler
      → IsAlike (apply_analytics handler symbol result s) s
  unfolding apply_analytics
  apply_analytics-frame none symbol result s h = (refl, refl)
  apply_analytics-frame (some apply) symbol result s h =
      let (same_engine, same_positions) =
        note_analytics-frame s (apply symbol result s) (h symbol result s) in
      (ground (arith, same_engine), ground (arith, same_positions))

module _ (limits : RiskLimits) (trade_quantity : ℤ) (market : Action MatchingEngine ExecutionResult)
    (symbol : List ℕ) (quantity : ℤ) where
  -- The call without analytics, on the engine and the positions.
  abbrev committed :
      MatchingEngine → PositionManager → Result ExecutionResult × (MatchingEngine × PositionManager)
  committed e m = elim (validate_quantity quantity) [
    | err x ↦ (err x, (e, m))
    | ok _ ↦ elim (is_trade_allowed m limits symbol trade_quantity) [
      | err x ↦ (err x, (e, m))
      | ok false ↦ (err runtime_error, (e, m))
      | ok true ↦
          let (r, e') = market e in
          elim r [
            | err x ↦ (err x, (e', m))
            | ok result ↦
                let (p, m') = apply_execution symbol result m in
                elim p [ err x ↦ (err x, (e', m')) | ok _ ↦ (ok result, (e', m')) ]
          ]
    ]
  ]

  module _ {A : Type 0} (handler : AnalyticsHandler A) (separate : IsSeparate handler) where
    abbrev without_analytics :
        Result ExecutionResult × RiskManagedExecution A
        → Result ExecutionResult × (MatchingEngine × PositionManager)
    without_analytics (r, s) = (r, (s.matching_engine, s.position_manager))

    abbrev out : RiskManagedExecution A → Result ExecutionResult × RiskManagedExecution A
    out = execute_market limits handler trade_quantity market symbol quantity

    by_positions :
        (s : RiskManagedExecution A) (r : ExecutionResult) (e' : MatchingEngine)
        → validate_quantity quantity ≡ ok tt
        → is_trade_allowed s.position_manager limits symbol trade_quantity ≡ ok true
        → market s.matching_engine ≡ (ok r, e')
        → (p : Result (Unit {0}) × PositionManager)
        → apply_execution symbol r s.position_manager ≡ p
        → without_analytics (out s) ≡ committed s.matching_engine s.position_manager
    unfolding execute_market
    by_positions s r e' positive allowed sent (err x, m') applied =
        ground (arith, positive, allowed, sent, applied)
    by_positions s r e' positive allowed sent (ok tt, m') applied =
        let (same_engine, same_positions) =
          apply_analytics-frame handler symbol r
            (record s { matching_engine = e'; position_manager = m' }) separate in
        ground (arith, positive, allowed, sent, applied, same_engine, same_positions)

    by_market :
        (s : RiskManagedExecution A)
        → validate_quantity quantity ≡ ok tt
        → is_trade_allowed s.position_manager limits symbol trade_quantity ≡ ok true
        → (r : Result ExecutionResult × MatchingEngine) → market s.matching_engine ≡ r
        → without_analytics (out s) ≡ committed s.matching_engine s.position_manager
    unfolding execute_market
    by_market s positive allowed (err x, e') sent = ground (arith, positive, allowed, sent)
    by_market s positive allowed (ok r, e') sent =
        by_positions s r e' positive allowed sent (apply_execution symbol r s.position_manager) refl

    by_validator :
        (s : RiskManagedExecution A)
        → validate_quantity quantity ≡ ok tt
        → (v : Result Bool) → is_trade_allowed s.position_manager limits symbol trade_quantity ≡ v
        → without_analytics (out s) ≡ committed s.matching_engine s.position_manager
    unfolding execute_market
    by_validator s positive (err x) refused = ground (arith, positive, refused)
    by_validator s positive (ok false) refused = ground (arith, positive, refused)
    by_validator s positive (ok true) allowed =
        by_market s positive allowed (market s.matching_engine) refl

    execute_market-committed :
        (s : RiskManagedExecution A)
        → without_analytics (out s) ≡ committed s.matching_engine s.position_manager
    unfolding execute_market validate_quantity
    execute_market-committed s = elim (Bool-cases (leb_ℤ quantity (pos 0))) [
      | inl low ↦ ground (arith, low)
      | inr high ↦
          by_validator s (ground (arith, high))
            (is_trade_allowed s.position_manager limits symbol trade_quantity) refl
    ]

  module _ {A B : Type 0} (handler : AnalyticsHandler A) (other : AnalyticsHandler B)
      (separate : IsSeparate handler) (other_separate : IsSeparate other) where
    execute_market-EndsAlike :
        (s : RiskManagedExecution A) (t : RiskManagedExecution B)
        → IsAlike s t
        → EndsAlike
            (execute_market limits handler trade_quantity market symbol quantity s)
            (execute_market limits other trade_quantity market symbol quantity t)
    execute_market-EndsAlike s t (same_engine, same_positions) =
        let eq =
          execute_market-committed handler separate s
          ∙ ap₂ committed same_engine same_positions
          ∙ sym (execute_market-committed other other_separate t) in
        (ap (λ x. x.0) eq, (ap (λ x. x.1.0) eq, ap (λ x. x.1.1) eq))

-- Analytics never change what is executed: with any two analytics handlers that leave the engine and
-- the positions alone, also one that throws or none at all, and whatever the states of the analytics, but with the same engine, positions and
-- limits, a market purchase, and a market sale, returns the same result or throws the same
-- exception, and leaves the same engine and the same positions.
pub execute_market-IsAlike :
    {A B : Type 0} (F : LongDouble) (limits : RiskLimits) (handler : AnalyticsHandler A)
    (other : AnalyticsHandler B) (symbol : List ℕ) (q : ℤ) (s : RiskManagedExecution A)
    (t : RiskManagedExecution B)
    → IsSeparate handler
    → IsSeparate other
    → IsAlike s t
    → EndsAlike
        (execute_market_buy F limits handler symbol q s)
        (execute_market_buy F limits other symbol q t)
      × EndsAlike
          (execute_market_sell F limits handler symbol q s)
          (execute_market_sell F limits other symbol q t)
unfolding execute_market_buy execute_market_sell
execute_market-IsAlike F limits handler other symbol q s t separate other_separate alike = (
  execute_market-EndsAlike limits q (Market.execute_market_buy F q) symbol q handler other separate
      other_separate s t alike,
  execute_market-EndsAlike limits (neg q) (Market.execute_market_sell F q) symbol q handler other
      separate other_separate s t alike,
)

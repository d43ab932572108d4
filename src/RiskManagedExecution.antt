-- ===== src/RiskManagedExecution.antt =====
-- include/risk_managed_execution.hpp. The engine, the positions and the analytics, which the class
-- refers to, are parts of the state; the limits and the analytics handler are arguments.
pub mod Within
pub mod Analytics
use cmarket.Prelude.{
  ℕ, Bool, true, false, not, Option, none, some, List, if◌then◌else◌, neg, leb_ℤ, eqb_ℤ, ℤ,
  throw_if, Action, pure, throw, lift, ◌>>=◌, ◌>>◌, modify, when, Result, pos, ok, err,
  invalid_argument, runtime_error,
}
use cmarket.LongDouble.{LongDouble}
use cmarket.Execution.{ExecutionResult}
use cmarket.RiskLimits.{RiskLimits}
use cmarket.RiskValidator.{is_trade_allowed}
use cmarket.PositionManager.{PositionManager, apply_execution}
use cmarket.MatchingEngine.Defs.{MatchingEngine}
use cmarket.MatchingEngine.Market

pub record RiskManagedExecution (A : Type 0) : Type 0 where
  pub matching_engine : MatchingEngine
  pub position_manager : PositionManager
  pub analytics : A
  pub analytics_healthy : Bool

-- The pointer to the analytics handler. Its method may run a callback of the user before it works on
-- the analytics, so that it may reach every part of the state.
abbrev pub AnalyticsHandler : Type 0 → Type 0
AnalyticsHandler A = Option (List ℕ → ExecutionResult → Action (RiskManagedExecution A) (Unit {0}))

unfoldable pub validate_quantity : ℤ → Result (Unit {0})
validate_quantity quantity = throw_if (leb_ℤ quantity (pos 0)) invalid_argument

module _ {A : Type 0} where
  unfoldable pub make : MatchingEngine → PositionManager → A → RiskManagedExecution A
  make e m a = record {
    matching_engine = e;
    position_manager = m;
    analytics = a;
    analytics_healthy = true;
  }

  abbrev pub in_engine : {B : Type 0} → Action MatchingEngine B → Action (RiskManagedExecution A) B
  in_engine call s = let (r, e) = call s.matching_engine in (r, record s { matching_engine = e })

  abbrev pub in_positions :
      {B : Type 0} → Action PositionManager B → Action (RiskManagedExecution A) B
  in_positions call s =
      let (r, m) = call s.position_manager in (r, record s { position_manager = m })

  -- The state after a call of the handler that returned or threw.
  unfoldable pub note_analytics :
      Result (Unit {0}) × RiskManagedExecution A → RiskManagedExecution A
  note_analytics (ok _, s) = s
  note_analytics (err _, s) = record s { analytics_healthy = false }

  unfoldable pub apply_analytics :
      AnalyticsHandler A
      → List ℕ
      → ExecutionResult
      → RiskManagedExecution A
      → RiskManagedExecution A
  apply_analytics none symbol result s = s
  apply_analytics (some apply) symbol result s =
      if eqb_ℤ result.executed_quantity (pos 0) then s else note_analytics (apply symbol result s)

  -- What both methods do, with the quantity for the validator and the call of the engine.
  unfoldable pub execute_market :
      RiskLimits
      → AnalyticsHandler A
      → ℤ
      → Action MatchingEngine ExecutionResult
      → List ℕ
      → ℤ
      → Action (RiskManagedExecution A) ExecutionResult
  execute_market limits handler trade_quantity market symbol quantity = do
    lift (validate_quantity quantity)
    allowed ← λ s. (is_trade_allowed s.position_manager limits symbol trade_quantity, s)
    when (not allowed) (throw runtime_error)
    result ← in_engine market
    in_positions (apply_execution symbol result)
    modify (apply_analytics handler symbol result)
    pure result

  unfoldable pub execute_market_buy :
      LongDouble
      → RiskLimits
      → AnalyticsHandler A
      → List ℕ
      → ℤ
      → Action (RiskManagedExecution A) ExecutionResult
  execute_market_buy F limits handler symbol quantity =
      execute_market limits handler quantity (Market.execute_market_buy F quantity) symbol quantity

  unfoldable pub execute_market_sell :
      LongDouble
      → RiskLimits
      → AnalyticsHandler A
      → List ℕ
      → ℤ
      → Action (RiskManagedExecution A) ExecutionResult
  execute_market_sell F limits handler symbol quantity =
      execute_market limits handler (neg quantity) (Market.execute_market_sell F quantity) symbol
        quantity

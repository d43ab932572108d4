-- ===== src/Tests/Risk.antt =====
-- A market order under risk control (include/risk_managed_execution.hpp), and the theorems at it.
use cmarket.Prelude.{ℕ, suc, refl, true, some, [], ◌∷◌, arith, pos, ok, err, invalid_argument}
use cmarket.LongDouble.{exact}
use cmarket.Execution.{buy, sell}
use cmarket.RiskManagedExecution.{
  RiskManagedExecution, AnalyticsHandler, execute_market_buy, execute_market_sell,
}
use cmarket.RiskManagedExecution.Within.{Within, execute_market-IsWithin}
use cmarket.RiskManagedExecution.Analytics.{EndsAlike, IsSeparate, execute_market-IsAlike}
use cmarket.Tests.Engine.{engine, engine-IsValid}
use cmarket.Tests.Positions.{manager, limits, limits_made, within}

-- Analytics that count the executions, and analytics that always throw.
abbrev counting : AnalyticsHandler ℕ
counting = some (λ symbol result s. (ok tt, record s { analytics = suc s.analytics }))

abbrev failing : AnalyticsHandler (Unit {0})
failing = some (λ symbol result s. (err invalid_argument, s))

counting-IsSeparate : IsSeparate counting
counting-IsSeparate = λ symbol result s. (refl, refl)

failing-IsSeparate : IsSeparate failing
failing-IsSeparate = λ symbol result s. (refl, refl)

abbrev counted : RiskManagedExecution ℕ
counted = record {
  matching_engine = engine;
  position_manager = manager;
  analytics = 0;
  analytics_healthy = true;
}

abbrev not_counted : RiskManagedExecution (Unit {0})
not_counted = record {
  matching_engine = engine;
  position_manager = manager;
  analytics = tt;
  analytics_healthy = true;
}

execute_market-IsWithin_example :
    Within limits
      (65 ∷ [])
      buy
      (pos 8)
      counted
      (execute_market_buy exact limits counting (65 ∷ []) (pos 8) counted)
    × Within limits
        (65 ∷ [])
        sell
        (pos 8)
        counted
        (execute_market_sell exact limits counting (65 ∷ []) (pos 8) counted)
execute_market-IsWithin_example =
    execute_market-IsWithin exact limits counting (pos 20) (65 ∷ []) (pos 8) counted
      counting-IsSeparate (omega arith) limits_made engine-IsValid within (omega arith)

execute_market-IsAlike_example :
    EndsAlike
      (execute_market_buy exact limits counting (65 ∷ []) (pos 8) counted)
      (execute_market_buy exact limits failing (65 ∷ []) (pos 8) not_counted)
    × EndsAlike
        (execute_market_sell exact limits counting (65 ∷ []) (pos 8) counted)
        (execute_market_sell exact limits failing (65 ∷ []) (pos 8) not_counted)
execute_market-IsAlike_example =
    execute_market-IsAlike exact limits counting failing (65 ∷ []) (pos 8) counted not_counted
      counting-IsSeparate failing-IsSeparate (refl, refl)

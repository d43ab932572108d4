-- ===== src/RiskValidator.antt =====
-- include/risk_validator.hpp. The position manager and the limits, which the class refers to, are
-- arguments.
use cmarket.Prelude.{
  ℕ, Bool, List, [], ◌∷◌, if◌then◌else◌, eqb_ℤ, ℤ, Result, pos, ok, err, invalid_argument,
}
use cmarket.RiskLimits.{RiskLimits}
use cmarket.RiskLimits
use cmarket.PositionManager.{PositionManager, has_position, position}

unfoldable pub is_trade_allowed : PositionManager → RiskLimits → List ℕ → ℤ → Result Bool
is_trade_allowed m limits [] trade_quantity = err invalid_argument
is_trade_allowed m limits (c ∷ cs) trade_quantity =
    let symbol = c ∷ cs in
    if eqb_ℤ trade_quantity (pos 0)
    then err invalid_argument
    else if has_position symbol m
    then elim (position symbol m) [
      | err x ↦ err x
      | ok p ↦ ok (RiskLimits.is_trade_allowed limits p.quantity trade_quantity)
    ]
    else ok (RiskLimits.is_trade_allowed limits (pos 0) trade_quantity)

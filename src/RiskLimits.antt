-- ===== src/RiskLimits.antt =====
-- include/risk_limits.hpp.
pub mod Agreement
use cmarket.Prelude.{
  Bool, false, ◌&&◌, if◌then◌else◌, ◌+ℤ◌, neg, ltb_ℤ, leb_ℤ, eqb_ℤ, int64_min, ℤ, Result, pos, ok,
  err, invalid_argument,
}

pub record RiskLimits : Type 0 where
  pub max_absolute_position : ℤ

unfoldable pub make : ℤ → Result RiskLimits
make max_absolute_position =
    if leb_ℤ max_absolute_position (pos 0)
    then err invalid_argument
    else ok (record { max_absolute_position = max_absolute_position })

unfoldable pub is_position_allowed : RiskLimits → ℤ → Bool
is_position_allowed limits position =
    let absolute_position = if ltb_ℤ position (pos 0) then neg position else position in
    if eqb_ℤ position int64_min then false else leb_ℤ absolute_position limits.max_absolute_position

-- The sum is one of 128 bits in the source, where it cannot overflow.
unfoldable pub is_trade_allowed : RiskLimits → ℤ → ℤ → Bool
is_trade_allowed limits current_position trade_quantity =
    let resulting_position = current_position +ℤ trade_quantity in
    leb_ℤ resulting_position limits.max_absolute_position
    && leb_ℤ (neg limits.max_absolute_position) resulting_position

-- ===== src/RiskLimits/Agreement.antt =====
-- The two tests of include/risk_limits.hpp agree.
use cmarket.Prelude.{
  ◌≡◌, ◌&&◌, arith, ◌+ℤ◌, ◌≤ℤ◌, int64_max, int64_min, neg_parts, eqb_ℤ_iff, ℤ, ok,
}
use cmarket.Int64.{is_int64}
use cmarket.RiskLimits.{RiskLimits, make, is_position_allowed, is_trade_allowed}

-- With limits that the constructor returned for a 64-bit number, and any two numbers, a trade is
-- allowed exactly if the resulting position fits into 64 bits and is itself allowed.
pub is_trade_allowed-agrees :
    (max current_position trade_quantity : ℤ) (limits : RiskLimits)
    → max ≤ℤ int64_max
    → make max ≡ ok limits
    → is_trade_allowed limits current_position trade_quantity ≡ (
        is_int64 (current_position +ℤ trade_quantity)
        && is_position_allowed limits (current_position +ℤ trade_quantity))
unfolding make is_trade_allowed is_position_allowed
is_trade_allowed-agrees max current_position trade_quantity limits bounded made = ground (
  arith,
  made,
  neg_parts max,
  neg_parts (current_position +ℤ trade_quantity),
  (eqb_ℤ_iff (current_position +ℤ trade_quantity) int64_min).0,
)

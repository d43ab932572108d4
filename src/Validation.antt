-- ===== src/Validation.antt =====
-- The argument checks of include/validation.hpp.
use cmarket.Prelude.{ℤ, pos, leb_ℤ, Result, invalid_argument, throw_if, and_then}

unfoldable pub require_positive : ℤ → Result (Unit {0})
require_positive value = throw_if (leb_ℤ value (pos 0)) invalid_argument

unfoldable pub validate_market_order : ℤ → Result (Unit {0})
unfolding require_positive
validate_market_order quantity = require_positive quantity

unfoldable pub validate_limit_order : ℤ → ℤ → Result (Unit {0})
unfolding require_positive
validate_limit_order price_ticks quantity =
    and_then (require_positive price_ticks) λ _. require_positive quantity

unfoldable pub validate_modify_order : ℤ → ℤ → Result (Unit {0})
unfolding require_positive
validate_modify_order price_ticks quantity =
    and_then (require_positive price_ticks) λ _. require_positive quantity

unfoldable pub validate_trade : ℤ → ℤ → Result (Unit {0})
unfolding require_positive
validate_trade price_ticks quantity =
    and_then (require_positive price_ticks) λ _. require_positive quantity

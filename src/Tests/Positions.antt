-- ===== src/Tests/Positions.antt =====
-- Concrete positions (include/position.hpp and include/position_manager.hpp), and the theorems at
-- them.
use cmarket.Prelude.{
  ◌≡◌, refl, inl, inr, true, none, some, [], ◌∷◌, arith, ◌+ℤ◌, ◌-ℤ◌, ◌*ℤ◌, neg, pos, negsuc, ok,
}
use cmarket.Execution.{sell, ExecutionResult}
use cmarket.Int64.{checked, to_int64}
use cmarket.RiskLimits.{RiskLimits, make, is_position_allowed}
use cmarket.RiskLimits
use cmarket.RiskValidator.{is_trade_allowed}
use cmarket.Position.{
  Position, absolute_quantity, add_quantity, increase, price_difference, realize, settle, reduce,
}
use cmarket.Position
use cmarket.Position.Increase.{FitsTogether, Increased, apply_trade-Increased}
use cmarket.Position.Sum.{Sums, apply_trade-Sums}
use cmarket.PositionManager.{
  same_symbol, find, put, PositionManager, trade_at, apply_trade, has_position, position,
  signed_quantity, apply_trades, apply_execution,
}
use cmarket.PositionManager.Trades.{held, Traded, apply_trade-Traded}
use cmarket.PositionManager.Executions.{
  signed, signed_total, Executed, apply_execution-Executed, is_trade_allowed-executed,
}

-- 10 units, bought at 100.
abbrev long : Position
long = record {
  symbol = 65 ∷ [];
  quantity = pos 10;
  average_entry_price_ticks = pos 100;
  realized_pnl_ticks = pos 0;
}

long-FitsTogether : FitsTogether (pos 5) (pos 111) long
unfolding ◌+ℤ◌
long-FitsTogether = record {
  low = omega arith;
  high = omega arith;
  average = (omega arith, omega arith);
  priced = (omega arith, omega arith);
}

apply_trade-Increased_example :
    Increased (pos 5) (pos 111) long (Position.apply_trade (pos 5) (pos 111) long)
apply_trade-Increased_example =
    apply_trade-Increased (pos 5) (pos 111) long long-FitsTogether (inl (omega arith, omega arith))

apply_trade-Sums_example : Sums (pos 5) long (Position.apply_trade (pos 5) (negsuc 0) long)
apply_trade-Sums_example = apply_trade-Sums (pos 5) (negsuc 0) long

abbrev pub manager : PositionManager
manager = record { positions = (65 ∷ [], long) ∷ [] }

apply_trade-Traded_example :
    Traded (66 ∷ []) (pos 5) manager (apply_trade (66 ∷ []) (pos 5) (pos 0) manager)
apply_trade-Traded_example = apply_trade-Traded (66 ∷ []) (pos 5) (pos 0) manager

-- 7 of 12 units that were to be sold.
abbrev result : ExecutionResult
result = record {
  side = sell;
  requested_quantity = pos 12;
  executed_quantity = pos 7;
  remaining_quantity = pos 5;
  average_price_ticks = some (pos 105);
  trades =
      record {
        aggressor_side = sell;
        price_ticks = pos 105;
        quantity = pos 7;
        trade_id = 1;
        buy_order_id = none;
        sell_order_id = none;
        execution_sequence = 1;
      }
      ∷ [];
}

apply_execution-Executed_example :
    Executed
      (65 ∷ [])
      (signed_total result.side result.trades)
      manager
      (apply_execution (65 ∷ []) result manager)
apply_execution-Executed_example = apply_execution-Executed (65 ∷ []) result manager

abbrev after : PositionManager
after = record {
  positions = (65 ∷ [], record long { quantity = pos 3; realized_pnl_ticks = pos 35 }) ∷ [];
}

executed : apply_execution (65 ∷ []) result manager ≡ (ok tt, after)
unfolding apply_execution apply_trades signed_quantity apply_trade trade_at find put same_symbol
    Position.apply_trade reduce settle realize add_quantity absolute_quantity price_difference
    checked to_int64 ◌-ℤ◌ ◌*ℤ◌ ◌+ℤ◌ neg
executed = refl

sold : signed_total result.side result.trades ≡ negsuc 6
unfolding signed_total signed ◌+ℤ◌ neg
sold = refl

abbrev pub limits : RiskLimits
limits = record { max_absolute_position = pos 20 }

pub limits_made : make (pos 20) ≡ ok limits
unfolding make
limits_made = refl

pub within : is_position_allowed limits (held (65 ∷ []) manager) ≡ true
unfolding is_position_allowed held find same_symbol neg
within = refl

allowed : is_trade_allowed manager limits (65 ∷ []) (negsuc 11) ≡ ok true
unfolding is_trade_allowed RiskLimits.is_trade_allowed has_position position find same_symbol ◌+ℤ◌
    neg
allowed = refl

is_trade_allowed-executed_example : is_position_allowed limits (held (65 ∷ []) after) ≡ true
is_trade_allowed-executed_example =
    is_trade_allowed-executed (pos 20) limits (65 ∷ []) (negsuc 11) result manager after
      (omega arith) limits_made within allowed (inr (ground (arith, sold), ground (arith, sold)))
      executed

-- ===== src/Execution.antt =====
-- The shared records: include/execution.hpp and include/limit_order.hpp.
use cmarket.Prelude.{ℕ, ℤ, pos, Bool, ◌&&◌, Option, List, eqb_ℤ, ltb_ℤ, ◌-ℤ◌}

pub data OrderSide : Type 0 where
  buy sell : OrderSide

pub record Trade : Type 0 where
  pub aggressor_side : OrderSide
  pub price_ticks : ℤ
  pub quantity : ℤ
  pub trade_id : ℕ
  pub buy_order_id : Option ℕ
  pub sell_order_id : Option ℕ
  pub execution_sequence : ℕ

pub record ExecutionResult : Type 0 where
  pub side : OrderSide
  pub requested_quantity : ℤ
  pub executed_quantity : ℤ
  pub remaining_quantity : ℤ
  pub average_price_ticks : Option ℤ
  pub trades : List Trade

pub record LimitOrder : Type 0 where
  pub order_id : ℕ
  pub side : OrderSide
  pub price_ticks : ℤ
  pub original_quantity : ℤ
  pub remaining_quantity : ℤ
  pub sequence_number : ℕ

unfoldable pub filled_quantity : LimitOrder → ℤ
filled_quantity o = o.original_quantity -ℤ o.remaining_quantity

unfoldable pub is_filled : LimitOrder → Bool
is_filled o = eqb_ℤ o.remaining_quantity (pos 0)

unfoldable pub is_partially_filled : LimitOrder → Bool
is_partially_filled o =
    ltb_ℤ (pos 0) o.remaining_quantity && ltb_ℤ o.remaining_quantity o.original_quantity

unfoldable pub fully_filled : ExecutionResult → Bool
fully_filled r = eqb_ℤ r.remaining_quantity (pos 0)

unfoldable pub partially_filled : ExecutionResult → Bool
partially_filled r = ltb_ℤ (pos 0) r.executed_quantity && ltb_ℤ (pos 0) r.remaining_quantity

unfoldable pub unfilled : ExecutionResult → Bool
unfilled r = eqb_ℤ r.executed_quantity (pos 0)

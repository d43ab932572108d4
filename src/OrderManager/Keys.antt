-- ===== src/OrderManager/Keys.antt =====
-- The priority keys of the active orders and their two orders (include/order_manager.hpp).
use cmarket.Prelude.{ℕ, Bool, arith, ltb, ◌==◌, if◌then◌else◌, ltb_ℤ, eqb_ℤ, ℤ}
use cmarket.Prelude.Order.{IsStrictOrder}
use cmarket.Execution.{OrderSide, buy, sell, LimitOrder}

pub record PriorityKey : Type 0 where
  pub price_ticks : ℤ
  pub sequence_number : ℕ
  pub order_id : ℕ

-- Where the prices agree, the earlier sequence number comes first, then the smaller identifier.
earlier : PriorityKey → PriorityKey → Bool
earlier lhs rhs =
    if lhs.sequence_number == rhs.sequence_number
    then ltb lhs.order_id rhs.order_id
    else ltb lhs.sequence_number rhs.sequence_number

-- `BuyPriorityCompare`.
unfoldable pub buy_before : PriorityKey → PriorityKey → Bool
unfolding earlier
buy_before lhs rhs =
    if eqb_ℤ lhs.price_ticks rhs.price_ticks
    then earlier lhs rhs
    else ltb_ℤ rhs.price_ticks lhs.price_ticks

-- `SellPriorityCompare`.
unfoldable pub sell_before : PriorityKey → PriorityKey → Bool
unfolding earlier
sell_before lhs rhs =
    if eqb_ℤ lhs.price_ticks rhs.price_ticks
    then earlier lhs rhs
    else ltb_ℤ lhs.price_ticks rhs.price_ticks

unfoldable pub make_priority_key : LimitOrder → PriorityKey
make_priority_key o = record {
  price_ticks = o.price_ticks;
  sequence_number = o.sequence_number;
  order_id = o.order_id;
}

-- The comparator of a side's index.
abbrev pub key_before : OrderSide → PriorityKey → PriorityKey → Bool
key_before buy = buy_before
key_before sell = sell_before

pub buy_before-IsStrictOrder : IsStrictOrder buy_before
unfolding buy_before
buy_before-IsStrictOrder = record {
  irrefl = λ a. ground arith;
  trans = λ a b c p q. ground arith;
  tri = λ a b p q. ground arith;
}

pub sell_before-IsStrictOrder : IsStrictOrder sell_before
unfolding sell_before
sell_before-IsStrictOrder = record {
  irrefl = λ a. ground arith;
  trans = λ a b c p q. ground arith;
  tri = λ a b p q. ground arith;
}

pub key_before-IsStrictOrder : (s : OrderSide) → IsStrictOrder (key_before s)
key_before-IsStrictOrder buy = buy_before-IsStrictOrder
key_before-IsStrictOrder sell = sell_before-IsStrictOrder

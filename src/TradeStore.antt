-- ===== src/TradeStore.antt =====
-- include/trade_store.hpp. Both counters are unsigned 64-bit numbers and wrap; a `push_back`
-- that fails to allocate is not modelled.
pub mod Rollback
use cmarket.Prelude.{
  ℕ, suc, ◌%◌, ℤ, List, [], Option, length, take, push_back, ltb, Result, ok, err, invalid_argument,
  u64_mod, Action, if◌then◌else◌,
}
use cmarket.Execution.{OrderSide, Trade}
use cmarket.Validation.{validate_trade}

pub record TradeStore : Type 0 where
  pub next_trade_id : ℕ
  pub next_execution_sequence : ℕ
  pub trades : List Trade

pub record Checkpoint : Type 0 where
  pub trade_count : ℕ
  pub next_trade_id : ℕ
  pub next_execution_sequence : ℕ

unfoldable pub empty_store : TradeStore
empty_store = record { next_trade_id = 1; next_execution_sequence = 1; trades = [] }

unfoldable pub next_trade : TradeStore → OrderSide → ℤ → ℤ → Option ℕ → Option ℕ → Trade
next_trade s aggressor_side price_ticks quantity buy_order_id sell_order_id = record {
  aggressor_side = aggressor_side;
  price_ticks = price_ticks;
  quantity = quantity;
  trade_id = s.next_trade_id;
  buy_order_id = buy_order_id;
  sell_order_id = sell_order_id;
  execution_sequence = s.next_execution_sequence;
}

unfoldable pub record_trade : OrderSide → ℤ → ℤ → Option ℕ → Option ℕ → Action TradeStore Trade
unfolding next_trade validate_trade
record_trade aggressor_side price_ticks quantity buy_order_id sell_order_id s =
    let trade : Trade =
      next_trade s aggressor_side price_ticks quantity buy_order_id sell_order_id in
    elim (validate_trade price_ticks quantity) [
      | err e ↦ (err e, s)
      | ok _ ↦ (
        ok trade,
        record {
          next_trade_id = suc s.next_trade_id % u64_mod;
          next_execution_sequence = suc s.next_execution_sequence % u64_mod;
          trades = push_back s.trades trade;
        },
      )
    ]

unfoldable pub checkpoint : TradeStore → Checkpoint
checkpoint s = record {
  trade_count = length s.trades;
  next_trade_id = s.next_trade_id;
  next_execution_sequence = s.next_execution_sequence;
}

-- `resize` only ever shrinks here, since a larger count is refused first.
unfoldable pub rollback : Checkpoint → Action TradeStore (Unit {0})
rollback c s = if ltb (length s.trades) c.trade_count then (err invalid_argument, s) else (
  ok tt,
  record {
    next_trade_id = c.next_trade_id;
    next_execution_sequence = c.next_execution_sequence;
    trades = take c.trade_count s.trades;
  },
)

unfoldable pub clear : TradeStore → TradeStore
clear s = record s { trades = [] }

-- ===== src/IdGenerator.antt =====
-- include/order_id_generator.hpp.
use cmarket.Prelude.{
  ℕ, suc, ◌-◌, ◌==◌, if◌then◌else◌, Result, ok, err, invalid_argument, overflow_error, u64_mod,
  Action,
}

pub record OrderIdGenerator : Type 0 where
  pub next_order_id : ℕ

unfoldable pub make : ℕ → Result OrderIdGenerator
make first_order_id =
    if first_order_id == 0
    then err invalid_argument
    else ok (record { next_order_id = first_order_id })

-- The largest identifier is never handed out, so the increment does not wrap.
unfoldable pub next : Action OrderIdGenerator ℕ
next g =
    if g.next_order_id == u64_mod - 1
    then (err overflow_error, g)
    else (ok g.next_order_id, record { next_order_id = suc g.next_order_id })

unfoldable pub peek : OrderIdGenerator → ℕ
peek g = g.next_order_id

-- ===== src/Position.antt =====
-- include/position.hpp: a position of signed 64-bit numbers. An overflow of signed numbers is
-- `undefined_behaviour`; a product of two 64-bit numbers has 128 bits in the source and does not
-- overflow, and its conversion to 64 bits wraps.
pub mod Products
pub mod Pnl
pub mod Reduce
pub mod Increase
pub mod Sum
use cmarket.Prelude.{
  ◌>>=◌, ◌>>◌, ℕ, Bool, true, false, List, if◌then◌else◌, ◌+ℤ◌, ◌-ℤ◌, ◌*ℤ◌, neg, ◌/ℤ◌, ltb_ℤ, leb_ℤ,
  eqb_ℤ, min_ℤ, ℤ, Action, lift, modify, Result, pos, ok, err, invalid_argument,
}
use cmarket.Int64.{checked, to_int64}

pub record Position : Type 0 where
  pub symbol : List ℕ
  pub quantity : ℤ
  pub average_entry_price_ticks : ℤ
  pub realized_pnl_ticks : ℤ

-- The constructor of a flat position.
unfoldable pub make : List ℕ → Position
make symbol = record {
  symbol = symbol;
  quantity = pos 0;
  average_entry_price_ticks = pos 0;
  realized_pnl_ticks = pos 0;
}

-- The constructor of a given position.
unfoldable pub make_held : List ℕ → ℤ → ℤ → Position
make_held symbol quantity average_entry_price_ticks = record {
  symbol = symbol;
  quantity = quantity;
  average_entry_price_ticks = average_entry_price_ticks;
  realized_pnl_ticks = pos 0;
}

unfoldable pub is_flat : Position → Bool
is_flat p = eqb_ℤ p.quantity (pos 0)

unfoldable pub is_long : Position → Bool
is_long p = ltb_ℤ (pos 0) p.quantity

unfoldable pub is_short : Position → Bool
is_short p = ltb_ℤ p.quantity (pos 0)

unfoldable pub unrealized_pnl_ticks : ℤ → Position → Result ℤ
unrealized_pnl_ticks market_price_ticks p =
    if leb_ℤ market_price_ticks (pos 0)
    then err invalid_argument
    else if eqb_ℤ p.quantity (pos 0)
    then ok (pos 0)
    else elim (checked (market_price_ticks -ℤ p.average_entry_price_ticks)) [
      | err x ↦ err x
      | ok difference ↦ ok (to_int64 (difference *ℤ p.quantity))
    ]

unfoldable pub absolute_quantity : ℤ → Result ℤ
absolute_quantity quantity = if ltb_ℤ quantity (pos 0) then checked (neg quantity) else ok quantity

-- `quantity_ += quantity`.
unfoldable pub add_quantity : ℤ → Action Position (Unit {0})
add_quantity quantity p = elim (checked (p.quantity +ℤ quantity)) [
  | err x ↦ (err x, p)
  | ok sum ↦ (ok tt, record p { quantity = sum })
]

-- A trade in the direction of the position.
unfoldable pub increase : ℤ → ℤ → Action Position (Unit {0})
increase quantity price_ticks p =
    (do
      old_absolute_quantity ← lift (absolute_quantity p.quantity)
      trade_absolute_quantity ← lift (absolute_quantity quantity)
      new_absolute_quantity ← lift (checked (old_absolute_quantity +ℤ trade_absolute_quantity))
      modify (λ p. record p {
        average_entry_price_ticks = to_int64 (
            (p.average_entry_price_ticks *ℤ old_absolute_quantity
              +ℤ price_ticks *ℤ trade_absolute_quantity)
            /ℤ new_absolute_quantity);
      })
      add_quantity quantity)
      p

-- What is left after a trade against the position.
unfoldable pub settle : ℤ → ℤ → ℤ → ℤ → Action Position (Unit {0})
settle quantity price_ticks old_absolute_quantity trade_absolute_quantity p =
    if ltb_ℤ trade_absolute_quantity old_absolute_quantity
    then add_quantity quantity p
    else if eqb_ℤ trade_absolute_quantity old_absolute_quantity
    then (ok tt, record p { quantity = pos 0; average_entry_price_ticks = pos 0 })
    else (do
      add_quantity quantity
      modify (λ p. record p { average_entry_price_ticks = price_ticks }))
        p

-- `realized_pnl_ticks_ += static_cast<Pnl>(realized_change)`.
unfoldable pub realize : ℤ → Action Position (Unit {0})
realize realized_change p = elim (checked (p.realized_pnl_ticks +ℤ to_int64 realized_change)) [
  | err x ↦ (err x, p)
  | ok sum ↦ (ok tt, record p { realized_pnl_ticks = sum })
]

-- What one unit of the position gains at a price.
unfoldable pub price_difference : ℤ → Position → ℤ
price_difference price_ticks p =
    if ltb_ℤ (pos 0) p.quantity
    then price_ticks -ℤ p.average_entry_price_ticks
    else p.average_entry_price_ticks -ℤ price_ticks

-- A trade against the position.
unfoldable pub reduce : ℤ → ℤ → Action Position (Unit {0})
reduce quantity price_ticks p =
    (do
      old_absolute_quantity ← lift (absolute_quantity p.quantity)
      trade_absolute_quantity ← lift (absolute_quantity quantity)
      realize
          (price_difference price_ticks p *ℤ min_ℤ old_absolute_quantity trade_absolute_quantity)
      settle quantity price_ticks old_absolute_quantity trade_absolute_quantity)
      p

unfoldable pub apply_trade : ℤ → ℤ → Action Position (Unit {0})
apply_trade quantity price_ticks p =
    if eqb_ℤ quantity (pos 0)
    then (err invalid_argument, p)
    else if leb_ℤ price_ticks (pos 0)
    then (err invalid_argument, p)
    else if eqb_ℤ p.quantity (pos 0)
    then (ok tt, record p { quantity = quantity; average_entry_price_ticks = price_ticks })
    else elim (ltb_ℤ (pos 0) p.quantity) [
      | true ↦ elim (ltb_ℤ (pos 0) quantity) [
        | true ↦ increase quantity price_ticks p
        | false ↦ reduce quantity price_ticks p
      ]
      | false ↦ elim (ltb_ℤ (pos 0) quantity) [
        | true ↦ reduce quantity price_ticks p
        | false ↦ increase quantity price_ticks p
      ]
    ]

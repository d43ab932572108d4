-- ===== src/Position/Reduce.antt =====
-- Trades against a position (include/position.hpp).
use cmarket.Prelude.{
  ◌≡◌, ◌⊎◌, true, arith, ◌+ℤ◌, ◌-ℤ◌, ◌*ℤ◌, ◌≤ℤ◌, ◌<ℤ◌, min_ℤ, int64_max, int64_min, ℤ, Result, pos,
  ok, err,
}
use cmarket.Int64.{is_int64, checked, to_int64_in_range}
use cmarket.Position.{Position, settle, realize, price_difference, reduce}
use cmarket.Position.Pnl.{worth, magnitude, absolute_quantity-magnitude}

-- What a trade against the position realizes.
abbrev pub change : ℤ → ℤ → Position → ℤ
change q price p = price_difference price p *ℤ min_ℤ (magnitude p.quantity) (magnitude q)

-- The position and the trade have 64 bits, so has what is computed.
pub record Fits (q price : ℤ) (p : Position) : Type 0 where
  pub held : (int64_min <ℤ p.quantity) × (p.quantity ≤ℤ int64_max)
  pub traded : (int64_min <ℤ q) × (q ≤ℤ int64_max)
  pub profit : is_int64 (change q price p) ≡ true
  pub realized : is_int64 (p.realized_pnl_ticks +ℤ change q price p) ≡ true

-- One of the position and the trade is long, the other short.
abbrev pub IsAgainst : ℤ → Position → Type 0
IsAgainst q p = ((pos 0 <ℤ p.quantity) × (q <ℤ pos 0)) ⊎ ((p.quantity <ℤ pos 0) × (pos 0 <ℤ q))

-- What a trade against the position leads to.
abbrev pub Reduced : ℤ → ℤ → Position → Result (Unit {0}) × Position → Type 0
Reduced q price p (ok _, p') =
    (p'.quantity ≡ p.quantity +ℤ q)
    × (p'.realized_pnl_ticks ≡ p.realized_pnl_ticks +ℤ change q price p)
    × (worth price p' ≡ worth price p)
    × (p'.symbol ≡ p.symbol)
Reduced q price p (err x, p') = ⊥

module _ (q price : ℤ) (p : Position) (f : Fits q price p) (against : IsAgainst q p) where
  abbrev after : ℤ → Position
  after average = record p {
    quantity = p.quantity +ℤ q;
    average_entry_price_ticks = average;
    realized_pnl_ticks = p.realized_pnl_ticks +ℤ change q price p;
  }

  realized_run :
      realize (change q price p) p
      ≡ (ok tt, record p { realized_pnl_ticks = p.realized_pnl_ticks +ℤ change q price p })
  unfolding realize checked
  realized_run = ground (arith, to_int64_in_range (change q price p) f.profit, f.realized)

  run :
      reduce q price p
      ≡ settle q price
          (magnitude p.quantity)
          (magnitude q)
          (record p { realized_pnl_ticks = p.realized_pnl_ticks +ℤ change q price p })
  unfolding reduce
  run = ground (
    arith,
    absolute_quantity-magnitude p.quantity f.held.0 f.held.1,
    absolute_quantity-magnitude q f.traded.0 f.traded.1,
    realized_run,
  )

  abbrev rise : ℤ
  rise = price -ℤ p.average_entry_price_ticks

  abbrev closed : Position
  closed = record p {
    quantity = pos 0;
    average_entry_price_ticks = pos 0;
    realized_pnl_ticks = p.realized_pnl_ticks +ℤ change q price p;
  }

  abbrev realized_only : Position
  realized_only = record p { realized_pnl_ticks = p.realized_pnl_ticks +ℤ change q price p }

-- ===== src/Position/Pnl.antt =====
-- What a position is worth (include/position.hpp).
use cmarket.Prelude.{
  ◌+◌, ◌≡◌, arith, pos_part, neg_part, ◌+ℤ◌, ◌-ℤ◌, ◌*ℤ◌, neg, ◌≤ℤ◌, ◌<ℤ◌, int64_max, int64_min, ℤ,
  pos, ok,
}
use cmarket.Int64.{checked}
use cmarket.Position.{Position, absolute_quantity}

-- The profit that is realized plus the one that a price would give.
abbrev pub worth : ℤ → Position → ℤ
worth price_ticks p =
    p.realized_pnl_ticks +ℤ (price_ticks -ℤ p.average_entry_price_ticks) *ℤ p.quantity

abbrev pub magnitude : ℤ → ℤ
magnitude n = pos (pos_part n + neg_part n)

pub absolute_quantity-magnitude :
    (n : ℤ) → int64_min <ℤ n → n ≤ℤ int64_max → absolute_quantity n ≡ ok (magnitude n)
unfolding absolute_quantity checked neg
absolute_quantity-magnitude n low high = ground arith

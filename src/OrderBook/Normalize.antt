-- ===== src/OrderBook/Normalize.antt =====
-- `normalize_bids` and `normalize_asks` (src/order_book.cpp), which differ in the order of the
-- `std::map`. The map is the vector of its entries in order, which is also what the second loop
-- copies out.
pub mod Totals
use cmarket.Prelude.{
  ℕ, ◌≡◌, refl, ℤ, pos, ◌+ℤ◌, ◌-ℤ◌, ◌≤ℤ◌, ◌<ℤ◌, ltb_ℤ, eqb_ℤ, eqb_ℤ_iff, int64_max, Bool, List, [],
  ◌∷◌, Option, none, some, set, if◌then◌else◌, Result, ok, err, invalid_argument, overflow_error,
  and_then, arith, inl, inr, Option-cases, +ℤ_parts, -ℤ_parts, eq_of_parts, int_laws, Error, subst,
  ◌∙◌, logic_error, runtime_error, out_of_range, undefined_behaviour, out_of_fuel,
}
use cmarket.Prelude.Order.{IsStrictOrder, All}
use cmarket.OrderBook.Levels.{
  PriceLevel, lower_bound, level_at, insert_at, validate_level, bid_before, ask_before,
}
use cmarket.OrderBook.Levels.Sorted.{IsSide, quantity_at, level_at-quantity}
use cmarket.OrderBook.Levels.Canonical.{quantity_at_bounds}
use cmarket.OrderBook.Levels.Adjust.{IsUpdate, insert-IsUpdate, set-IsUpdate, keep-IsUpdate}

module _ (before : ℤ → ℤ → Bool) where
  -- `aggregated[price_ticks]`, which makes an entry of 0 where there is none.
  aggregated_quantity : List PriceLevel → ℤ → ℤ
  aggregated_quantity aggregated price_ticks =
      elim (level_at aggregated (lower_bound before aggregated price_ticks) price_ticks) [
        | none ↦ pos 0
        | some level ↦ level.quantity
      ]

  -- The write through the reference that `aggregated[price_ticks]` returned.
  aggregated_write : List PriceLevel → ℤ → ℤ → List PriceLevel
  aggregated_write aggregated price_ticks quantity =
      let i = lower_bound before aggregated price_ticks in
      let level : PriceLevel = record { price_ticks = price_ticks; quantity = quantity } in
      elim (level_at aggregated i price_ticks) [
        | none ↦ insert_at i level aggregated
        | some _ ↦ set aggregated i level
      ]

  -- One round of the loop.
  aggregate : List PriceLevel → PriceLevel → Result (List PriceLevel)
  aggregate aggregated level =
      let quantity = aggregated_quantity aggregated level.price_ticks in
      and_then (validate_level level.price_ticks level.quantity) λ _.
        if eqb_ℤ level.quantity (pos 0)
        then ok aggregated
        else if ltb_ℤ (int64_max -ℤ quantity) level.quantity
        then err overflow_error
        else ok (aggregated_write aggregated level.price_ticks (quantity +ℤ level.quantity))

  aggregate_all : List PriceLevel → List PriceLevel → Result (List PriceLevel)
  aggregate_all aggregated [] = ok aggregated
  aggregate_all aggregated (level ∷ levels) =
      and_then (aggregate aggregated level) λ next. aggregate_all next levels

  pub normalize : List PriceLevel → Result (List PriceLevel)
  normalize levels = aggregate_all [] levels

-- ===== src/OrderBook/Levels.antt =====
-- One side of the book: a vector of price levels and its edits at `std::lower_bound`
-- (src/order_book.cpp, the functions before the class).
pub mod Sorted
pub mod Adjust
pub mod Canonical
use cmarket.Prelude.{
  ℕ, zero, suc, ◌≡◌, ℤ, pos, ◌+ℤ◌, ◌-ℤ◌, neg, ltb_ℤ, leb_ℤ, eqb_ℤ, int64_max, int64_min, Bool, true,
  false, ◌||◌, List, [], ◌∷◌, Option, none, some, get_elem?, set, if◌then◌else◌, Result, ok, err,
  invalid_argument, overflow_error, throw_if, and_then,
}

pub record PriceLevel : Type 0 where
  pub price_ticks : ℤ
  pub quantity : ℤ

-- The comparators given to `std::lower_bound`: a level's price against the target.
unfoldable pub bid_before : ℤ → ℤ → Bool
bid_before level target = ltb_ℤ target level

unfoldable pub ask_before : ℤ → ℤ → Bool
ask_before level target = ltb_ℤ level target

-- `vector::insert` and `vector::erase` at an index.
unfoldable pub insert_at : ℕ → PriceLevel → List PriceLevel → List PriceLevel
insert_at zero v xs = v ∷ xs
insert_at (suc i) v [] = v ∷ []
insert_at (suc i) v (x ∷ xs) = x ∷ insert_at i v xs

unfoldable pub erase_at : ℕ → List PriceLevel → List PriceLevel
erase_at i [] = []
erase_at zero (x ∷ xs) = xs
erase_at (suc i) (x ∷ xs) = x ∷ erase_at i xs

unfoldable pub validate_level : ℤ → ℤ → Result (Unit {0})
validate_level price_ticks quantity =
    and_then (throw_if (ltb_ℤ price_ticks (pos 0)) invalid_argument)
      λ _. throw_if (ltb_ℤ quantity (pos 0)) invalid_argument

unfoldable pub validate_adjustment_price : ℤ → Result (Unit {0})
validate_adjustment_price price_ticks = throw_if (ltb_ℤ price_ticks (pos 0)) invalid_argument

-- `iterator != end && iterator->price_ticks == price_ticks`, with the level found there.
unfoldable pub level_at : List PriceLevel → ℕ → ℤ → Option PriceLevel
level_at levels i price_ticks = elim (get_elem? levels i) [
  | none ↦ none
  | some level ↦ if eqb_ℤ level.price_ticks price_ticks then some level else none
]

module _ (before : ℤ → ℤ → Bool) where
  -- `std::lower_bound`: the first level that the comparator does not put before the target.
  unfoldable pub lower_bound : List PriceLevel → ℤ → ℕ
  lower_bound [] target = 0
  lower_bound (x ∷ xs) target =
      if before x.price_ticks target then suc (lower_bound xs target) else 0

  -- `update_bid_levels` and `update_ask_levels`, which differ in the comparator.
  unfoldable pub update_levels : List PriceLevel → ℤ → ℤ → Result (List PriceLevel)
  update_levels levels price_ticks quantity =
      let i = lower_bound levels price_ticks in
      let level : PriceLevel = record { price_ticks = price_ticks; quantity = quantity } in
      and_then (validate_level price_ticks quantity) λ _. elim (level_at levels i price_ticks) [
        | some _ ↦
            if eqb_ℤ quantity (pos 0) then ok (erase_at i levels) else ok (set levels i level)
        | none ↦ if eqb_ℤ quantity (pos 0) then ok levels else ok (insert_at i level levels)
      ]

  -- The branch of `adjust_levels` for a price that has no level.
  unfoldable pub adjust_missing : List PriceLevel → ℕ → ℤ → ℤ → Result (List PriceLevel)
  adjust_missing levels i price_ticks quantity_delta =
      if ltb_ℤ quantity_delta (pos 0)
      then err invalid_argument
      else if eqb_ℤ quantity_delta (pos 0)
      then ok levels
      else ok (insert_at i (record { price_ticks = price_ticks; quantity = quantity_delta }) levels)

  -- The branch for a level that is there.
  unfoldable pub adjust_existing : List PriceLevel → ℕ → PriceLevel → ℤ → Result (List PriceLevel)
  adjust_existing levels i level quantity_delta =
      if eqb_ℤ quantity_delta (pos 0)
      then ok levels
      else if ltb_ℤ (pos 0) quantity_delta
      then if ltb_ℤ (int64_max -ℤ quantity_delta) level.quantity
        then err overflow_error
        else ok (set levels i (record level { quantity = level.quantity +ℤ quantity_delta }))
      else if eqb_ℤ quantity_delta int64_min
      then err invalid_argument
      else if ltb_ℤ level.quantity (neg quantity_delta)
      then err invalid_argument
      else if eqb_ℤ (neg quantity_delta) level.quantity
      then ok (erase_at i levels)
      else ok (set levels i (record level { quantity = level.quantity -ℤ neg quantity_delta }))

  unfoldable pub adjust_levels : List PriceLevel → ℤ → ℤ → Result (List PriceLevel)
  adjust_levels levels price_ticks quantity_delta =
      let i = lower_bound levels price_ticks in
      and_then (validate_adjustment_price price_ticks) λ _. elim (level_at levels i price_ticks) [
        | none ↦ adjust_missing levels i price_ticks quantity_delta
        | some level ↦ adjust_existing levels i level quantity_delta
      ]

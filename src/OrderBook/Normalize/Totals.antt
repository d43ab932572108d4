-- ===== src/OrderBook/Normalize/Totals.antt =====
-- What `normalize_bids` and `normalize_asks` (src/order_book.cpp) compute: the sums by price.
use cmarket.Prelude.{
  ◌≡◌, refl, ℤ, pos, ◌+ℤ◌, ◌≤ℤ◌, ◌<ℤ◌, eqb_ℤ, eqb_ℤ_iff, int64_max, Bool, List, [], ◌∷◌,
  if◌then◌else◌, Result, ok, err, invalid_argument, overflow_error, and_then, arith, inl, inr,
  Option-cases, +ℤ_parts, -ℤ_parts, eq_of_parts, int_laws, Error, subst, ◌∙◌, logic_error,
  runtime_error, out_of_range, undefined_behaviour, out_of_fuel,
}
use cmarket.Prelude.Order.{IsStrictOrder, All}
use cmarket.OrderBook.Levels.{PriceLevel, lower_bound, level_at, validate_level}
use cmarket.OrderBook.Levels.Sorted.{IsSide, quantity_at, level_at-quantity}
use cmarket.OrderBook.Levels.Canonical.{quantity_at_bounds}
use cmarket.OrderBook.Levels.Adjust.{IsUpdate, insert-IsUpdate, set-IsUpdate, keep-IsUpdate}
use cmarket.OrderBook.Normalize.{
  aggregated_quantity, aggregated_write, aggregate, aggregate_all, normalize,
}

-- The sum of the quantities given for a price.
pub total_at : List PriceLevel → ℤ → ℤ
total_at [] r = pos 0
total_at (x ∷ xs) r = if eqb_ℤ x.price_ticks r then x.quantity +ℤ total_at xs r else total_at xs r

-- What `validate_level` accepts.
abbrev pub IsProper : PriceLevel → Type 0
IsProper x = (pos 0 ≤ℤ x.price_ticks) × (pos 0 ≤ℤ x.quantity)

-- A quantity is a 64-bit number.
abbrev pub IsWord : PriceLevel → Type 0
IsWord x = x.quantity ≤ℤ int64_max

total_at_nonneg :
    (levels : List PriceLevel) (r : ℤ) → All IsProper levels → pos 0 ≤ℤ total_at levels r
unfolding total_at
total_at_nonneg [] r h = omega arith
total_at_nonneg (x ∷ xs) r h =
    ground (arith, total_at_nonneg xs r h.1, +ℤ_parts x.quantity (total_at xs r))

module _ (before : ℤ → ℤ → Bool) (order : IsStrictOrder before) where
  aggregated_write-IsUpdate :
      (xs : List PriceLevel) (p q : ℤ)
      → IsSide before order xs
      → pos 0 ≤ℤ p
      → pos 0 <ℤ q
      → q ≤ℤ int64_max
      → IsUpdate before order xs p q (aggregated_write before xs p q)
  unfolding aggregated_write
  aggregated_write-IsUpdate xs p q side hp hq hm =
      let level : PriceLevel = record { price_ticks = p; quantity = q } in
      elim (Option-cases (level_at xs (lower_bound before xs p) p)) [
        | inl e ↦
            rw (e, aggregated_write)
              (insert-IsUpdate before order xs p q side q e (omega arith) refl)
        | inr (l, e) ↦
            rw (e, aggregated_write)
              (set-IsUpdate before order xs p q side level l e (omega arith) refl refl)
      ]

  -- One round, by its outcome.
  abbrev AggregatesOne : List PriceLevel → PriceLevel → Result (List PriceLevel) → Type 0
  AggregatesOne acc x (ok ys) =
      IsProper x
      × IsUpdate before order acc x.price_ticks (quantity_at acc x.price_ticks +ℤ x.quantity) ys
  AggregatesOne acc x (err invalid_argument) = ¬ IsProper x
  AggregatesOne acc x (err overflow_error) =
      int64_max <ℤ quantity_at acc x.price_ticks +ℤ x.quantity
  AggregatesOne acc x (err _) = ⊥

  aggregate-Aggregates_one :
      (acc : List PriceLevel) (x : PriceLevel)
      → IsSide before order acc
      → IsWord x
      → AggregatesOne acc x (aggregate before acc x)
  unfolding aggregate aggregated_quantity validate_level
  aggregate-Aggregates_one acc x side word =
      let q = quantity_at acc x.price_ticks in
      let found = level_at-quantity before order acc x.price_ticks side in
      ground (
        arith,
        found,
        +ℤ_parts q x.quantity,
        -ℤ_parts int64_max q,
        eq_of_parts (q +ℤ x.quantity) q,
        keep-IsUpdate before order acc x.price_ticks (q +ℤ x.quantity) side,
        aggregated_write-IsUpdate acc x.price_ticks (q +ℤ x.quantity) side,
        quantity_at_bounds before order acc x.price_ticks side,
      )

  abbrev pub Aggregates : List PriceLevel → List PriceLevel → Result (List PriceLevel) → Type 0
  Aggregates acc levels (ok ys) =
      All IsProper levels
      × IsSide before order ys
      × ((r : ℤ) → quantity_at ys r ≡ quantity_at acc r +ℤ total_at levels r)
  Aggregates acc levels (err invalid_argument) = ¬ All IsProper levels
  Aggregates acc levels (err overflow_error) =
      All IsProper levels → (r : ℤ) × (int64_max <ℤ quantity_at acc r +ℤ total_at levels r)
  Aggregates acc levels (err _) = ⊥

  total-step :
      (acc next levels : List PriceLevel) (x : PriceLevel) (r : ℤ)
      → IsUpdate before order acc x.price_ticks (quantity_at acc x.price_ticks +ℤ x.quantity) next
      → quantity_at next r +ℤ total_at levels r ≡ quantity_at acc r +ℤ total_at (x ∷ levels) r
  unfolding total_at
  total-step acc next levels x r u = ground (
    arith,
    u.map_eq r,
    (eqb_ℤ_iff x.price_ticks r).0,
    +ℤ_parts (quantity_at acc r) x.quantity,
    +ℤ_parts (quantity_at acc r +ℤ x.quantity) (total_at levels r),
    +ℤ_parts x.quantity (total_at levels r),
    +ℤ_parts (quantity_at acc r) (x.quantity +ℤ total_at levels r),
    eq_of_parts (quantity_at acc r +ℤ x.quantity +ℤ total_at levels r)
        (quantity_at acc r +ℤ (x.quantity +ℤ total_at levels r)),
  )

  Aggregates-step :
      (acc next levels : List PriceLevel) (x : PriceLevel) (r : Result (List PriceLevel))
      → AggregatesOne acc x (ok next)
      → Aggregates next levels r
      → Aggregates acc (x ∷ levels) r
  Aggregates-step acc next levels x (ok ys) one rest =
      ((one.0, rest.0), rest.1, λ r. rest.2 r ∙ total-step acc next levels x r one.1)
  Aggregates-step acc next levels x (err invalid_argument) one rest = λ proper. rest proper.1
  Aggregates-step acc next levels x (err overflow_error) one rest = λ proper.
      let (r, big) = rest proper.1 in
      (r, subst (λ t. int64_max <ℤ t) (total-step acc next levels x r one.1) big)
  Aggregates-step acc next levels x (err logic_error) one rest = rest
  Aggregates-step acc next levels x (err runtime_error) one rest = rest
  Aggregates-step acc next levels x (err out_of_range) one rest = rest
  Aggregates-step acc next levels x (err undefined_behaviour) one rest = rest
  Aggregates-step acc next levels x (err out_of_fuel) one rest = rest

  Aggregates-stop :
      (acc levels : List PriceLevel) (x : PriceLevel) (e : Error)
      → AggregatesOne acc x (err e)
      → Aggregates acc (x ∷ levels) (err e)
  unfolding total_at
  Aggregates-stop acc levels x invalid_argument one = λ proper. one proper.0
  Aggregates-stop acc levels x overflow_error one = λ proper. (
    x.price_ticks,
    ground (
      arith,
      one,
      total_at_nonneg levels x.price_ticks proper.1,
      +ℤ_parts (quantity_at acc x.price_ticks) x.quantity,
      +ℤ_parts x.quantity (total_at levels x.price_ticks),
      +ℤ_parts (quantity_at acc x.price_ticks) (x.quantity +ℤ total_at levels x.price_ticks),
    ),
  )
  Aggregates-stop acc levels x logic_error one = one
  Aggregates-stop acc levels x runtime_error one = one
  Aggregates-stop acc levels x out_of_range one = one
  Aggregates-stop acc levels x undefined_behaviour one = one
  Aggregates-stop acc levels x out_of_fuel one = one

  Aggregates-bind :
      (acc levels : List PriceLevel) (x : PriceLevel) (r : Result (List PriceLevel))
      → AggregatesOne acc x r
      → ((next : List PriceLevel)
          → IsSide before order next
          → Aggregates next levels (aggregate_all before next levels))
      → Aggregates acc (x ∷ levels) (and_then r λ next. aggregate_all before next levels)
  Aggregates-bind acc levels x (ok next) one rest =
      Aggregates-step acc next levels x (aggregate_all before next levels) one
        (rest next one.1.sorted)
  Aggregates-bind acc levels x (err e) one rest = Aggregates-stop acc levels x e one

  aggregate_all-Aggregates :
      (acc levels : List PriceLevel)
      → IsSide before order acc
      → All IsWord levels
      → Aggregates acc levels (aggregate_all before acc levels)
  unfolding aggregate_all total_at
  aggregate_all-Aggregates acc [] side words = (tt, side, λ r. omega int_laws)
  aggregate_all-Aggregates acc (x ∷ levels) side words =
      Aggregates-bind acc levels x (aggregate before acc x)
        (aggregate-Aggregates_one acc x side words.0)
        λ next h. aggregate_all-Aggregates next levels h words.1

  -- Normalising the levels of a snapshot, all of them 64-bit: the result is a sorted side in
  -- which every price holds the sum of the quantities given for it, and then no level was
  -- negative; `invalid_argument` is thrown only if some level is negative, and `overflow_error`,
  -- where none is, only if the quantities of some price sum to more than INT64_MAX. Nothing
  -- else is thrown.
  pub normalize-Aggregates :
      (levels : List PriceLevel)
      → All IsWord levels
      → Aggregates [] levels (normalize before levels)
  unfolding normalize
  normalize-Aggregates levels words = aggregate_all-Aggregates [] levels tt words

-- ===== src/OrderBook/Levels/Adjust.antt =====
-- `update_levels` and `adjust_levels` (src/order_book.cpp) against the map that a side stands for.
use cmarket.Prelude.{
  ◌≡◌, ◌⊎◌, ℤ, pos, ◌+ℤ◌, ◌-ℤ◌, ◌<ℤ◌, ◌≤ℤ◌, neg, eqb_ℤ, eqb_ℤ_iff, eq_of_parts, +ℤ_parts, -ℤ_parts,
  neg_parts, int64_max, int64_min, Bool, List, set, none, some, if◌then◌else◌, Result, ok, err,
  invalid_argument, overflow_error, arith, inl, inr, Option-cases,
}
use cmarket.Prelude.Order.{IsStrictOrder}
use cmarket.OrderBook.Levels.{
  PriceLevel, insert_at, erase_at, lower_bound, level_at, validate_level, validate_adjustment_price,
  update_levels, adjust_levels, adjust_missing, adjust_existing,
}
use cmarket.OrderBook.Levels.Sorted.{
  quantity_at, IsSide, IsLevel, level_at-quantity, level_at-some, quantity_at-insert,
  quantity_at-set, quantity_at-erase, insert_at-IsSide, set-IsSide, erase_at-IsSide,
}

module _ (before : ℤ → ℤ → Bool) (order : IsStrictOrder before) where
  -- The side `ys` is `xs` with the quantity `q` at the price `p`.
  pub record IsUpdate (xs : List PriceLevel) (p q : ℤ) (ys : List PriceLevel) : Type 0 where
    pub sorted : IsSide before order ys
    pub map_eq : (r : ℤ) → quantity_at ys r ≡ (if eqb_ℤ p r then q else quantity_at xs r)

  -- What an adjustment may do, by its outcome.
  abbrev pub Adjusts : List PriceLevel → ℤ → ℤ → Result (List PriceLevel) → Type 0
  Adjusts xs p d (ok ys) =
      IsUpdate xs p (quantity_at xs p +ℤ d) ys
      × (pos 0 ≤ℤ quantity_at xs p +ℤ d)
      × (quantity_at xs p +ℤ d ≤ℤ int64_max)
  Adjusts xs p d (err invalid_argument) = quantity_at xs p +ℤ d <ℤ pos 0
  Adjusts xs p d (err overflow_error) = int64_max <ℤ quantity_at xs p +ℤ d
  Adjusts xs p d (err _) = ⊥

  module _ (xs : List PriceLevel) (p q : ℤ) (side : IsSide before order xs) where
    pub keep-IsUpdate : q ≡ quantity_at xs p → IsUpdate xs p q xs
    keep-IsUpdate e = record { sorted = side; map_eq = λ r. ground (arith, eqb_ℤ_iff p r) }

    pub insert-IsUpdate :
        (d : ℤ)
        → level_at xs (lower_bound before xs p) p ≡ none
        → IsLevel (record { price_ticks = p; quantity = d })
        → d ≡ q
        → IsUpdate xs p q
            (insert_at (lower_bound before xs p) (record { price_ticks = p; quantity = d }) xs)
    insert-IsUpdate d h l e = record {
      sorted = insert_at-IsSide before order xs p d l side h;
      map_eq = λ r. rw (← e) (quantity_at-insert before order xs p d r);
    }

    pub set-IsUpdate :
        (v l : PriceLevel)
        → level_at xs (lower_bound before xs p) p ≡ some l
        → IsLevel v
        → v.price_ticks ≡ p
        → v.quantity ≡ q
        → IsUpdate xs p q (set xs (lower_bound before xs p) v)
    set-IsUpdate v l h hv ep eq = record {
      sorted = set-IsSide before order xs p v l hv ep side h;
      map_eq = λ r.
          rw (← eq) (quantity_at-set before order xs p r v l ((eqb_ℤ_iff v.price_ticks p).1 ep) h);
    }

    erase-IsUpdate :
        (l : PriceLevel)
        → level_at xs (lower_bound before xs p) p ≡ some l
        → pos 0 ≡ q
        → IsUpdate xs p q (erase_at (lower_bound before xs p) xs)
    erase-IsUpdate l h eq = record {
      sorted = erase_at-IsSide before order xs (lower_bound before xs p) side;
      map_eq = λ r. rw (← eq) (quantity_at-erase before order xs p r l side h);
    }

  module _ (xs : List PriceLevel) (p d : ℤ) (side : IsSide before order xs) (priced : pos 0 ≤ℤ p)
      (low : int64_min ≤ℤ d) (high : d ≤ℤ int64_max) where
    adjust_missing-Adjusts :
        level_at xs (lower_bound before xs p) p ≡ none
        → quantity_at xs p ≡ pos 0
        → Adjusts xs p d (adjust_missing before xs (lower_bound before xs p) p d)
    unfolding adjust_missing
    adjust_missing-Adjusts h e = ground (
      arith,
      +ℤ_parts (quantity_at xs p) d,
      eq_of_parts d (quantity_at xs p +ℤ d),
      eq_of_parts (quantity_at xs p +ℤ d) (quantity_at xs p),
      keep-IsUpdate xs p (quantity_at xs p +ℤ d) side,
      insert-IsUpdate xs p (quantity_at xs p +ℤ d) side d h,
    )

    adjust_existing-Adjusts :
        (l : PriceLevel)
        → level_at xs (lower_bound before xs p) p ≡ some l
        → quantity_at xs p ≡ l.quantity
        → Adjusts xs p d (adjust_existing before xs (lower_bound before xs p) l d)
    unfolding adjust_existing
    adjust_existing-Adjusts l h e = ground (
      arith,
      e,
      level_at-some before order xs p l side h,
      (eqb_ℤ_iff l.price_ticks p).0,
      +ℤ_parts l.quantity d,
      -ℤ_parts int64_max d,
      neg_parts d,
      -ℤ_parts l.quantity (neg d),
      eq_of_parts (l.quantity +ℤ d) l.quantity,
      eq_of_parts (l.quantity -ℤ neg d) (l.quantity +ℤ d),
      eq_of_parts (pos 0) (l.quantity +ℤ d),
      keep-IsUpdate xs p (l.quantity +ℤ d) side,
      set-IsUpdate xs p (l.quantity +ℤ d) side (record l { quantity = l.quantity +ℤ d }) l h,
      set-IsUpdate xs p (l.quantity +ℤ d) side (record l { quantity = l.quantity -ℤ neg d }) l h,
      erase-IsUpdate xs p (l.quantity +ℤ d) side l h,
    )

    -- `adjust_levels` refines the map update at `price_ticks`, on a sorted side and for any 64-bit
    -- delta and a price that is not negative: it returns a sorted side in which exactly that
    -- price holds the sum, in range; or it throws `invalid_argument`, and the sum is negative;
    -- or it throws `overflow_error`, and the sum is above INT64_MAX. It throws nothing else.
    pub adjust_levels-Adjusts : Adjusts xs p d (adjust_levels before xs p d)
    unfolding adjust_levels validate_adjustment_price
    adjust_levels-Adjusts =
        let q = level_at-quantity before order xs p side in
        elim (Option-cases (level_at xs (lower_bound before xs p) p)) [
          | inl e ↦ ground (arith, e, q, adjust_missing-Adjusts e)
          | inr (l, e) ↦ ground (arith, e, q, adjust_existing-Adjusts l e)
        ]

  -- A successful adjustment had a price that is not negative.
  pub adjust_levels-priced :
      (xs : List PriceLevel) (p d : ℤ) {ys : List PriceLevel}
      → adjust_levels before xs p d ≡ ok ys
      → pos 0 ≤ℤ p
  unfolding adjust_levels validate_adjustment_price
  adjust_levels-priced xs p d e = ground arith

  -- What an update may do, by its outcome.
  abbrev pub Updates : List PriceLevel → ℤ → ℤ → Result (List PriceLevel) → Type 0
  Updates xs p q (ok ys) = IsUpdate xs p q ys × (pos 0 ≤ℤ p) × (pos 0 ≤ℤ q)
  Updates xs p q (err invalid_argument) = (p <ℤ pos 0) ⊎ (q <ℤ pos 0)
  Updates xs p q (err _) = ⊥

  -- `update_bid_levels` and `update_ask_levels` on a sorted side, for any 64-bit quantity: the
  -- call returns the sorted side in which exactly that price holds the given quantity (none, if
  -- that is 0), and it throws, `invalid_argument`, only on a negative price or quantity.
  pub update_levels-Updates :
      (xs : List PriceLevel) (p q : ℤ)
      → IsSide before order xs
      → q ≤ℤ int64_max
      → Updates xs p q (update_levels before xs p q)
  unfolding update_levels validate_level
  update_levels-Updates xs p q side high =
      let found = level_at-quantity before order xs p side in
      let level : PriceLevel = record { price_ticks = p; quantity = q } in
      elim (Option-cases (level_at xs (lower_bound before xs p) p)) [
        | inl e ↦ ground (
          arith,
          e,
          found,
          eq_of_parts q (quantity_at xs p),
          keep-IsUpdate xs p q side,
          insert-IsUpdate xs p q side q e,
        )
        | inr (l, e) ↦ ground (
          arith,
          e,
          found,
          eq_of_parts (pos 0) q,
          set-IsUpdate xs p q side level l e,
          erase-IsUpdate xs p q side l e,
        )
      ]

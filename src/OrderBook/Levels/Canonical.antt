-- ===== src/OrderBook/Levels/Canonical.antt =====
-- A side is determined by the map that it stands for.
use cmarket.Prelude.{
  ◌≡◌, refl, sym, ap, ap₂, pos_part, neg_part, ℤ, pos, ◌<ℤ◌, ◌≤ℤ◌, ◌+ℤ◌, neg, int64_max, int64_min,
  +ℤ_parts, neg_parts, eq_of_parts, Result, ok, err, invalid_argument, overflow_error, logic_error,
  runtime_error, out_of_range, undefined_behaviour, out_of_fuel, eqb_ℤ_iff, Bool, List, [], ◌∷◌,
  arith, inl, inr, Bool-cases,
}
use cmarket.Prelude.Order.{IsStrictOrder}
use cmarket.OrderBook.Levels.{PriceLevel, adjust_levels}
use cmarket.OrderBook.Levels.Adjust.{Adjusts, IsUpdate, adjust_levels-Adjusts}
use cmarket.OrderBook.Levels.Sorted.{
  quantity_at, IsSide, IsLevel, quantity_at_ahead, quantity_at_there, IsAhead-trans, IsAhead,
}

module _ (before : ℤ → ℤ → Bool) (order : IsStrictOrder before) where
  abbrev SameMap : List PriceLevel → List PriceLevel → Type 0
  SameMap xs ys = (r : ℤ) → quantity_at xs r ≡ quantity_at ys r

  quantity_at_head :
      (x : PriceLevel) (xs : List PriceLevel) → quantity_at (x ∷ xs) x.price_ticks ≡ x.quantity
  unfolding quantity_at
  quantity_at_head x xs = ground arith

  not-IsAhead :
      (x : PriceLevel) (xs ys : List PriceLevel)
      → IsLevel x
      → SameMap (x ∷ xs) ys
      → ¬ IsAhead before order x.price_ticks ys
  not-IsAhead x xs ys l same h = ground (
    arith,
    quantity_at_head x xs,
    same x.price_ticks,
    quantity_at_ahead before order x.price_ticks ys h,
  )

  SameMap-tail :
      (x y : PriceLevel) (xs ys : List PriceLevel)
      → IsSide before order (x ∷ xs)
      → IsSide before order (y ∷ ys)
      → x.price_ticks ≡ y.price_ticks
      → SameMap (x ∷ xs) (y ∷ ys)
      → SameMap xs ys
  unfolding quantity_at
  SameMap-tail x y xs ys hx hy e same r = ground (
    arith,
    same r,
    quantity_at_there before order x r xs hx,
    quantity_at_there before order y r ys hy,
  )

  same_price :
      (x y : PriceLevel) (xs ys : List PriceLevel)
      → IsSide before order (x ∷ xs)
      → IsSide before order (y ∷ ys)
      → SameMap (x ∷ xs) (y ∷ ys)
      → x.price_ticks ≡ y.price_ticks
  same_price x y xs ys hx hy same = elim (Bool-cases (before x.price_ticks y.price_ticks)) [
    | inl e ↦ absurd (
        not-IsAhead x xs (y ∷ ys) hx.0 same
          (e, IsAhead-trans before order x.price_ticks y.price_ticks ys e hy.1))
    | inr e ↦ elim (Bool-cases (before y.price_ticks x.price_ticks)) [
      | inl f ↦ absurd (
          not-IsAhead y ys (x ∷ xs) hy.0 (λ r. sym (same r))
            (f, IsAhead-trans before order y.price_ticks x.price_ticks xs f hx.1))
      | inr f ↦ order.tri x.price_ticks y.price_ticks e f
    ]
  ]

  same_level :
      (x y : PriceLevel) (xs ys : List PriceLevel)
      → SameMap (x ∷ xs) (y ∷ ys)
      → x.price_ticks ≡ y.price_ticks
      → x ≡ y
  same_level x y xs ys same e =
      ground (arith, quantity_at_head x xs, quantity_at_head y ys, same x.price_ticks, e)

  -- Two sides with the same quantity at every price are the same vector.
  pub IsSide-canonical :
      (xs ys : List PriceLevel)
      → IsSide before order xs
      → IsSide before order ys
      → SameMap xs ys
      → xs ≡ ys
  IsSide-canonical [] [] hx hy same = refl
  IsSide-canonical [] (y ∷ ys) hx hy same = absurd (not-IsAhead y ys [] hy.0 (λ r. sym (same r)) tt)
  IsSide-canonical (x ∷ xs) [] hx hy same = absurd (not-IsAhead x xs [] hx.0 same tt)
  IsSide-canonical (x ∷ xs) (y ∷ ys) hx hy same =
      let e : x.price_ticks ≡ y.price_ticks = same_price x y xs ys hx hy same in
      ap₂ ◌∷◌ (same_level x y xs ys same e)
        (IsSide-canonical xs ys hx.2 hy.2 (SameMap-tail x y xs ys hx hy e same))

  pub quantity_at_bounds :
      (xs : List PriceLevel) (p : ℤ)
      → IsSide before order xs
      → (pos 0 ≤ℤ quantity_at xs p) × (quantity_at xs p ≤ℤ int64_max)
  unfolding quantity_at
  quantity_at_bounds [] p h = omega arith
  quantity_at_bounds (x ∷ xs) p h = ground (arith, quantity_at_bounds xs p h.2)

  module _ (xs ys : List PriceLevel) (p d : ℤ) (side : IsSide before order xs) where
    undo_map :
        (zs : List PriceLevel)
        → IsUpdate before order xs p (quantity_at xs p +ℤ d) ys
        → IsUpdate before order ys p (quantity_at ys p +ℤ neg d) zs
        → zs ≡ xs
    undo_map zs u v = IsSide-canonical zs xs v.sorted side λ r. ground (
      arith,
      u.map_eq r,
      u.map_eq p,
      v.map_eq r,
      (eqb_ℤ_iff p r).0,
      +ℤ_parts (quantity_at xs p) d,
      neg_parts d,
      +ℤ_parts (quantity_at xs p +ℤ d) (neg d),
      eq_of_parts (quantity_at xs p +ℤ d +ℤ neg d) (quantity_at xs p),
    )

    undo_sum :
        IsUpdate before order xs p (quantity_at xs p +ℤ d) ys
        → quantity_at ys p +ℤ neg d ≡ quantity_at xs p
    undo_sum u = ground (
      arith,
      u.map_eq p,
      +ℤ_parts (quantity_at xs p) d,
      neg_parts d,
      +ℤ_parts (quantity_at xs p +ℤ d) (neg d),
      eq_of_parts (quantity_at xs p +ℤ d +ℤ neg d) (quantity_at xs p),
    )

    undo_outcome :
        (r : Result (List PriceLevel))
        → IsUpdate before order xs p (quantity_at xs p +ℤ d) ys
        → Adjusts before order ys p (neg d) r
        → r ≡ ok xs
    undo_outcome (ok zs) u a = ap ok (undo_map zs u a.0)
    undo_outcome (err invalid_argument) u a = absurd (
        omega (
          arith,
          a,
          ap pos_part (undo_sum u),
          ap neg_part (undo_sum u),
          quantity_at_bounds xs p side,
        ))
    undo_outcome (err overflow_error) u a = absurd (
        omega (
          arith,
          a,
          ap pos_part (undo_sum u),
          ap neg_part (undo_sum u),
          quantity_at_bounds xs p side,
        ))
    undo_outcome (err logic_error) u a = absurd a
    undo_outcome (err runtime_error) u a = absurd a
    undo_outcome (err out_of_range) u a = absurd a
    undo_outcome (err undefined_behaviour) u a = absurd a
    undo_outcome (err out_of_fuel) u a = absurd a

    -- An adjustment that succeeded is undone exactly by the opposite one, as the rollbacks of the
    -- matching engine rely on: on a sorted side, at a price that is not negative, for a 64-bit
    -- delta above INT64_MIN, the second call succeeds and gives back the very vector.
    pub adjust_levels-undo :
        pos 0 ≤ℤ p
        → int64_min <ℤ d
        → d ≤ℤ int64_max
        → adjust_levels before xs p d ≡ ok ys
        → adjust_levels before ys p (neg d) ≡ ok xs
    adjust_levels-undo priced low high done =
        let a : Adjusts before order xs p d (ok ys) =
          rw done at (adjust_levels-Adjusts before order xs p d side priced (omega arith) high) in
        undo_outcome (adjust_levels before ys p (neg d)) a.0 (
          adjust_levels-Adjusts before order ys p (neg d) a.0.sorted priced
            (omega (arith, neg_parts d)) (omega (arith, neg_parts d)))

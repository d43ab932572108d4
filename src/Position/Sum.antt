-- ===== src/Position/Sum.antt =====
-- The quantity of a position after any trade (include/position.hpp).
use cmarket.Prelude.{
  ◌≡◌, refl, sym, subst, ◌⊎◌, inl, inr, false, ◌||◌, arith, Bool-cases, ◌+ℤ◌, ◌*ℤ◌, neg, ◌/ℤ◌,
  ltb_ℤ, leb_ℤ, eqb_ℤ, min_ℤ, +ℤ_parts, eq_of_parts, ℤ, Result, pos, ok, err, invalid_argument,
  undefined_behaviour,
}
use cmarket.Int64.{checked, to_int64}
use cmarket.Position.{
  Position, price_difference, absolute_quantity, add_quantity, increase, realize, settle, reduce,
  apply_trade,
}
use cmarket.Position.Pnl.{magnitude}
use cmarket.Position.Reduce.{IsAgainst}
use cmarket.Position.Increase.{IsAlong}

-- A trade adds its quantity, or throws: with an argument that is refused nothing has changed.
abbrev pub Sums : ℤ → Position → Result (Unit {0}) × Position → Type 0
Sums q p (ok _, p') = p'.quantity ≡ p.quantity +ℤ q
Sums q p (err x, p') = ((x ≡ invalid_argument) × (p' ≡ p)) ⊎ (x ≡ undefined_behaviour)

module _ (q : ℤ) where
  checked-cases : (n : ℤ) → (checked n ≡ ok n) ⊎ (checked n ≡ err undefined_behaviour)
  unfolding checked
  checked-cases n = ground arith

  absolute_quantity-cases :
      (n : ℤ)
      → (absolute_quantity n ≡ ok (magnitude n)) ⊎ (absolute_quantity n ≡ err undefined_behaviour)
  unfolding absolute_quantity neg checked
  absolute_quantity-cases n = ground arith

  -- An overflow, or the sum with some average.
  abbrev Ends : Position → Result (Unit {0}) × Position → Type 0
  Ends p r =
      ((s : Position) × (r ≡ (err undefined_behaviour, s)))
      ⊎ ((s : Position) × (s.quantity ≡ p.quantity +ℤ q) × (r ≡ (ok tt, s)))

  Ends-Sums : (p : Position) (r : Result (Unit {0}) × Position) → Ends p r → Sums q p r
  Ends-Sums p r h = elim h [
    | inl (s, e) ↦ subst (Sums q p) (sym e) (inr refl)
    | inr (s, sum, e) ↦ subst (Sums q p) (sym e) sum
  ]

  increase-Ends : (price : ℤ) (p : Position) → Ends p (increase q price p)
  unfolding increase add_quantity
  increase-Ends price p = elim (absolute_quantity-cases p.quantity) [
    | inr h ↦ inl (p, ground (arith, h))
    | inl h ↦ elim (absolute_quantity-cases q) [
      | inr k ↦ inl (p, ground (arith, h, k))
      | inl k ↦ elim (checked-cases (magnitude p.quantity +ℤ magnitude q)) [
        | inr l ↦ inl (p, ground (arith, h, k, l))
        | inl l ↦
            let averaged : Position = record p {
              average_entry_price_ticks = to_int64 (
                  (p.average_entry_price_ticks *ℤ magnitude p.quantity +ℤ price *ℤ magnitude q)
                  /ℤ (magnitude p.quantity +ℤ magnitude q));
            } in
            elim (checked-cases (p.quantity +ℤ q)) [
              | inr m ↦ inl (averaged, ground (arith, h, k, l, m))
              | inl m ↦
                  inr (
                    record averaged { quantity = p.quantity +ℤ q },
                    refl,
                    ground (arith, h, k, l, m),
                  )
            ]
      ]
    ]
  ]

  settle-Ends :
      (price : ℤ) (p : Position)
      → IsAgainst q p
      → Ends p (settle q price (magnitude p.quantity) (magnitude q) p)
  unfolding settle add_quantity
  settle-Ends price p against = elim (Bool-cases (eqb_ℤ (magnitude q) (magnitude p.quantity))) [
    | inl same ↦ inr (
      record p { quantity = pos 0; average_entry_price_ticks = pos 0 },
      eq_of_parts _ _ (ground (arith, same, against, +ℤ_parts p.quantity q)),
      ground (arith, same),
    )
    | inr other ↦ elim (checked-cases (p.quantity +ℤ q)) [
      | inr m ↦ inl (p, ground (arith, other, m))
      | inl m ↦ elim (Bool-cases (ltb_ℤ (magnitude q) (magnitude p.quantity))) [
        | inl less ↦ inr (record p { quantity = p.quantity +ℤ q }, refl, ground (arith, less, m))
        | inr more ↦ inr (
          record p { quantity = p.quantity +ℤ q; average_entry_price_ticks = price },
          refl,
          ground (arith, other, more, m),
        )
      ]
    ]
  ]

  reduce-Ends : (price : ℤ) (p : Position) → IsAgainst q p → Ends p (reduce q price p)
  unfolding reduce realize
  reduce-Ends price p against = elim (absolute_quantity-cases p.quantity) [
    | inr h ↦ inl (p, ground (arith, h))
    | inl h ↦ elim (absolute_quantity-cases q) [
      | inr k ↦ inl (p, ground (arith, h, k))
      | inl k ↦
          let sum : ℤ =
            p.realized_pnl_ticks
            +ℤ to_int64 (price_difference price p *ℤ min_ℤ (magnitude p.quantity) (magnitude q)) in
          elim (checked-cases sum) [
            | inr l ↦ inl (p, ground (arith, h, k, l))
            | inl l ↦
                let eq : reduce q price p
                    ≡ settle q price (magnitude p.quantity) (magnitude q)
                        (record p { realized_pnl_ticks = sum }) =
                  ground (arith, h, k, l) in
                subst (Ends p) (sym eq)
                  (settle-Ends price (record p { realized_pnl_ticks = sum }) against)
          ]
    ]
  ]

-- A trade of any quantity at any price.
pub apply_trade-Sums : (q price : ℤ) (p : Position) → Sums q p (apply_trade q price p)
unfolding apply_trade
apply_trade-Sums q price p = elim (Bool-cases (eqb_ℤ q (pos 0) || leb_ℤ price (pos 0))) [
  | inl refused ↦
      let eq : apply_trade q price p ≡ (err invalid_argument, p) = ground (arith, refused) in
      subst (Sums q p) (sym eq) (inl (refl, refl))
  | inr accepted ↦ elim (directions q p accepted) [
    | inl flat ↦
        let eq : apply_trade q price p
            ≡ (ok tt, record p { quantity = q; average_entry_price_ticks = price }) =
          ground (arith, accepted, flat) in
        subst (Sums q p) (sym eq)
          (eq_of_parts q (p.quantity +ℤ q) (ground (arith, flat, +ℤ_parts p.quantity q)))
    | inr (inl along) ↦
        let eq : apply_trade q price p ≡ increase q price p = elim along [
          | inl (long, bought) ↦ ground (arith, accepted, long, bought)
          | inr (short, sold) ↦ ground (arith, accepted, short, sold)
        ] in
        subst (Sums q p) (sym eq) (Ends-Sums q p (increase q price p) (increase-Ends q price p))
    | inr (inr against) ↦
        let eq : apply_trade q price p ≡ reduce q price p = elim against [
          | inl (long, sold) ↦ ground (arith, accepted, long, sold)
          | inr (short, bought) ↦ ground (arith, accepted, short, bought)
        ] in
        subst (Sums q p) (sym eq) (Ends-Sums q p (reduce q price p) (reduce-Ends q price p against))
  ]
]
  where
    directions :
        (q : ℤ) (p : Position)
        → eqb_ℤ q (pos 0) || leb_ℤ price (pos 0) ≡ false
        → (p.quantity ≡ pos 0) ⊎ IsAlong q p ⊎ IsAgainst q p
    directions q p h = ground (arith, h)

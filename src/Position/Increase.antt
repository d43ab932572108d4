-- ===== src/Position/Increase.antt =====
-- Trades in the direction of a position (include/position.hpp).
use native.Mathlib.Nat.{div-add-mod, mod-lt}
use cmarket.Prelude.{
  ℕ, ◌+◌, ◌*◌, ◌/◌, ◌%◌, ◌≤◌, ◌<◌, ◌≡◌, refl, sym, ap, ap₂, subst, ◌∙◌, ◌⊎◌, inl, inr, arith,
  pos_part, neg_part, ◌+ℤ◌, ◌-ℤ◌, ◌*ℤ◌, neg, ◌/ℤ◌, ◌≤ℤ◌, ◌<ℤ◌, int64_max, int64_min, +ℤ_parts,
  neg_parts, eq_of_parts, ℤ, Result, pos, ok, err,
}
use cmarket.Int64.{checked, to_int64, to_int64_in_range}
use cmarket.Position.{Position, absolute_quantity, add_quantity, increase, apply_trade}
use cmarket.Position.Products.{average_pos, average-le, le-average, round_long, round_short}
use cmarket.Position.Pnl.{worth, magnitude, absolute_quantity-magnitude}

-- The sum of 64-bit quantities fits into 64 bits, and neither price is negative.
pub record FitsTogether (q price : ℤ) (p : Position) : Type 0 where
  pub low : int64_min <ℤ p.quantity +ℤ q
  pub high : p.quantity +ℤ q ≤ℤ int64_max
  pub average : (pos 0 ≤ℤ p.average_entry_price_ticks) × (p.average_entry_price_ticks ≤ℤ int64_max)
  pub priced : (pos 0 <ℤ price) × (price ≤ℤ int64_max)

-- Both the position and the trade are long, or both are short.
abbrev pub IsAlong : ℤ → Position → Type 0
IsAlong q p = ((pos 0 <ℤ p.quantity) × (pos 0 <ℤ q)) ⊎ ((p.quantity <ℤ pos 0) × (q <ℤ pos 0))

-- What rounding the average adds to what the position is worth.
abbrev pub IsRounding : ℤ → ℤ → Type 0
IsRounding quantity r = ((pos 0 ≤ℤ r) × (r <ℤ quantity)) ⊎ ((quantity <ℤ r) × (r ≤ℤ pos 0))

-- What a trade in the direction of the position leads to.
abbrev pub Increased : ℤ → ℤ → Position → Result (Unit {0}) × Position → Type 0
Increased q price p (ok _, p') =
    (p'.quantity ≡ p.quantity +ℤ q)
    × (p'.realized_pnl_ticks ≡ p.realized_pnl_ticks)
    × ((k : ℤ) → p.average_entry_price_ticks ≤ℤ k → price ≤ℤ k → p'.average_entry_price_ticks ≤ℤ k)
    × ((k : ℤ) → k ≤ℤ p.average_entry_price_ticks → k ≤ℤ price → k ≤ℤ p'.average_entry_price_ticks)
    × ((r : ℤ) × (worth price p' ≡ worth price p +ℤ r) × IsRounding (p.quantity +ℤ q) r)
    × (p'.symbol ≡ p.symbol)
Increased q price p (err x, p') = ⊥

module _ (q price : ℤ) (p : Position) (f : FitsTogether q price p) (along : IsAlong q p) where
  abbrev old : ℕ
  old = pos_part p.quantity + neg_part p.quantity

  abbrev more : ℕ
  more = pos_part q + neg_part q

  abbrev total : ℕ
  total = pos_part p.average_entry_price_ticks * old + pos_part price * more

  abbrev average_price : ℕ
  average_price = total / (old + more)

  old_positive : 0 < old
  old_positive = ground (arith, along)

  bounds : (k : ℕ) → p.average_entry_price_ticks ≤ℤ pos k → price ≤ℤ pos k → average_price ≤ k
  bounds k h h' =
      average-le (pos_part p.average_entry_price_ticks) old (pos_part price) more k old_positive
        (ground (arith, h)) (ground (arith, h'))

  signs :
      (p.average_entry_price_ticks ≡ pos (pos_part p.average_entry_price_ticks))
      × (price ≡ pos (pos_part price))
  signs = ground (arith, f.average, f.priced)

  average_eq :
      to_int64 (
        (p.average_entry_price_ticks *ℤ magnitude p.quantity +ℤ price *ℤ magnitude q)
        /ℤ (magnitude p.quantity +ℤ magnitude q))
      ≡ pos average_price
  average_eq =
      ap (λ (x, y). to_int64 ((x *ℤ pos old +ℤ y *ℤ pos more) /ℤ (pos old +ℤ pos more)))
        (ap₂ (λ x y. (x, y)) signs.0 signs.1)
      ∙ ap to_int64 (average_pos (pos_part p.average_entry_price_ticks) old (pos_part price) more)
      ∙ to_int64_in_range (pos average_price)
          (ground (arith, bounds 9223372036854775807 f.average.1 f.priced.1))

  abbrev grown : Position
  grown = record p { quantity = p.quantity +ℤ q; average_entry_price_ticks = pos average_price }

  within :
      (int64_min <ℤ p.quantity)
      × (p.quantity ≤ℤ int64_max)
      × (int64_min <ℤ q)
      × (q ≤ℤ int64_max)
      × (old + more < 9223372036854775808)
  within = ground (arith, along, f.low, f.high, +ℤ_parts p.quantity q)

  sizes :
      (absolute_quantity p.quantity ≡ ok (pos old))
      × (absolute_quantity q ≡ ok (pos more))
      × (checked (pos old +ℤ pos more) ≡ ok (pos old +ℤ pos more))
      × (checked (p.quantity +ℤ q) ≡ ok (p.quantity +ℤ q))
  unfolding checked
  sizes = (
    absolute_quantity-magnitude p.quantity within.0 within.1,
    absolute_quantity-magnitude q within.2 within.3,
    ground (arith, within.4, +ℤ_parts (pos old) (pos more)),
    ground (arith, f.low, f.high),
  )

  run : increase q price p ≡ (ok tt, grown)
  unfolding increase add_quantity
  run = ground (arith, sizes, average_eq)

  abbrev rest : ℕ
  rest = total % (old + more)

  worth_at :
      (held : ℤ)
      → p.quantity ≡ held
      → worth price p
        ≡ p.realized_pnl_ticks
          +ℤ (pos (pos_part price) -ℤ pos (pos_part p.average_entry_price_ticks)) *ℤ held
  worth_at held h = cc (h, signs.0, signs.1)

  rest_lt : total % (old + more) < old + more
  rest_lt = mod-lt total (omega (arith, old_positive))

  rounded : (r : ℤ) × (worth price grown ≡ worth price p +ℤ r) × IsRounding (p.quantity +ℤ q) r
  rounded = elim along [
    | inl (long, bought) ↦
        let held : p.quantity ≡ pos old = ground (arith, long) in
        let sum : p.quantity +ℤ q ≡ pos (old + more) =
          eq_of_parts _ _ (ground (arith, long, bought, +ℤ_parts p.quantity q)) in
        (
          pos rest,
          ap₂ (λ x z. p.realized_pnl_ticks +ℤ (x -ℤ pos average_price) *ℤ z) signs.1 sum
              ∙ round_long p.realized_pnl_ticks (pos_part price)
                  (pos_part p.average_entry_price_ticks) old more average_price rest
                  (div-add-mod total (old + more))
              ∙ ap (λ x. x +ℤ pos rest) (sym (worth_at (pos old) held)),
          inl (omega arith, ground (arith, sum, rest_lt)),
        )
    | inr (short, sold) ↦
        let held : p.quantity ≡ neg (pos old) =
          eq_of_parts _ _ (ground (arith, short, neg_parts (pos old))) in
        let sum : p.quantity +ℤ q ≡ neg (pos (old + more)) =
          eq_of_parts _ _
            (ground (arith, short, sold, +ℤ_parts p.quantity q, neg_parts (pos (old + more)))) in
        (
          neg (pos rest),
          ap₂ (λ x z. p.realized_pnl_ticks +ℤ (x -ℤ pos average_price) *ℤ z) signs.1 sum
              ∙ round_short p.realized_pnl_ticks (pos_part price)
                  (pos_part p.average_entry_price_ticks) old more average_price rest
                  (div-add-mod total (old + more))
              ∙ ap (λ x. x +ℤ neg (pos rest)) (sym (worth_at (neg (pos old)) held)),
          inr (
            ground (arith, sum, rest_lt, neg_parts (pos rest), neg_parts (pos (old + more))),
            omega (arith, neg_parts (pos rest)),
          ),
        )
  ]

  average_high :
      (k : ℤ) → p.average_entry_price_ticks ≤ℤ k → price ≤ℤ k → average_price ≤ pos_part k
  average_high k h h' = bounds (pos_part k) (ground (arith, h)) (ground (arith, h'))

  average_low : (k : ℤ) → k ≤ℤ p.average_entry_price_ticks → k ≤ℤ price → pos_part k ≤ average_price
  average_low k h h' =
      le-average (pos_part p.average_entry_price_ticks) old (pos_part price) more (pos_part k)
        old_positive (ground (arith, h, f.average)) (ground (arith, h', f.priced))

  run-Increased : Increased q price p (increase q price p)
  run-Increased = subst (Increased q price p) (sym run) (
    refl,
    refl,
    (λ k h h'. ground (arith, average_high k h h')),
    (λ k h h'. ground (arith, average_low k h h')),
    rounded,
    refl,
  )

-- A trade in the direction of a position whose average price is not negative and has 64 bits, at a
-- positive price of 64 bits and with a sum of quantities in the range, is applied: it adds its quantity to the position's and realizes nothing, the new
-- average lies between the old one and the price, and at its price the position is worth what it
-- was before but for the rounding of the average, which gives a long position, and takes from a
-- short one, less than one tick for each unit held.
pub apply_trade-Increased :
    (q price : ℤ) (p : Position)
    → FitsTogether q price p
    → IsAlong q p
    → Increased q price p (apply_trade q price p)
unfolding apply_trade
apply_trade-Increased q price p f along =
    let eq : apply_trade q price p ≡ increase q price p = elim along [
      | inl (long, bought) ↦ ground (arith, f.priced, long, bought)
      | inr (short, sold) ↦ ground (arith, f.priced, short, sold)
    ] in
    subst (Increased q price p) (sym eq) (run-Increased q price p f along)

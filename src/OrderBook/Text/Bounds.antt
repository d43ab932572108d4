-- ===== src/OrderBook/Text/Bounds.antt =====
-- Every text is read as a number of 64 bits, or refused (src/order_book.cpp).
use cmarket.Prelude.{
  ℕ, suc, ◌+◌, ◌-◌, ◌*◌, ◌/◌, ◌≤◌, ◌<◌, ◌≡◌, refl, sym, subst, ◌⊎◌, inl, inr, Bool, true, false,
  not, ◌&&◌, List, [], ◌∷◌, arith, ltb, leb, ◌==◌, Bool-cases, ◌≤ℤ◌, int64_max, ℤ, and_then, Result,
  pos, ok, err, invalid_argument, overflow_error,
}
use cmarket.OrderBook.Text.{
  largest_int64, ticks_per_unit, is_digit, read_whole, read_point, read_fraction, scale_up, combine,
  finish, parse_unsigned, parse_fixed_nonnegative, power_of_ten,
}
use cmarket.OrderBook.Text.Decimal.{scale_up-times}
use cmarket.OrderBook.Text.RoundTrip.{up_to_six}

-- A fraction has at most 6 digits.
abbrev FractionFits : Result (ℕ × ℕ × List ℕ) → Type 0
FractionFits (ok (f, k, left)) = (k ≤ 6) × (f < power_of_ten k)
FractionFits (err x) = x ≡ invalid_argument

read_fraction-Fits :
    (f k : ℕ) (cs : List ℕ) → k ≤ 6 → f < power_of_ten k → FractionFits (read_fraction f k cs)
unfolding read_fraction is_digit power_of_ten
read_fraction-Fits f k [] low below = (low, below)
read_fraction-Fits f k (c ∷ cs) low below = elim (Bool-cases (is_digit c)) [
  | inr other ↦
      let eq : read_fraction f k (c ∷ cs) ≡ ok (f, k, c ∷ cs) = ground (arith, other) in
      subst FractionFits (sym eq) (low, below)
  | inl digit ↦ elim (Bool-cases (leb 6 k)) [
    | inl many ↦
        let eq : read_fraction f k (c ∷ cs) ≡ err invalid_argument = ground (arith, digit, many) in
        subst FractionFits (sym eq) refl
    | inr few ↦
        let eq : read_fraction f k (c ∷ cs) ≡ read_fraction (f * 10 + (c - 48)) (suc k) cs =
          ground (arith, digit, few) in
        subst FractionFits (sym eq) (
          read_fraction-Fits (f * 10 + (c - 48)) (suc k) cs (ground (arith, few))
            (ground (arith, digit, below)))
  ]
]

read_point-Fits : (cs : List ℕ) → FractionFits (read_point cs)
unfolding read_point power_of_ten
read_point-Fits [] = (omega arith, omega arith)
read_point-Fits (c ∷ cs) = elim (Bool-cases (c == 46)) [
  | inl point ↦
      let eq : read_point (c ∷ cs) ≡ read_fraction 0 0 cs = ground (arith, point) in
      subst FractionFits (sym eq) (read_fraction-Fits 0 0 cs (omega arith) (omega arith))
  | inr other ↦
      let eq : read_point (c ∷ cs) ≡ ok (0, 0, c ∷ cs) = ground (arith, other) in
      subst FractionFits (sym eq) (omega arith, omega arith)
]

-- What reading a text may give.
abbrev pub Reads : Result ℤ → Type 0
Reads (ok n) = (pos 0 ≤ℤ n) × (n ≤ℤ int64_max)
Reads (err x) = (x ≡ invalid_argument) ⊎ (x ≡ overflow_error)

scaled_small : (k f : ℕ) → k ≤ 6 → f < power_of_ten k → scale_up (6 - k) f ≤ 1000000
unfolding power_of_ten
scaled_small k f low below =
    let small =
      up_to_six (λ k. (f : ℕ) → f < power_of_ten k → f * power_of_ten (6 - k) ≤ 1000000)
        (
          λ f h. omega (arith, h),
          λ f h. omega (arith, h),
          λ f h. omega (arith, h),
          λ f h. omega (arith, h),
          λ f h. omega (arith, h),
          λ f h. omega (arith, h),
          λ f h. omega (arith, h),
        )
        k low f below in
    omega (arith, small, scale_up-times (6 - k) f)

combine-Reads : (w f : ℕ) → f ≤ 1000000 → Reads (combine w f)
unfolding combine
combine-Reads w f small = elim (Bool-cases (ltb ((largest_int64 - f) / ticks_per_unit) w)) [
  | inl large ↦
      let eq : combine w f ≡ err overflow_error = ground (arith, large) in
      subst Reads (sym eq) (inr refl)
  | inr fits ↦
      let eq : combine w f ≡ ok (pos (w * ticks_per_unit + f)) = ground (arith, fits) in
      subst Reads (sym eq) (omega arith, ground (arith, fits, small))
]

finish-Reads :
    (w : ℕ) (b : Bool) (f k : ℕ) (left : List ℕ)
    → k ≤ 6
    → f < power_of_ten k
    → Reads (finish w b f k left)
unfolding finish
finish-Reads w b f k left low below = elim (Bool-cases (not b && k == 0)) [
  | inl nothing ↦
      let eq : finish w b f k left ≡ err invalid_argument = ground (arith, nothing) in
      subst Reads (sym eq) (inl refl)
  | inr something ↦ by_left left something
]
  where
    by_left : (cs : List ℕ) → (not b && k == 0) ≡ false → Reads (finish w b f k cs)
    by_left (c ∷ cs) something =
        let eq : finish w b f k (c ∷ cs) ≡ err invalid_argument = ground (arith, something) in
        subst Reads (sym eq) (inl refl)
    by_left [] something =
        let eq : finish w b f k [] ≡ combine w (scale_up (6 - k) f) = ground (arith, something) in
        subst Reads (sym eq) (combine-Reads w (scale_up (6 - k) f) (scaled_small k f low below))

abbrev WholeFits : Result (ℕ × Bool × List ℕ) → Type 0
WholeFits (ok r) = Unit {0}
WholeFits (err x) = x ≡ overflow_error

read_whole-Fits : (w : ℕ) (b : Bool) (cs : List ℕ) → WholeFits (read_whole w b cs)
unfolding read_whole
read_whole-Fits w b [] = tt
read_whole-Fits w b (c ∷ cs) = elim (Bool-cases (is_digit c)) [
  | inr other ↦
      let eq : read_whole w b (c ∷ cs) ≡ ok (w, b, c ∷ cs) = ground (arith, other) in
      subst WholeFits (sym eq) tt
  | inl digit ↦ elim (Bool-cases (ltb ((largest_int64 - (c - 48)) / 10) w)) [
    | inl large ↦
        let eq : read_whole w b (c ∷ cs) ≡ err overflow_error = ground (arith, digit, large) in
        subst WholeFits (sym eq) refl
    | inr fits ↦
        let eq : read_whole w b (c ∷ cs) ≡ read_whole (w * 10 + (c - 48)) true cs =
          ground (arith, digit, fits) in
        subst WholeFits (sym eq) (read_whole-Fits (w * 10 + (c - 48)) true cs)
  ]
]

parse_unsigned-Reads : (cs : List ℕ) → Reads (parse_unsigned cs)
unfolding parse_unsigned
parse_unsigned-Reads [] = inl refl
parse_unsigned-Reads (c ∷ cs) =
    by_whole (read_whole 0 false (c ∷ cs)) (read_whole-Fits 0 false (c ∷ cs))
  where
    by_fraction :
        (w : ℕ) (b : Bool) (r : Result (ℕ × ℕ × List ℕ))
        → FractionFits r
        → Reads (and_then r λ fraction. finish w b fraction.0 fraction.1 fraction.2)
    by_fraction w b (err x) h = inl h
    by_fraction w b (ok (f, k, left)) (low, below) = finish-Reads w b f k left low below

    by_whole :
        (r : Result (ℕ × Bool × List ℕ))
        → WholeFits r
        → Reads (
            and_then r λ whole.
              and_then
                (read_point whole.2)
                λ fraction. finish whole.0 whole.1 fraction.0 fraction.1 fraction.2)
    by_whole (err x) h = inr h
    by_whole (ok (w, b, left)) h = by_fraction w b (read_point left) (read_point-Fits left)

-- For any text: `parse_fixed_nonnegative` returns a number that is not negative and has 64 bits, or it
-- throws `invalid_argument` or `overflow_error`.
pub parse_fixed_nonnegative-Reads : (text : List ℕ) → Reads (parse_fixed_nonnegative text)
unfolding parse_fixed_nonnegative
parse_fixed_nonnegative-Reads [] = inl refl
parse_fixed_nonnegative-Reads (c ∷ cs) = elim (Bool-cases (c == 43)) [
  | inl plus ↦
      let eq : parse_fixed_nonnegative (c ∷ cs) ≡ parse_unsigned cs = ground (arith, plus) in
      subst Reads (sym eq) (parse_unsigned-Reads cs)
  | inr no_plus ↦ elim (Bool-cases (c == 45)) [
    | inl minus ↦
        let eq : parse_fixed_nonnegative (c ∷ cs) ≡ err invalid_argument =
          ground (arith, no_plus, minus) in
        subst Reads (sym eq) (inl refl)
    | inr no_sign ↦
        let eq : parse_fixed_nonnegative (c ∷ cs) ≡ parse_unsigned (c ∷ cs) =
          ground (arith, no_plus, no_sign) in
        subst Reads (sym eq) (parse_unsigned-Reads (c ∷ cs))
  ]
]

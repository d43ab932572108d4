-- ===== src/OrderBook/Text/RoundTrip.antt =====
-- A price that is printed is read back (src/order_book.cpp).
use cmarket.Prelude.{
  ℕ, zero, suc, ◌+◌, ◌-◌, ◌*◌, ◌/◌, ◌%◌, ◌≤◌, ◌<◌, ◌≡◌, refl, sym, ap, ap₂, ◌∙◌, true, false, List,
  [], ◌∷◌, ◌++◌, arith, length, and_then, pos, ok,
}
use cmarket.BlockingQueue.Fifo.{append-nil}
use cmarket.OrderBook.Text.{
  largest_int64, ticks_per_unit, is_digit, read_whole, read_point, read_fraction, combine, finish,
  parse_unsigned, parse_fixed_nonnegative, price_to_ticks, power_of_ten, decimal, fill_zeros, print,
  format_price,
}
use cmarket.OrderBook.Text.Decimal.{
  value, is_digits, read_whole-append, read_fraction-digits, scale_up-times, value-decimal,
  decimal-is_digits, decimal_some, length-decimal, value-fill_zeros, is_digits-fill_zeros,
  length-fill_zeros,
}

-- What the text of a number begins with is no sign.
no_sign :
    (ds rest : List ℕ)
    → is_digits ds ≡ true
    → 0 < length ds
    → parse_fixed_nonnegative (ds ++ rest) ≡ parse_unsigned (ds ++ rest)
unfolding parse_fixed_nonnegative is_digits is_digit
no_sign [] rest h some_digit = absurd (omega (arith, some_digit))
no_sign (c ∷ ds) rest h some_digit = ground (arith, h)

-- Digits, up to a text that `read_whole` does not read.
parse_unsigned-append :
    (ds rest : List ℕ)
    → is_digits ds ≡ true
    → 0 < length ds
    → value 0 ds ≤ largest_int64
    → ((n : ℕ) → read_whole n true rest ≡ ok (n, true, rest))
    → parse_unsigned (ds ++ rest)
      ≡ and_then
          (read_point rest)
          (λ fraction. finish (value 0 ds) true fraction.0 fraction.1 fraction.2)
unfolding parse_unsigned
parse_unsigned-append [] rest h some_digit small stop = absurd (omega (arith, some_digit))
parse_unsigned-append (c ∷ ds) rest h some_digit small stop =
    ap
      (λ r. and_then r λ whole.
        and_then (read_point whole.2)
          λ fraction. finish whole.0 whole.1 fraction.0 fraction.1 fraction.2)
      (read_whole-append 0 false (c ∷ ds) rest h small some_digit ∙ stop (value 0 (c ∷ ds)))

combine_small :
    (w f : ℕ)
    → w * ticks_per_unit + f ≤ largest_int64
    → combine w f ≡ ok (pos (w * ticks_per_unit + f))
unfolding combine
combine_small w f small = ground (arith, small)

pub up_to_six : (P : ℕ → Type 0) → P 0 × P 1 × P 2 × P 3 × P 4 × P 5 × P 6 → (k : ℕ) → k ≤ 6 → P k
up_to_six P h zero low = h.0
up_to_six P h (suc zero) low = h.1
up_to_six P h (suc (suc zero)) low = h.2
up_to_six P h (suc (suc (suc zero))) low = h.3
up_to_six P h (suc (suc (suc (suc zero)))) low = h.4
up_to_six P h (suc (suc (suc (suc (suc zero))))) low = h.5
up_to_six P h (suc (suc (suc (suc (suc (suc zero)))))) low = h.6
up_to_six P h (suc (suc (suc (suc (suc (suc (suc k))))))) low = absurd (omega (arith, low))

module _ (w f d : ℕ) (whole_small : w ≤ largest_int64) (fraction_small : f < power_of_ten (suc d))
    (places : d < 6) where
  abbrev zeros : ℕ
  zeros = suc d - length (decimal 20 f)

  abbrev fraction_text : List ℕ
  fraction_text = fill_zeros zeros (decimal 20 f)

  power_small : power_of_ten (suc d) ≤ 1000000
  unfolding power_of_ten
  power_small =
      up_to_six (λ k. power_of_ten k ≤ 1000000)
        (omega arith, omega arith, omega arith, omega arith, omega arith, omega arith, omega arith)
        (suc d) (omega (arith, places))

  fraction_below : f < power_of_ten 20
  unfolding power_of_ten
  fraction_below = omega (arith, fraction_small, power_small)

  fraction_length : length fraction_text ≡ suc d
  fraction_length =
      omega (arith, length-fill_zeros zeros (decimal 20 f), length-decimal 20 d f fraction_small)

  fraction_read : read_fraction 0 0 fraction_text ≡ ok (f, suc d, [])
  fraction_read =
      let all = is_digits-fill_zeros zeros (decimal 20 f) (decimal-is_digits 20 f) in
      let read =
        read_fraction-digits 0 0 fraction_text all (omega (arith, fraction_length, places)) in
      let same : value 0 fraction_text ≡ f =
        value-fill_zeros zeros (decimal 20 f) ∙ value-decimal 20 f fraction_below in
      let size : 0 + length fraction_text ≡ suc d = omega (arith, fraction_length) in
      read ∙ ap₂ (λ n k. ok (n, k, [])) same size

  whole_below : w < power_of_ten 20
  unfolding power_of_ten
  whole_below = omega (arith, whole_small)

  parse-print_fraction :
      parse_fixed_nonnegative (print w f (suc d)) ≡ combine w (f * power_of_ten (6 - suc d))
  unfolding print read_whole read_point finish is_digit
  parse-print_fraction =
      let ds = decimal 20 w in
      let same : value 0 ds ≡ w = value-decimal 20 w whole_below in
      let front =
        no_sign ds (46 ∷ fraction_text) (decimal-is_digits 20 w) (decimal_some 19 w)
        ∙ parse_unsigned-append ds (46 ∷ fraction_text) (decimal-is_digits 20 w) (decimal_some 19 w)
            (omega (arith, same, whole_small)) (λ n. ground arith) in
      front ∙ ground (arith, same, fraction_read, scale_up-times (6 - suc d) f)

parse-print_whole :
    (w : ℕ) → w ≤ largest_int64 → parse_fixed_nonnegative (print w 0 zero) ≡ combine w 0
unfolding print read_whole read_point finish power_of_ten
parse-print_whole w small =
    let ds = decimal 20 w in
    let same : value 0 ds ≡ w = value-decimal 20 w (omega (arith, small)) in
    let front =
      no_sign ds [] (decimal-is_digits 20 w) (decimal_some 19 w)
      ∙ parse_unsigned-append ds [] (decimal-is_digits 20 w) (decimal_some 19 w)
          (omega (arith, same, small)) (λ n. refl) in
    ap parse_fixed_nonnegative (sym (append-nil ds))
    ∙ front
    ∙ ground (arith, same, scale_up-times 6 0)

-- What the two parts of a printed price add up to.
parts_sum :
    (p d : ℕ)
    → d ≤ 6
    → p / power_of_ten (6 - d) / power_of_ten d * ticks_per_unit
        + p / power_of_ten (6 - d) % power_of_ten d * power_of_ten (6 - d)
      ≡ p - p % power_of_ten (6 - d)
unfolding power_of_ten
parts_sum p d low =
    up_to_six
      (λ k.
        p / power_of_ten (6 - k) / power_of_ten k * ticks_per_unit
          + p / power_of_ten (6 - k) % power_of_ten k * power_of_ten (6 - k)
        ≡ p - p % power_of_ten (6 - k))
      (omega arith, omega arith, omega arith, omega arith, omega arith, omega arith, omega arith) d
      low

fraction_below_power : (s d : ℕ) → d ≤ 6 → s % power_of_ten d < power_of_ten d
unfolding power_of_ten
fraction_below_power s d low =
    up_to_six (λ k. s % power_of_ten k < power_of_ten k)
      (omega arith, omega arith, omega arith, omega arith, omega arith, omega arith, omega arith) d
      low

whole_fits : (p d : ℕ) → d ≤ 6 → p / power_of_ten (6 - d) / power_of_ten d ≤ p
unfolding power_of_ten
whole_fits p d low =
    up_to_six (λ k. p / power_of_ten (6 - k) / power_of_ten k ≤ p)
      (omega arith, omega arith, omega arith, omega arith, omega arith, omega arith, omega arith) d
      low

parse-print :
    (w f d : ℕ)
    → d ≤ 6
    → w ≤ largest_int64
    → f < power_of_ten d
    → parse_fixed_nonnegative (print w f d) ≡ combine w (f * power_of_ten (6 - d))
unfolding power_of_ten
parse-print w f zero low small below =
    let none_left : f ≡ 0 = omega (arith, below) in
    ap (λ n. parse_fixed_nonnegative (print w n zero)) none_left
    ∙ parse-print_whole w small
    ∙ ap (combine w) (omega (arith, none_left))
parse-print w f (suc d) low small below =
    parse-print_fraction w f d small below (omega (arith, low))

-- A price of 64 bits that is printed with at most 6 decimal places and read back is the price without
-- the digits that were not printed; with 6 places it is the very price.
pub price_to_ticks-format_price :
    (p d : ℕ)
    → p ≤ largest_int64
    → d ≤ 6
    → (text : List ℕ) × (format_price (pos p) d ≡ ok text)
      × (price_to_ticks text ≡ ok (pos (p - p % power_of_ten (6 - d))))
unfolding format_price price_to_ticks
price_to_ticks-format_price p d small low =
    let scaled = p / power_of_ten (6 - d) in
    let whole = scaled / power_of_ten d in
    let fraction = scaled % power_of_ten d in
    let sum = parts_sum p d low in
    let read =
      parse-print whole fraction d low (omega (arith, small, whole_fits p d low))
        (fraction_below_power scaled d low)
      ∙ combine_small whole (fraction * power_of_ten (6 - d)) (omega (arith, small, sum)) in
    (print whole fraction d, ground (arith, low), read ∙ ap (λ n. ok (pos n)) sum)

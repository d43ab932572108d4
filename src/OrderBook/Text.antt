-- ===== src/OrderBook/Text.antt =====
-- The numbers of src/order_book.cpp as texts: `parse_fixed_nonnegative` and `format_price`. A text is
-- the list of its bytes; a number of 64 bits that cannot be negative is a natural number, and the
-- tests for overflow are those of the source.
pub mod Decimal
pub mod RoundTrip
pub mod Bounds
use cmarket.Prelude.{
  ℕ, zero, suc, ◌+◌, ◌-◌, ◌*◌, ◌/◌, ◌%◌, Bool, true, false, not, ◌&&◌, List, [], ◌∷◌, ◌++◌, ltb,
  leb, ◌==◌, if◌then◌else◌, length, push_back, ℤ, and_then, Result, pos, negsuc, ok, err,
  invalid_argument, overflow_error,
}

abbrev pub largest_int64 : ℕ
largest_int64 = 9223372036854775807

abbrev pub ticks_per_unit : ℕ
ticks_per_unit = 1000000

unfoldable pub is_digit : ℕ → Bool
is_digit c = leb 48 c && leb c 57

-- The loop over the digits before the point; also whether there is one, and what is left of the text.
unfoldable pub read_whole : ℕ → Bool → List ℕ → Result (ℕ × Bool × List ℕ)
read_whole whole_part has_whole_digits [] = ok (whole_part, has_whole_digits, [])
read_whole whole_part has_whole_digits (c ∷ cs) =
    let digit = c - 48 in
    let rest = read_whole (whole_part * 10 + digit) true cs in
    if is_digit c
    then (if ltb ((largest_int64 - digit) / 10) whole_part then err overflow_error else rest)
    else ok (whole_part, has_whole_digits, c ∷ cs)

-- The loop over the digits behind the point.
unfoldable pub read_fraction : ℕ → ℕ → List ℕ → Result (ℕ × ℕ × List ℕ)
read_fraction fractional_part fractional_digits [] = ok (fractional_part, fractional_digits, [])
read_fraction fractional_part fractional_digits (c ∷ cs) =
    let rest = read_fraction (fractional_part * 10 + (c - 48)) (suc fractional_digits) cs in
    if is_digit c
    then (if leb 6 fractional_digits then err invalid_argument else rest)
    else ok (fractional_part, fractional_digits, c ∷ cs)

-- The fraction, if there is a point.
unfoldable pub read_point : List ℕ → Result (ℕ × ℕ × List ℕ)
read_point [] = ok (0, 0, [])
read_point (c ∷ cs) = if c == 46 then read_fraction 0 0 cs else ok (0, 0, c ∷ cs)

-- The loop that multiplies the fraction by 10, as often as digits are missing.
unfoldable pub scale_up : ℕ → ℕ → ℕ
scale_up zero fractional_part = fractional_part
scale_up (suc missing) fractional_part = scale_up missing (fractional_part * 10)

unfoldable pub combine : ℕ → ℕ → Result ℤ
combine whole_part fractional_part =
    if ltb ((largest_int64 - fractional_part) / ticks_per_unit) whole_part
    then err overflow_error
    else ok (pos (whole_part * ticks_per_unit + fractional_part))

-- The tests and the result behind both loops.
unfoldable pub finish : ℕ → Bool → ℕ → ℕ → List ℕ → Result ℤ
finish whole_part has_whole_digits fractional_part fractional_digits left =
    if not has_whole_digits && fractional_digits == 0 then err invalid_argument else elim left [
      | c ∷ cs ↦ err invalid_argument
      | [] ↦ combine whole_part (scale_up (6 - fractional_digits) fractional_part)
    ]

unfoldable pub parse_unsigned : List ℕ → Result ℤ
parse_unsigned [] = err invalid_argument
parse_unsigned (c ∷ cs) = and_then (read_whole 0 false (c ∷ cs)) λ whole.
    and_then (read_point whole.2)
      λ fraction. finish whole.0 whole.1 fraction.0 fraction.1 fraction.2

-- A plus sign is skipped, a minus sign refused.
unfoldable pub parse_fixed_nonnegative : List ℕ → Result ℤ
parse_fixed_nonnegative [] = err invalid_argument
parse_fixed_nonnegative (c ∷ cs) =
    if c == 43
    then parse_unsigned cs
    else if c == 45
    then err invalid_argument
    else parse_unsigned (c ∷ cs)

unfoldable pub price_to_ticks : List ℕ → Result ℤ
price_to_ticks = parse_fixed_nonnegative

unfoldable pub quantity_to_fixed : List ℕ → Result ℤ
quantity_to_fixed = parse_fixed_nonnegative

-- The loop that multiplies 1 by 10.
unfoldable pub power_of_ten : ℕ → ℕ
power_of_ten zero = 1
power_of_ten (suc places) = power_of_ten places * 10

-- `output << number`: the decimal digits, of which a number of 64 bits has at most 20.
unfoldable pub decimal : ℕ → ℕ → List ℕ
decimal zero number = []
decimal (suc fuel) number =
    let front = decimal fuel (number / 10) in
    if ltb number 10 then (48 + number) ∷ [] else push_back front (48 + number % 10)

-- `std::setfill('0')` up to the width of `std::setw`.
unfoldable pub fill_zeros : ℕ → List ℕ → List ℕ
fill_zeros zero text = text
fill_zeros (suc missing) text = 48 ∷ fill_zeros missing text

unfoldable pub print : ℕ → ℕ → ℕ → List ℕ
print whole fractional zero = decimal 20 whole
print whole fractional (suc d) =
    let digits = decimal 20 fractional in
    decimal 20 whole ++ 46 ∷ fill_zeros (suc d - length digits) digits

unfoldable pub format_price : ℤ → ℕ → Result (List ℕ)
format_price (negsuc n) decimal_places = err invalid_argument
format_price (pos price_ticks) decimal_places =
    if ltb 6 decimal_places
    then err invalid_argument
    else let scaled = price_ticks / power_of_ten (6 - decimal_places) in
      ok (
        print (scaled / power_of_ten decimal_places) (scaled % power_of_ten decimal_places)
          decimal_places)

-- ===== src/OrderBook/Text/Decimal.antt =====
-- Decimal digits and the numbers that the loops of src/order_book.cpp read from them.
use native.Mathlib.Nat.{mul_assoc, mul_comm}
use cmarket.Prelude.{
  ℕ, zero, suc, ◌+◌, ◌-◌, ◌*◌, ◌/◌, ◌%◌, ◌≤◌, ◌<◌, ◌≡◌, refl, ap, ◌∙◌, inl, inr, Bool, true, false,
  ◌&&◌, List, [], ◌∷◌, ◌++◌, arith, ltb, leb, Bool-cases, length, push_back, length-push_back, ok,
}
use cmarket.OrderBook.Text.{
  largest_int64, is_digit, read_whole, read_fraction, scale_up, power_of_ten, decimal, fill_zeros,
}

-- The number that digits add to those before.
unfoldable pub value : ℕ → List ℕ → ℕ
value n [] = n
value n (c ∷ cs) = value (n * 10 + (c - 48)) cs

unfoldable pub is_digits : List ℕ → Bool
is_digits [] = true
is_digits (c ∷ cs) = is_digit c && is_digits cs

value_grows : (n : ℕ) (cs : List ℕ) → n ≤ value n cs
unfolding value
value_grows n [] = omega arith
value_grows n (c ∷ cs) = omega (arith, value_grows (n * 10 + (c - 48)) cs)

pub read_whole-append :
    (n : ℕ) (b : Bool) (ds rest : List ℕ)
    → is_digits ds ≡ true
    → value n ds ≤ largest_int64
    → 0 < length ds
    → read_whole n b (ds ++ rest) ≡ read_whole (value n ds) true rest
unfolding read_whole value is_digits is_digit
read_whole-append n b [] rest h small some_digit = absurd (omega (arith, some_digit))
read_whole-append n b (c ∷ []) rest h small some_digit = ground (arith, h, small)
read_whole-append n b (c ∷ d ∷ ds) rest h small some_digit =
    let later =
      read_whole-append (n * 10 + (c - 48)) true (d ∷ ds) rest (ground (arith, h)) small
        (omega arith) in
    let grown = value_grows (n * 10 + (c - 48)) (d ∷ ds) in
    let fits : ltb ((largest_int64 - (c - 48)) / 10) n ≡ false = ground (arith, small, grown) in
    let digit : (leb 48 c && leb c 57) ≡ true = ground (arith, h) in
    ground (arith, fits, digit, later)

pub read_fraction-digits :
    (n k : ℕ) (ds : List ℕ)
    → is_digits ds ≡ true
    → k + length ds ≤ 6
    → read_fraction n k ds ≡ ok (value n ds, k + length ds, [])
unfolding read_fraction value is_digits is_digit
read_fraction-digits n k [] h short = ground arith
read_fraction-digits n k (c ∷ ds) h short =
    let later =
      read_fraction-digits (n * 10 + (c - 48)) (suc k) ds (ground (arith, h))
        (omega (arith, short)) in
    ground (arith, h, short, later)

times_ten : (n p : ℕ) → n * 10 * p ≡ n * (p * 10)
times_ten n p = mul_assoc n 10 p ∙ ap (λ x. n * x) (mul_comm 10 p)

pub scale_up-times : (k n : ℕ) → scale_up k n ≡ n * power_of_ten k
unfolding scale_up power_of_ten
scale_up-times zero n = omega arith
scale_up-times (suc k) n = scale_up-times k (n * 10) ∙ times_ten n (power_of_ten k)

value-push_back :
    (n : ℕ) (cs : List ℕ) (c : ℕ) → value n (push_back cs c) ≡ value n cs * 10 + (c - 48)
unfolding value
value-push_back n [] c = refl
value-push_back n (d ∷ cs) c = value-push_back (n * 10 + (d - 48)) cs c

is_digits-push_back :
    (cs : List ℕ) (c : ℕ)
    → is_digits cs ≡ true
    → is_digit c ≡ true
    → is_digits (push_back cs c) ≡ true
unfolding is_digits
is_digits-push_back [] c h k = ground (arith, k)
is_digits-push_back (d ∷ cs) c h k =
    ground (arith, h, is_digits-push_back cs c (ground (arith, h)) k)

-- With enough fuel, `decimal` writes the number.
pub value-decimal : (fuel n : ℕ) → n < power_of_ten fuel → value 0 (decimal fuel n) ≡ n
unfolding value decimal power_of_ten
value-decimal zero n h = omega (arith, h)
value-decimal (suc fuel) n h = elim (Bool-cases (ltb n 10)) [
  | inl short ↦ ground (arith, short)
  | inr long ↦
      let front = value-decimal fuel (n / 10) (omega (arith, h)) in
      let back = value-push_back 0 (decimal fuel (n / 10)) (48 + n % 10) in
      ground (arith, long, front, back)
]

pub decimal-is_digits : (fuel n : ℕ) → is_digits (decimal fuel n) ≡ true
unfolding decimal is_digits is_digit
decimal-is_digits zero n = refl
decimal-is_digits (suc fuel) n = elim (Bool-cases (ltb n 10)) [
  | inl short ↦ ground (arith, short)
  | inr long ↦
      let all =
        is_digits-push_back (decimal fuel (n / 10)) (48 + n % 10) (decimal-is_digits fuel (n / 10))
          (ground arith) in
      ground (arith, long, all)
]

pub decimal_some : (fuel n : ℕ) → 0 < length (decimal (suc fuel) n)
unfolding decimal
decimal_some fuel n = ground (arith, length-push_back (decimal fuel (n / 10)) (48 + n % 10))

-- A number below a power of ten has no more digits than that.
pub length-decimal : (fuel d n : ℕ) → n < power_of_ten (suc d) → length (decimal fuel n) ≤ suc d
unfolding decimal power_of_ten
length-decimal zero d n h = omega arith
length-decimal (suc fuel) zero n h = ground (arith, h)
length-decimal (suc fuel) (suc d) n h =
    let front = length-decimal fuel d (n / 10) (omega (arith, h)) in
    ground (arith, front, length-push_back (decimal fuel (n / 10)) (48 + n % 10))

pub value-fill_zeros : (k : ℕ) (ds : List ℕ) → value 0 (fill_zeros k ds) ≡ value 0 ds
unfolding value fill_zeros
value-fill_zeros zero ds = refl
value-fill_zeros (suc k) ds = value-fill_zeros k ds

pub is_digits-fill_zeros :
    (k : ℕ) (ds : List ℕ) → is_digits ds ≡ true → is_digits (fill_zeros k ds) ≡ true
unfolding is_digits fill_zeros is_digit
is_digits-fill_zeros zero ds h = h
is_digits-fill_zeros (suc k) ds h = is_digits-fill_zeros k ds h

pub length-fill_zeros : (k : ℕ) (ds : List ℕ) → length (fill_zeros k ds) ≡ k + length ds
unfolding fill_zeros
length-fill_zeros zero ds = omega arith
length-fill_zeros (suc k) ds = omega (arith, length-fill_zeros k ds)

-- ===== src/LongDouble.antt =====
-- The type `long double` of the platform, which the sources compute averages with. Its arithmetic is
-- not part of the repository: the definitions that use it take it as an argument.
use cmarket.Prelude.{Bool, ◌+ℤ◌, ◌-ℤ◌, ◌*ℤ◌, neg, ◌/ℤ◌, ltb_ℤ, eqb_ℤ, ℤ}

pub record LongDouble : Type 1 where
  pub Carrier : Type 0
  pub of_int64 : ℤ → Carrier
  pub plus : Carrier → Carrier → Carrier
  pub negated : Carrier → Carrier
  pub minus : Carrier → Carrier → Carrier
  pub times : Carrier → Carrier → Carrier
  pub divided_by : Carrier → Carrier → Carrier
  pub equal : Carrier → Carrier → Bool
  pub less : Carrier → Carrier → Bool
  -- The type `double`, and the conversion to it.
  pub Double : Type 0
  pub to_double : Carrier → Double
  -- The conversion to a signed number of 64 bits.
  pub truncate : Carrier → ℤ

-- Integers in place of a `long double`.
abbrev pub exact : LongDouble
exact = record {
  Carrier = ℤ;
  of_int64 = λ n. n;
  negated = neg;
  plus = λ a b. a +ℤ b;
  minus = λ a b. a -ℤ b;
  times = λ a b. a *ℤ b;
  divided_by = λ a b. a /ℤ b;
  equal = eqb_ℤ;
  less = ltb_ℤ;
  Double = ℤ;
  to_double = λ a. a;
  truncate = λ a. a;
}

-- ===== src/Position/Products.antt =====
-- Products and differences of integers, as include/position.hpp computes with them.
use native.Mathlib.Nat.{div-lt_iff_lt-mul, le-div_iff_mul-le, mul-le-mul_right, div-zero, zero-div}
use cmarket.Prelude.{
  ℕ, suc, ◌+◌, ◌*◌, ◌/◌, ◌≤◌, ◌<◌, ◌≡◌, ap, ap₂, ◌∙◌, arith, pos_part, neg_part, sub_ℕ, ◌+ℤ◌, ◌-ℤ◌,
  ◌*ℤ◌, neg, ◌/ℤ◌, +ℤ_parts, -ℤ_parts, neg_parts, eq_of_parts, ℤ, pos,
}

sub_ℕ_parts : (x y : ℕ) → pos_part (sub_ℕ x y) + y ≡ neg_part (sub_ℕ x y) + x
sub_ℕ_parts x y = ground arith

pub *ℤ_parts :
    (a b : ℤ)
    → pos_part (a *ℤ b) + pos_part a * neg_part b + neg_part a * pos_part b
      ≡ neg_part (a *ℤ b) + pos_part a * pos_part b + neg_part a * neg_part b
unfolding ◌*ℤ◌
*ℤ_parts a b = omega (
  arith,
  sub_ℕ_parts (pos_part a * pos_part b + neg_part a * neg_part b)
      (pos_part a * neg_part b + neg_part a * pos_part b),
)

*ℤ_distrib : (x a b : ℤ) → x *ℤ (a +ℤ b) ≡ x *ℤ a +ℤ x *ℤ b
*ℤ_distrib x a b = eq_of_parts _ _ (
    omega (
      arith,
      +ℤ_parts (x *ℤ a) (x *ℤ b),
      *ℤ_parts x a,
      *ℤ_parts x b,
      *ℤ_parts x (a +ℤ b),
      ap (λ (t : ℕ). pos_part x * t) (+ℤ_parts a b),
      ap (λ (t : ℕ). neg_part x * t) (+ℤ_parts a b),
    ))

-- A difference times a number, and the opposite difference times it.
pub *ℤ_opposite : (a b c : ℤ) → (a -ℤ b) *ℤ c ≡ (b -ℤ a) *ℤ neg c
*ℤ_opposite a b c = eq_of_parts _ _ (
    omega (
      arith,
      *ℤ_parts (a -ℤ b) c,
      *ℤ_parts (b -ℤ a) (neg c),
      ap (λ (t : ℕ). pos_part c * t) (-ℤ_parts a b),
      ap (λ (t : ℕ). neg_part c * t) (-ℤ_parts a b),
      ap (λ (t : ℕ). pos_part c * t) (-ℤ_parts b a),
      ap (λ (t : ℕ). neg_part c * t) (-ℤ_parts b a),
      ap (λ (t : ℕ). pos_part (b -ℤ a) * t) (neg_parts c),
      ap (λ (t : ℕ). neg_part (b -ℤ a) * t) (neg_parts c),
    ))

sub_self : (a : ℤ) → a -ℤ a ≡ pos 0
sub_self a = eq_of_parts _ _ (omega (arith, -ℤ_parts a a))

zero_* : (a : ℤ) → pos 0 *ℤ a ≡ pos 0
zero_* a = eq_of_parts _ _ (omega (arith, *ℤ_parts (pos 0) a))

*_zero : (a : ℤ) → a *ℤ pos 0 ≡ pos 0
*_zero a = eq_of_parts _ _ (omega (arith, *ℤ_parts a (pos 0)))

*ℤ_neg : (a b : ℤ) → a *ℤ neg b ≡ neg (a *ℤ b)
*ℤ_neg a b = eq_of_parts _ _ (
    omega (
      arith,
      *ℤ_parts a b,
      *ℤ_parts a (neg b),
      neg_parts (a *ℤ b),
      ap (λ (t : ℕ). pos_part a * t) (neg_parts b),
      ap (λ (t : ℕ). neg_part a * t) (neg_parts b),
    ))

-- A profit that is realized is none that a price would give any more.
pub move_profit : (r x a b : ℤ) → r +ℤ x *ℤ neg b +ℤ x *ℤ (a +ℤ b) ≡ r +ℤ x *ℤ a
move_profit r x a b = eq_of_parts _ _ (
    omega (
      arith,
      ap pos_part (*ℤ_neg x b),
      ap neg_part (*ℤ_neg x b),
      ap pos_part (*ℤ_distrib x a b),
      ap neg_part (*ℤ_distrib x a b),
      neg_parts (x *ℤ b),
      +ℤ_parts (x *ℤ a) (x *ℤ b),
      +ℤ_parts r (x *ℤ neg b),
      +ℤ_parts r (x *ℤ a),
      +ℤ_parts (r +ℤ x *ℤ neg b) (x *ℤ (a +ℤ b)),
    ))

pub no_profit : (r p a : ℤ) → r +ℤ (p -ℤ p) *ℤ a ≡ r
no_profit r p a =
    ap (λ x. r +ℤ x *ℤ a) (sub_self p)
    ∙ ap (λ x. r +ℤ x) (zero_* a)
    ∙ eq_of_parts _ _ (omega (arith, +ℤ_parts r (pos 0)))

pub nothing_held : (r x : ℤ) → r +ℤ x *ℤ pos 0 ≡ r
nothing_held r x = ap (λ y. r +ℤ y) (*_zero x) ∙ eq_of_parts _ _ (omega (arith, +ℤ_parts r (pos 0)))

*ℤ_pos : (a b : ℕ) → pos a *ℤ pos b ≡ pos (a * b)
*ℤ_pos a b = eq_of_parts _ _ (omega (arith, *ℤ_parts (pos a) (pos b)))

+ℤ_pos : (a b : ℕ) → pos a +ℤ pos b ≡ pos (a + b)
+ℤ_pos a b = eq_of_parts _ _ (omega (arith, +ℤ_parts (pos a) (pos b)))

/ℤ_pos : (a b : ℕ) → pos a /ℤ pos b ≡ pos (a / b)
unfolding ◌/ℤ◌
/ℤ_pos a b = ground (arith, div-zero a, zero-div b)

-- The weighted average of natural numbers.
pub average_pos :
    (m a c b : ℕ)
    → (pos m *ℤ pos a +ℤ pos c *ℤ pos b) /ℤ (pos a +ℤ pos b) ≡ pos ((m * a + c * b) / (a + b))
average_pos m a c b =
    ap₂ ◌/ℤ◌ (ap₂ ◌+ℤ◌ (*ℤ_pos m a) (*ℤ_pos c b) ∙ +ℤ_pos (m * a) (c * b)) (+ℤ_pos a b)
    ∙ /ℤ_pos (m * a + c * b) (a + b)

-- It lies between bounds of the two.
pub average-le : (m a c b k : ℕ) → 0 < a → m ≤ k → c ≤ k → (m * a + c * b) / (a + b) ≤ k
average-le m a c b k positive le le' = omega (
  arith,
  (div-lt_iff_lt-mul {k = (a + b)} {x = (m * a + c * b)} {y = (suc k)} (omega (arith, positive))).1
      (omega (arith, positive, mul-le-mul_right a le, mul-le-mul_right b le')),
)

pub le-average : (m a c b k : ℕ) → 0 < a → k ≤ m → k ≤ c → k ≤ (m * a + c * b) / (a + b)
le-average m a c b k positive le le' =
    (le-div_iff_mul-le {k = (a + b)} {x = k} {y = (m * a + c * b)} (omega (arith, positive))).1
      (omega (arith, mul-le-mul_right a le, mul-le-mul_right b le'))

drop_parts :
    (c m n : ℕ)
    → pos_part ((pos c -ℤ pos m) *ℤ pos n) + m * n ≡ neg_part ((pos c -ℤ pos m) *ℤ pos n) + c * n
drop_parts c m n =
    omega
      (arith, *ℤ_parts (pos c -ℤ pos m) (pos n), ap (λ (t : ℕ). n * t) (-ℤ_parts (pos c) (pos m)))

module _ (r : ℤ) (c m a b k rest : ℕ) (e : (a + b) * k + rest ≡ m * a + c * b) where
  -- The value of a long position with the average rounded down.
  pub round_long : r +ℤ (pos c -ℤ pos k) *ℤ pos (a + b) ≡ r +ℤ (pos c -ℤ pos m) *ℤ pos a +ℤ pos rest
  round_long = eq_of_parts _ _ (
      omega (
        arith,
        e,
        drop_parts c k (a + b),
        drop_parts c m a,
        +ℤ_parts r ((pos c -ℤ pos k) *ℤ pos (a + b)),
        +ℤ_parts r ((pos c -ℤ pos m) *ℤ pos a),
        +ℤ_parts (r +ℤ (pos c -ℤ pos m) *ℤ pos a) (pos rest),
      ))

  -- The same of a short one.
  pub round_short :
      r +ℤ (pos c -ℤ pos k) *ℤ neg (pos (a + b))
      ≡ r +ℤ (pos c -ℤ pos m) *ℤ neg (pos a) +ℤ neg (pos rest)
  round_short = eq_of_parts _ _ (
      omega (
        arith,
        e,
        drop_parts c k (a + b),
        drop_parts c m a,
        ap pos_part (*ℤ_neg (pos c -ℤ pos k) (pos (a + b))),
        ap neg_part (*ℤ_neg (pos c -ℤ pos k) (pos (a + b))),
        ap pos_part (*ℤ_neg (pos c -ℤ pos m) (pos a)),
        ap neg_part (*ℤ_neg (pos c -ℤ pos m) (pos a)),
        neg_parts ((pos c -ℤ pos k) *ℤ pos (a + b)),
        neg_parts ((pos c -ℤ pos m) *ℤ pos a),
        neg_parts (pos rest),
        +ℤ_parts r ((pos c -ℤ pos k) *ℤ neg (pos (a + b))),
        +ℤ_parts r ((pos c -ℤ pos m) *ℤ neg (pos a)),
        +ℤ_parts (r +ℤ (pos c -ℤ pos m) *ℤ neg (pos a)) (neg (pos rest)),
      ))

-- ===== src/Prelude/Lists.antt =====
-- Vectors as lists, measured and indexed by native numbers, under the library's names.
use Prim.Native.Nat.{ℕ, zero, suc, ◌-◌, ◌<◌, ◌≤◌}
use mathlib.Core.Path.{◌≡◌, refl, ap}
use mathlib.Core.List.{List, [], ◌∷◌}
use mathlib.Core.Option.{Option, none, some}
use native.Mathlib.Omega.{arith}
use cmarket.Prelude.Tests.{◌==◌, if◌then◌else◌}

module _ {ℓ} {A : Type ℓ} where
  abbrev pub length : List A → ℕ
  length [] = 0
  length (x ∷ xs) = suc (length xs)

  abbrev pub get_elem? : List A → ℕ → Option A
  get_elem? [] i = none
  get_elem? (x ∷ xs) zero = some x
  get_elem? (x ∷ xs) (suc i) = get_elem? xs i

  -- A write out of bounds changes nothing.
  abbrev pub set : List A → ℕ → A → List A
  set [] i v = []
  set (x ∷ xs) zero v = v ∷ xs
  set (x ∷ xs) (suc i) v = x ∷ set xs i v

  abbrev pub take : ℕ → List A → List A
  take zero xs = []
  take (suc n) [] = []
  take (suc n) (x ∷ xs) = x ∷ take n xs

  -- `push_back`.
  abbrev pub push_back : List A → A → List A
  push_back [] a = a ∷ []
  push_back (x ∷ xs) a = x ∷ push_back xs a

  -- `pop_back` is `take` of one less.
  abbrev pub pop_back : List A → List A
  pop_back [] = []
  pop_back (x ∷ []) = []
  pop_back (x ∷ y ∷ xs) = x ∷ pop_back (y ∷ xs)

module _ {ℓ} {A : Type ℓ} where
  pub length-push_back : (xs : List A) (a : A) → length (push_back xs a) ≡ suc (length xs)
  length-push_back [] a = refl
  length-push_back (x ∷ xs) a = ap suc (length-push_back xs a)

  pub pop_back-push_back : (xs : List A) (a : A) → pop_back (push_back xs a) ≡ xs
  pop_back-push_back [] a = refl
  pop_back-push_back (x ∷ []) a = refl
  pop_back-push_back (x ∷ y ∷ xs) a = ap (◌∷◌ x) (pop_back-push_back (y ∷ xs) a)

  pub length-set : (xs : List A) (i : ℕ) (v : A) → length (set xs i v) ≡ length xs
  length-set [] i v = refl
  length-set (x ∷ xs) zero v = refl
  length-set (x ∷ xs) (suc i) v = ap suc (length-set xs i v)

  pub get_elem?-lt : (xs : List A) (i : ℕ) {a : A} → get_elem? xs i ≡ some a → i < length xs
  get_elem?-lt [] i h = cc
  get_elem?-lt (x ∷ xs) zero h = omega arith
  get_elem?-lt (x ∷ xs) (suc i) h = omega (arith, get_elem?-lt xs i h)

  pub get_elem?-some : (xs : List A) (i : ℕ) → i < length xs → (a : A) × (get_elem? xs i ≡ some a)
  get_elem?-some [] i h = elim h [ ]
  get_elem?-some (x ∷ xs) zero h = (x, refl)
  get_elem?-some (x ∷ xs) (suc i) h = get_elem?-some xs i (omega arith)

  pub get_elem?-set :
      (xs : List A) (i j : ℕ) (v : A)
      → i < length xs
      → get_elem? (set xs i v) j ≡ (if i == j then some v else get_elem? xs j)
  get_elem?-set [] i j v h = elim h [ ]
  get_elem?-set (x ∷ xs) zero zero v h = refl
  get_elem?-set (x ∷ xs) zero (suc j) v h = ground arith
  get_elem?-set (x ∷ xs) (suc i) zero v h = ground arith
  get_elem?-set (x ∷ xs) (suc i) (suc j) v h = ground (arith, get_elem?-set xs i j v (omega arith))

  pub get_elem?-push_back :
      (xs : List A) (a : A) (j : ℕ)
      → get_elem? (push_back xs a) j ≡ (if j == length xs then some a else get_elem? xs j)
  get_elem?-push_back [] a zero = refl
  get_elem?-push_back [] a (suc j) = ground arith
  get_elem?-push_back (x ∷ xs) a zero = ground arith
  get_elem?-push_back (x ∷ xs) a (suc j) = ground (arith, get_elem?-push_back xs a j)

  pub length-pop_back : (xs : List A) → length (pop_back xs) ≡ length xs - 1
  length-pop_back [] = refl
  length-pop_back (x ∷ []) = refl
  length-pop_back (x ∷ y ∷ xs) = omega (arith, length-pop_back (y ∷ xs))

  pub get_elem?-pop_back :
      (xs : List A) (j : ℕ)
      → get_elem? (pop_back xs) j ≡ (if suc j == length xs then none else get_elem? xs j)
  get_elem?-pop_back [] j = ground arith
  get_elem?-pop_back (x ∷ []) zero = refl
  get_elem?-pop_back (x ∷ []) (suc j) = ground arith
  get_elem?-pop_back (x ∷ y ∷ xs) zero = ground arith
  get_elem?-pop_back (x ∷ y ∷ xs) (suc j) = ground (arith, get_elem?-pop_back (y ∷ xs) j)

  -- Writing back what stands there changes nothing.
  pub set_self : (xs : List A) (i : ℕ) (v : A) → get_elem? xs i ≡ some v → set xs i v ≡ xs
  set_self [] i v h = refl
  set_self (x ∷ xs) zero v h = ground arith
  set_self (x ∷ xs) (suc i) v h = ap (◌∷◌ x) (set_self xs i v h)

  -- Vectors that agree at every index are equal.
  pub list_ext : (xs ys : List A) → ((i : ℕ) → get_elem? xs i ≡ get_elem? ys i) → xs ≡ ys
  list_ext [] [] h = refl
  list_ext [] (y ∷ ys) h = cc (h 0)
  list_ext (x ∷ xs) [] h = cc (h 0)
  list_ext (x ∷ xs) (y ∷ ys) h = ground (arith, h 0, list_ext xs ys (λ i. h (suc i)))

  pub get_elem?-none : (xs : List A) (i : ℕ) → length xs ≤ i → get_elem? xs i ≡ none
  get_elem?-none [] i h = refl
  get_elem?-none (x ∷ xs) zero h = elim h [ ]
  get_elem?-none (x ∷ xs) (suc i) h = get_elem?-none xs i (omega arith)

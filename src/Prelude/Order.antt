-- ===== src/Prelude/Order.antt =====
-- Comparators as the sources write them: Boolean strict orders.
use mathlib.Core.Path.{◌≡◌}
use mathlib.Core.Bool.{Bool, true, false}
use mathlib.Core.List.{List, [], ◌∷◌}

-- A strict total order, which decides equality too.
pub record IsStrictOrder {A : Type 0} (before : A → A → Bool) : Type 0 where
  pub irrefl : (a : A) → before a a ≡ false
  pub trans : (a b c : A) → before a b ≡ true → before b c ≡ true → before a c ≡ true
  pub tri : (a b : A) → before a b ≡ false → before b a ≡ false → a ≡ b

-- A predicate on every element, by recursion.
abbrev pub All {ℓ κ} : {A : Type ℓ} → (A → Type κ) → List A → Type κ
All P [] = Unit
All P (x ∷ xs) = P x × All P xs

pub All-map {ℓ κ} :
    {A : Type ℓ} (P Q : A → Type κ) (xs : List A) → ((a : A) → P a → Q a) → All P xs → All Q xs
All-map P Q [] f h = tt
All-map P Q (x ∷ xs) f h = (f x h.0, All-map P Q xs f h.1)

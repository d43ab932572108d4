-- ===== src/OrderFlowImbalance/Window.antt =====
-- The window of the last events (include/order_flow_imbalance.hpp), the latest first.
use cmarket.Prelude.{
  ℕ, zero, suc, ◌≤◌, ◌<◌, ◌≡◌, refl, ap, ◌∙◌, List, [], ◌∷◌, arith, ltb, if◌then◌else◌, length,
  take, push_back, length-push_back,
}

module _ {A : Type 0} where
  -- In the order in which they came.
  unfoldable pub oldest_first : List A → List A
  oldest_first [] = []
  oldest_first (x ∷ xs) = push_back (oldest_first xs) x

  unfoldable pub pop_front : List A → List A
  pop_front [] = []
  pop_front (x ∷ xs) = xs

  pub length-oldest_first : (xs : List A) → length (oldest_first xs) ≡ length xs
  unfolding oldest_first
  length-oldest_first [] = refl
  length-oldest_first (x ∷ xs) =
      omega (arith, length-push_back (oldest_first xs) x, length-oldest_first xs)

  pop_front-push_back :
      (xs : List A) (x : A)
      → 0 < length xs
      → pop_front (push_back xs x) ≡ push_back (pop_front xs) x
  unfolding pop_front
  pop_front-push_back [] x h = absurd (omega (arith, h))
  pop_front-push_back (y ∷ ys) x h = refl

  -- Of a window of one more, the oldest goes.
  pub pop_front-take :
      (w : ℕ) (xs : List A)
      → w < length xs
      → pop_front (oldest_first (take (suc w) xs)) ≡ oldest_first (take w xs)
  unfolding oldest_first pop_front
  pop_front-take w [] h = absurd (omega (arith, h))
  pop_front-take zero (x ∷ xs) h = refl
  pop_front-take (suc w) (x ∷ xs) h =
      pop_front-push_back (oldest_first (take (suc w) xs)) x (some_left xs (omega (arith, h)))
      ∙ ap (λ ys. push_back ys x) (pop_front-take w xs (omega (arith, h)))
    where
      some_left : (xs : List A) → w < length xs → 0 < length (oldest_first (take (suc w) xs))
      some_left [] k = absurd (omega (arith, k))
      some_left (y ∷ ys) k = omega (arith, length-push_back (oldest_first (take w ys)) y)

  pub length-window :
      (w : ℕ) (xs : List A) → length (take w xs) ≡ (if ltb (length xs) w then length xs else w)
  length-window zero xs = ground arith
  length-window (suc w) [] = ground arith
  length-window (suc w) (x ∷ xs) = ground (arith, length-window w xs)

  pub take_short : (w : ℕ) (xs : List A) → length xs ≤ w → take w xs ≡ xs
  take_short zero [] h = refl
  take_short zero (x ∷ xs) h = absurd (omega (arith, h))
  take_short (suc w) [] h = refl
  take_short (suc w) (x ∷ xs) h = ap (λ ys. x ∷ ys) (take_short w xs (omega (arith, h)))

-- ===== src/Tests/Tokens.antt =====
-- A subscription with a token that is given twice (include/websocket_market_state.hpp), and the
-- theorem at it.
use cmarket.Prelude.{ℕ, ◌⊎◌, inl, inr, Bool, true, ◌&&◌, List, [], ◌∷◌, ◌++◌, ltb, if◌then◌else◌}
use cmarket.WebSocketMarketState.{make, build_market}
use cmarket.WebSocketMarketState.Subscribed.{Subscribes, make-Subscribes}

abbrev tokens : List (List ℕ)
tokens = (65 ∷ []) ∷ (66 ∷ []) ∷ (65 ∷ []) ∷ []

-- The tokens behind each other, in place of a message of the library; it has no text for a byte that
-- is not ASCII.
abbrev is_ascii : List ℕ → Bool
is_ascii [] = true
is_ascii (c ∷ cs) = ltb c 128 && is_ascii cs

abbrev joined : List (List ℕ) → Unit {0} ⊎ List ℕ
joined [] = inr []
joined (x ∷ xs) = elim (joined xs) [
  | inl refused ↦ inl refused
  | inr text ↦ if is_ascii x then inr (x ++ text) else inl tt
]

make-Subscribes_example : Subscribes joined (make tokens) (build_market joined tokens)
make-Subscribes_example = make-Subscribes joined tokens

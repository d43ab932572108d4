-- ===== src/WebSocketMarketState.antt =====
-- include/websocket_market_state.hpp, and the identifiers that include/websocket_subscription.hpp
-- asks for. A token is the list of its bytes; the text of the subscription is made by a library for
-- JSON, from the tokens, or the library throws.
pub mod Subscribed
use cmarket.Prelude.{
  ℕ, ◌⊎◌, Bool, true, false, ◌||◌, none, some, List, [], ◌∷◌, if◌then◌else◌, length, push_back,
  and_then, Result, ok, err, invalid_argument,
}
use cmarket.OrderBook.Book.{OrderBook}
use cmarket.PositionManager.{same_symbol}
use cmarket.SymbolMap.{find, put}

pub record WebSocketTokenState : Type 0 where
  pub book : OrderBook
  pub snapshot_received : Bool

pub record WebSocketMarketState : Type 0 where
  pub states : List (List ℕ × WebSocketTokenState)

abbrev pub new_token : WebSocketTokenState
new_token = record { book = record { bids = []; asks = [] }; snapshot_received = false }

-- `try_emplace`, which leaves a token that is there as it is.
unfoldable pub try_emplace : List ℕ → WebSocketMarketState → WebSocketMarketState
try_emplace token_id s = elim (find token_id s.states) [
  | none ↦ record { states = put token_id new_token s.states }
  | some state ↦ s
]

-- The loop of the constructor.
unfoldable pub emplace_all : List (List ℕ) → WebSocketMarketState → Result WebSocketMarketState
emplace_all [] s = ok s
emplace_all ([] ∷ token_ids) s = err invalid_argument
emplace_all ((c ∷ cs) ∷ token_ids) s = emplace_all token_ids (try_emplace (c ∷ cs) s)

unfoldable pub make : List (List ℕ) → Result WebSocketMarketState
make [] = err invalid_argument
make (token_id ∷ token_ids) = emplace_all (token_id ∷ token_ids) (record { states = [] })

unfoldable pub contains : List ℕ → WebSocketMarketState → Bool
contains token_id s = elim (find token_id s.states) [ none ↦ false | some state ↦ true ]

unfoldable pub size : WebSocketMarketState → ℕ
size s = length s.states

-- What the reference that `at` returns shows; a write through it is a `put`.
unfoldable pub at : List ℕ → WebSocketMarketState → Result WebSocketTokenState
at token_id s = elim (find token_id s.states) [
  | none ↦ err invalid_argument
  | some state ↦ ok state
]

unfoldable pub is_seen : List ℕ → List (List ℕ) → Bool
is_seen token_id [] = false
is_seen token_id (other ∷ seen) = same_symbol other token_id || is_seen token_id seen

-- The loop of `build_market`; the set of what was seen has the same tokens as the vector.
unfoldable pub add_unique : List (List ℕ) → List (List ℕ) → Result (List (List ℕ))
add_unique [] unique_token_ids = ok unique_token_ids
add_unique ([] ∷ token_ids) unique_token_ids = err invalid_argument
add_unique ((c ∷ cs) ∷ token_ids) unique_token_ids = add_unique token_ids (
    if is_seen (c ∷ cs) unique_token_ids
    then unique_token_ids
    else push_back unique_token_ids (c ∷ cs))

-- `dump` is the text that the library makes of a message about the tokens, or the exception of the
-- library, a `type_error` for a token that is not UTF-8; the function throws what the library does.
unfoldable pub build_market :
    {E : Type 0} → (List (List ℕ) → E ⊎ List ℕ) → List (List ℕ) → Result (E ⊎ List ℕ)
build_market dump [] = err invalid_argument
build_market dump (token_id ∷ token_ids) =
    and_then (add_unique (token_id ∷ token_ids) []) λ unique_token_ids. ok (dump unique_token_ids)

-- ===== src/WebSocketMarketState/Subscribed.antt =====
-- The market state has just the tokens that are subscribed (include/websocket_market_state.hpp and
-- include/websocket_subscription.hpp).
use cmarket.Prelude.{
  ℕ, suc, ◌≡◌, refl, sym, ap, ◌∙◌, ◌⊎◌, inl, inr, true, false, ◌||◌, none, List, [], ◌∷◌, arith,
  if◌then◌else◌, Option-cases, length, push_back, length-push_back, and_then, Result, ok, err,
}
use cmarket.PositionManager.{same_symbol}
use cmarket.SymbolMap.{find, put, find-put}
use cmarket.WebSocketMarketState.{
  WebSocketTokenState, WebSocketMarketState, new_token, try_emplace, emplace_all, make, contains,
  size, is_seen, add_unique, build_market,
}

-- The same tokens, and as many.
abbrev pub HasTokens : WebSocketMarketState → List (List ℕ) → Type 0
HasTokens s tokens =
    ((token_id : List ℕ) → contains token_id s ≡ is_seen token_id tokens) × (size s ≡ length tokens)

abbrev pub Agree : Result WebSocketMarketState → Result (List (List ℕ)) → Type 0
Agree (ok s) (ok tokens) = HasTokens s tokens
Agree (err x) (err y) = x ≡ y
Agree r t = ⊥

is_seen-push_back :
    (token_id other : List ℕ) (tokens : List (List ℕ))
    → is_seen token_id (push_back tokens other)
      ≡ (is_seen token_id tokens || same_symbol other token_id)
unfolding is_seen
is_seen-push_back token_id other [] = ground arith
is_seen-push_back token_id other (x ∷ tokens) =
    ground (arith, is_seen-push_back token_id other tokens)

length-put :
    (token_id : List ℕ) (t : WebSocketTokenState) (es : List (List ℕ × WebSocketTokenState))
    → find token_id es ≡ none
    → length (put token_id t es) ≡ suc (length es)
unfolding find put
length-put token_id t [] h = refl
length-put token_id t ((key, old) ∷ es) h = ground (arith, h, length-put token_id t es)

try_emplace-HasTokens :
    (token_id : List ℕ) (s : WebSocketMarketState) (tokens : List (List ℕ))
    → HasTokens s tokens
    → HasTokens
        (try_emplace token_id s)
        (if is_seen token_id tokens then tokens else push_back tokens token_id)
unfolding try_emplace contains size
try_emplace-HasTokens token_id s tokens (same, sizes) =
    elim (Option-cases (find token_id s.states)) [
      | inr (t, there) ↦
          let seen : is_seen token_id tokens ≡ true = sym (same token_id) ∙ ground (arith, there) in
          (λ other. ground (arith, there, seen, same other), ground (arith, there, seen, sizes))
      | inl absent ↦
          let new : is_seen token_id tokens ≡ false =
            sym (same token_id) ∙ ground (arith, absent) in
          (
            λ other. ground (
              arith,
              absent,
              new,
              same other,
              find-put token_id other new_token s.states,
              is_seen-push_back other token_id tokens,
            ),
            ground (
              arith,
              absent,
              new,
              sizes,
              length-put token_id new_token s.states absent,
              length-push_back tokens token_id,
            ),
          )
    ]

emplace_all-Agree :
    (ids : List (List ℕ)) (s : WebSocketMarketState) (tokens : List (List ℕ))
    → HasTokens s tokens
    → Agree (emplace_all ids s) (add_unique ids tokens)
unfolding emplace_all add_unique
emplace_all-Agree [] s tokens h = h
emplace_all-Agree ([] ∷ ids) s tokens h = refl
emplace_all-Agree ((c ∷ cs) ∷ ids) s tokens h =
    emplace_all-Agree ids (try_emplace (c ∷ cs) s)
      (if is_seen (c ∷ cs) tokens then tokens else push_back tokens (c ∷ cs))
      (try_emplace-HasTokens (c ∷ cs) s tokens h)

module _ {E : Type 0} (dump : List (List ℕ) → E ⊎ List ℕ) where
  -- What a subscription asks the library for, and the state that receives it.
  abbrev pub Subscribes : Result WebSocketMarketState → Result (E ⊎ List ℕ) → Type 0
  Subscribes (ok s) r = (tokens : List (List ℕ)) × (r ≡ ok (dump tokens)) × HasTokens s tokens
  Subscribes (err x) r = r ≡ err x

  dumped :
      (r : Result WebSocketMarketState) (t : Result (List (List ℕ)))
      → Agree r t
      → Subscribes r (and_then t (λ tokens. ok (dump tokens)))
  dumped (ok s) (ok tokens) h = (tokens, refl, h)
  dumped (err x) (err y) h = ap (λ e. err e) (sym h)
  dumped (ok s) (err y) h = absurd h
  dumped (err x) (ok tokens) h = absurd h

  -- For any list of tokens, and whatever the library makes of a message, a text or an exception:
  -- where the constructor of the market state throws, `build_market` throws the same exception;
  -- where it returns, `build_market` returns the text, or throws the exception, that the library
  -- makes of a list of tokens, which are just those that the state contains, and as many as it has
  -- entries.
  pub make-Subscribes : (ids : List (List ℕ)) → Subscribes (make ids) (build_market dump ids)
  unfolding make build_market contains is_seen size find
  make-Subscribes [] = refl
  make-Subscribes (id ∷ ids) =
      dumped (emplace_all (id ∷ ids) (record { states = [] })) (add_unique (id ∷ ids) [])
        (emplace_all-Agree (id ∷ ids) (record { states = [] }) [] (λ other. refl, refl))

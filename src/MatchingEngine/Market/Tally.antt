-- ===== src/MatchingEngine/Market/Tally.antt =====
-- What both loops of `execute_market_order` (src/matching_engine.cpp) keep, and how they end.
use cmarket.Prelude.{
  ℕ, zero, suc, ◌%◌, ◌<◌, ◌≡◌, refl, sym, ap, ap₂, subst, ◌∙◌, Bool, true, false, Option, none,
  List, [], ◌∷◌, arith, u64_mod, push_back, pos_part, neg_part, ◌+ℤ◌, ◌-ℤ◌, ◌≤ℤ◌, ◌<ℤ◌, +ℤ_parts,
  -ℤ_parts, eq_of_parts, ℤ, Action, Error, Result, pos, ok, err, invalid_argument,
}
use cmarket.LongDouble.{LongDouble}
use cmarket.Execution.{OrderSide, Trade, ExecutionResult}
use cmarket.Validation.{validate_trade, require_positive}
use cmarket.TradeStore.{TradeStore, record_trade, next_trade}
use cmarket.MatchingEngine.Matching.Trade.{Grows, record_trade-Grows}
use cmarket.MatchingEngine.Market.{Market, add_trade, repeat}

-- A trade at a positive price of a positive quantity is recorded.
pub record_trade_lem :
    (side : OrderSide) (p q : ℤ) (b s : Option ℕ) (t : TradeStore)
    → pos 0 <ℤ p
    → pos 0 <ℤ q
    → (t' : TradeStore) × (record_trade side p q b s t ≡ (ok (next_trade t side p q b s), t'))
      × Grows t t'
unfolding record_trade validate_trade require_positive
record_trade_lem side p q b s t priced open_quantity =
    let t' : TradeStore = record {
      next_trade_id = suc t.next_trade_id % u64_mod;
      next_execution_sequence = suc t.next_execution_sequence % u64_mod;
      trades = push_back t.trades (next_trade t side p q b s);
    } in
    let h : record_trade side p q b s t ≡ (ok (next_trade t side p q b s), t') =
      ground (arith, priced, open_quantity) in
    (t', h, record_trade-Grows side p q b s t t' (next_trade t side p q b s) h)

pub record_trade_refused :
    (side : OrderSide) (p q : ℤ) (b s : Option ℕ) (t : TradeStore)
    → p ≤ℤ pos 0
    → record_trade side p q b s t ≡ (err invalid_argument, t)
unfolding record_trade validate_trade require_positive
record_trade_refused side p q b s t low = ground (arith, low)

-- The quantity of a list of trades.
unfoldable pub total_quantity : List Trade → ℤ
total_quantity [] = pos 0
total_quantity (trade ∷ trades) = trade.quantity +ℤ total_quantity trades

total_quantity-push_back :
    (trades : List Trade) (t : Trade)
    → total_quantity (push_back trades t) ≡ total_quantity trades +ℤ t.quantity
unfolding total_quantity
total_quantity-push_back [] t =
    eq_of_parts _ _ (omega (arith, +ℤ_parts t.quantity (pos 0), +ℤ_parts (pos 0) t.quantity))
total_quantity-push_back (u ∷ trades) t = eq_of_parts _ _ (
    omega (
      arith,
      ap pos_part (total_quantity-push_back trades t),
      ap neg_part (total_quantity-push_back trades t),
      +ℤ_parts u.quantity (total_quantity (push_back trades t)),
      +ℤ_parts u.quantity (total_quantity trades),
      +ℤ_parts (total_quantity trades) t.quantity,
      +ℤ_parts (u.quantity +ℤ total_quantity trades) t.quantity,
    ))

-- What was asked for has been executed or is left, and the trades have what was executed.
pub record Tally (side : OrderSide) (q : ℤ) (r : ExecutionResult) : Type 0 where
  pub sided : r.side ≡ side
  pub requested : r.requested_quantity ≡ q
  pub executed : pos 0 ≤ℤ r.executed_quantity
  pub remaining : pos 0 ≤ℤ r.remaining_quantity
  pub sum : r.executed_quantity +ℤ r.remaining_quantity ≡ q
  pub traded : total_quantity r.trades ≡ r.executed_quantity
  pub unset : r.average_price_ticks ≡ none

module _ {F : LongDouble} where
  pub add_trade-Tally :
      (side : OrderSide) (q : ℤ) (s : Market F) (t : Trade) (p d : ℤ)
      → Tally side q s.result
      → t.quantity ≡ d
      → pos 0 <ℤ d
      → d ≤ℤ s.result.remaining_quantity
      → Tally side q (add_trade F t p d s).result
  unfolding add_trade
  add_trade-Tally side q s t p d h same low high = record {
    sided = h.sided;
    requested = h.requested;
    executed = omega (arith, h.executed, low, +ℤ_parts s.result.executed_quantity d);
    remaining = omega (arith, high, -ℤ_parts s.result.remaining_quantity d);
    sum = eq_of_parts _ _ (
        omega (
          arith,
          ap pos_part h.sum,
          ap neg_part h.sum,
          +ℤ_parts s.result.executed_quantity s.result.remaining_quantity,
          +ℤ_parts s.result.executed_quantity d,
          -ℤ_parts s.result.remaining_quantity d,
          +ℤ_parts (s.result.executed_quantity +ℤ d) (s.result.remaining_quantity -ℤ d),
        ));
    traded = total_quantity-push_back s.result.trades t ∙ ap₂ ◌+ℤ◌ h.traded same;
    unset = h.unset;
  }

  -- What a round of a loop does: it ends the loop, it goes on with less to do, or it throws.
  abbrev pub RoundOf :
      (P D : Market F → Type 0) (E : Error → Market F → Type 0)
      → (Market F → ℕ)
      → ℕ
      → Result Bool × Market F
      → Type 0
  RoundOf P D E size n (ok false, s) = P s × D s
  RoundOf P D E size n (ok true, s) = P s × (size s < n)
  RoundOf P D E size n (err x, s) = E x s

  abbrev pub LoopOf :
      (P D : Market F → Type 0) (E : Error → Market F → Type 0)
      → Result (Unit {0}) × Market F
      → Type 0
  LoopOf P D E (ok _, s) = P s × D s
  LoopOf P D E (err x, s) = E x s

  module _ (P D : Market F → Type 0) (E : Error → Market F → Type 0) (size : Market F → ℕ)
      (round : Action (Market F) Bool)
      (each : (s : Market F) → P s → RoundOf P D E size (size s) (round s)) where
    -- A loop with more fuel than there is to do does not run out of it.
    pub repeat-LoopOf :
        (fuel : ℕ) (s : Market F) → P s → size s < fuel → LoopOf P D E (repeat F round fuel s)
    unfolding repeat
    repeat-LoopOf zero s p h = absurd (omega (arith, h))
    repeat-LoopOf (suc fuel) s p h =
        by_round (round s) refl (each s p)
          λ t p' less. repeat-LoopOf fuel t p' (omega (arith, h, less))
      where
        by_round :
            (r : Result Bool × Market F)
            → round s ≡ r
            → RoundOf P D E size (size s) r
            → ((t : Market F) → P t → size t < size s → LoopOf P D E (repeat F round fuel t))
            → LoopOf P D E (repeat F round (suc fuel) s)
        by_round (ok false, t) k h later =
            let eq : repeat F round (suc fuel) s ≡ (ok tt, t) = ground (arith, k) in
            subst (LoopOf P D E) (sym eq) h
        by_round (ok true, t) k h later =
            let eq : repeat F round (suc fuel) s ≡ repeat F round fuel t = ground (arith, k) in
            subst (LoopOf P D E) (sym eq) (later t h.0 h.1)
        by_round (err x, t) k h later =
            let eq : repeat F round (suc fuel) s ≡ (err x, t) = ground (arith, k) in
            subst (LoopOf P D E) (sym eq) h

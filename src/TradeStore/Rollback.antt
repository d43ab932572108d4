-- ===== src/TradeStore/Rollback.antt =====
-- A checkpoint of the trade store (include/trade_store.hpp) undoes every trade recorded after it.
use cmarket.Prelude.{
  ℕ, ◌≤◌, ◌≡◌, refl, ap, ℤ, List, [], ◌∷◌, Option, length, take, push_back, ok, arith,
}
use cmarket.Execution.{OrderSide, Trade}
use cmarket.TradeStore.{TradeStore, record_trade, checkpoint, rollback, next_trade}

-- A call of `record_trade`.
pub record Fill : Type 0 where
  pub side : OrderSide
  pub price : ℤ
  pub quantity : ℤ
  pub buyer : Option ℕ
  pub seller : Option ℕ

-- Calls in order; one that throws leaves the store alone.
pub record_all : List Fill → TradeStore → TradeStore
record_all [] s = s
record_all (f ∷ fs) s = record_all fs (record_trade f.side f.price f.quantity f.buyer f.seller s).1

-- The trades of one store are the first trades of another.
abbrev pub Extends : List Trade → List Trade → Type 0
Extends old new = (length old ≤ length new) × (take (length old) new ≡ old)

Extends-push_back :
    (old new : List Trade) (t : Trade) → Extends old new → Extends old (push_back new t)
Extends-push_back [] new t h = (omega arith, refl)
Extends-push_back (x ∷ old) [] t h = absurd (omega (arith, h.0))
Extends-push_back (x ∷ old) (y ∷ new) t (le, e) =
    let tail_eq : take (length old) new ≡ old = cc in
    let rest = Extends-push_back old new t (omega arith, tail_eq) in
    (omega (arith, rest.0), cc (rest.1))

pub take-length : (xs : List Trade) → take (length xs) xs ≡ xs
take-length [] = refl
take-length (x ∷ xs) = ap (◌∷◌ x) (take-length xs)

pub record_trade-Extends :
    (f : Fill) (old : List Trade) (s : TradeStore)
    → Extends old s.trades
    → Extends old (record_trade f.side f.price f.quantity f.buyer f.seller s).1.trades
unfolding record_trade
record_trade-Extends f old s h = ground (
  arith,
  Extends-push_back old s.trades (next_trade s f.side f.price f.quantity f.buyer f.seller) h,
)

record_all-Extends :
    (fs : List Fill) (old : List Trade) (s : TradeStore)
    → Extends old s.trades
    → Extends old (record_all fs s).trades
unfolding record_all
record_all-Extends [] old s h = h
record_all-Extends (f ∷ fs) old s h = record_all-Extends fs old _ (record_trade-Extends f old s h)

-- Rolling back to a checkpoint taken before any sequence of `record_trade` calls, thrown ones
-- included, succeeds and restores the whole store: its trades and both counters.
pub rollback-record_all :
    (s : TradeStore) (fs : List Fill) → rollback (checkpoint s) (record_all fs s) ≡ (ok tt, s)
unfolding rollback checkpoint
rollback-record_all s fs =
    ground (arith, record_all-Extends fs s.trades s (omega arith, take-length s.trades))

pub rollback-Extends :
    (s t : TradeStore) → Extends s.trades t.trades → rollback (checkpoint s) t ≡ (ok tt, s)
unfolding rollback checkpoint
rollback-Extends s t h = ground (arith, h)

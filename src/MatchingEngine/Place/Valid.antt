-- ===== src/MatchingEngine/Place/Valid.antt =====
-- The operations of src/matching_engine.cpp keep the engine valid.
use cmarket.Prelude.{
  ℕ, ◌≡◌, refl, sym, ap, subst, ◌∙◌, Bool, true, false, List, [], ◌∷◌, ◌≤ℤ◌, int64_max, ℤ, Result,
  pos, ok, err,
}
use cmarket.LongDouble.{LongDouble}
use cmarket.MatchingEngine.Market.{execute_market_order}
use cmarket.MatchingEngine.Market.Executes.{Executes, execute_market_order-Executes}
use cmarket.Execution.{ExecutionResult, OrderSide, buy, sell}
use cmarket.OrderBook.Book.{OrderBook, replace_normalized_snapshot}
use cmarket.OrderBook.Book.Invariant.{IsBook}
use cmarket.OrderBook.Levels.Sorted.{quantity_at}
use cmarket.OrderManager.Defs.{empty_manager}
use cmarket.OrderManager.Invariant.{empty_manager-IsConsistent}
use cmarket.MatchingEngine.Defs.{MatchingEngine, make, clear_trade_history}
use cmarket.MatchingEngine.Invariant.{
  side_levels, resting_quantity, IsValid, IsLocal, IsLocal-IsValid,
}
use cmarket.MatchingEngine.Cancel.{cancel_order}
use cmarket.MatchingEngine.Cancel.Refines.{CancelsIn, cancel_order-CancelsIn}
use cmarket.MatchingEngine.Place.{is_empty, place_limit_order}
use cmarket.MatchingEngine.Place.Atomic.{ready, Places, ready_engine, place_limit_order-Places}

is_empty-[] : {A : Type 0} (xs : List A) → is_empty xs ≡ true → xs ≡ []
unfolding is_empty
is_empty-[] [] h = refl
is_empty-[] (x ∷ xs) h = cc h

module _ (e : MatchingEngine) (side : OrderSide) (p q : ℤ) (v : IsValid e) where
  -- The book is cleared before the first order, so that it holds nothing but orders.
  started-IsLocal :
      (first : Bool)
      → is_empty e.order_manager.orders ≡ first
      → IsLocal (ready e side p q first).engine
  unfolding is_empty replace_normalized_snapshot resting_quantity quantity_at
  started-IsLocal true h =
      let no_orders : e.order_manager.orders ≡ [] = is_empty-[] e.order_manager.orders h in
      record {
        book = record { bids_sorted = tt; asks_sorted = tt };
        orders = v.orders;
        active = v.active;
        synced = λ t r. no_quantity t r ∙ ap (λ os. pos (resting_quantity t r os)) (sym no_orders);
      }
    where
      no_quantity :
          (t : OrderSide) (r : ℤ)
          → quantity_at (side_levels t (replace_normalized_snapshot [] [] e.order_book)) r ≡ pos 0
      no_quantity buy r = refl
      no_quantity sell r = refl
  started-IsLocal false h = record {
    book = v.book;
    orders = v.orders;
    active = v.active;
    synced = v.synced (λ no_orders. cc (h, ap is_empty no_orders));
  }

  ready-IsLocal : IsLocal (ready_engine e side p q)
  ready-IsLocal = started-IsLocal (is_empty e.order_manager.orders) refl

placed-IsValid :
    (e : MatchingEngine) (side : OrderSide) (p q : ℤ) (o : Result ℕ × MatchingEngine)
    → IsValid e
    → Places e (ready_engine e side p q) o
    → IsValid o.1
placed-IsValid e side p q (ok id, e') v h = IsLocal-IsValid e' (h.1 (ready-IsLocal e side p q v))
placed-IsValid e side p q (err x, e') v h = subst IsValid (sym h.1) v

-- Whether `place_limit_order` returns or throws, a valid engine is valid after it.
pub place_limit_order-IsValid :
    (e : MatchingEngine) (side : OrderSide) (p q : ℤ)
    → IsValid e
    → q ≤ℤ int64_max
    → IsValid (place_limit_order side p q e).1
place_limit_order-IsValid e side p q v bounded =
    placed-IsValid e side p q (place_limit_order side p q e) v
      (place_limit_order-Places e side p q v.orders v.book bounded)

cancelled-IsValid :
    (e : MatchingEngine) (id : ℕ) (o : Result Bool × MatchingEngine)
    → IsValid e
    → CancelsIn e id o
    → IsValid o.1
cancelled-IsValid e id (ok false, e') v h = subst IsValid (sym h.1) v
cancelled-IsValid e id (ok true, e') v (_, _, after, _, _, _) = after
cancelled-IsValid e id (err x, e') v h = absurd h

-- The states that calls lead to, from an engine that was made on the book `b`.
pub data Reachable (F : LongDouble) (b : OrderBook) : MatchingEngine → Type 0 where
  made : Reachable F b (make b)
  placed :
      (e : MatchingEngine) (side : OrderSide) (p q : ℤ)
      → Reachable F b e
      → q ≤ℤ int64_max
      → Reachable F b (place_limit_order side p q e).1
  executed :
      (e : MatchingEngine) (side : OrderSide) (q : ℤ)
      → Reachable F b e
      → q ≤ℤ int64_max
      → Reachable F b (execute_market_order F side q e).1
  cancelled : (e : MatchingEngine) (id : ℕ) → Reachable F b e → Reachable F b (cancel_order id e).1
  cleared : (e : MatchingEngine) → Reachable F b e → Reachable F b (clear_trade_history e)

make-IsValid : (b : OrderBook) → IsBook b → IsValid (make b)
unfolding make empty_manager
make-IsValid b h = record {
  book = h;
  orders = empty_manager-IsConsistent;
  active = λ i o held. cc held;
  synced = λ some_order. absurd (some_order refl);
}

executed-IsValid :
    (e : MatchingEngine) (side : OrderSide) (q : ℤ) (o : Result ExecutionResult × MatchingEngine)
    → IsValid e
    → Executes side q e o
    → IsValid o.1
executed-IsValid e side q (ok r, e') v h = h.1
executed-IsValid e side q (err x, e') v h = subst IsValid (sym h.1) v

-- An engine that was made on a well-formed book is valid after any calls of `place_limit_order` and
-- `execute_market_order`, with quantities of 64 bits, of `cancel_order` and of
-- `clear_trade_history`, in any order, whether they return or throw.
pub reachable-IsValid :
    (F : LongDouble) (b : OrderBook) (e : MatchingEngine) → IsBook b → Reachable F b e → IsValid e
unfolding clear_trade_history
reachable-IsValid F b _ h made = make-IsValid b h
reachable-IsValid F b _ h (placed e side p q r bounded) =
    place_limit_order-IsValid e side p q (reachable-IsValid F b e h r) bounded
reachable-IsValid F b _ h (executed e side q r bounded) =
    let v = reachable-IsValid F b e h r in
    executed-IsValid e side q (execute_market_order F side q e) v
      (execute_market_order-Executes F side q e v bounded)
reachable-IsValid F b _ h (cancelled e id r) =
    let v = reachable-IsValid F b e h r in
    cancelled-IsValid e id (cancel_order id e) v (cancel_order-CancelsIn e id v)
reachable-IsValid F b _ h (cleared e r) =
    let v = reachable-IsValid F b e h r in
    record { book = v.book; orders = v.orders; active = v.active; synced = v.synced }

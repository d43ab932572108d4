-- ===== src/MatchingEngine/Resting.antt =====
-- An order that goes into the book and among the active orders (`place_limit_order` and
-- `modify_order`, src/matching_engine.cpp) keeps the two in step.
use cmarket.Prelude.{
  ◌≡◌, sym, ap, subst, ◌∙◌, none, arith, push_back, ◌+ℤ◌, +ℤ_parts, eq_of_parts, eqb_ℤ_iff, ℤ, pos,
  ok,
}
use cmarket.Execution.{OrderSide, LimitOrder}
use cmarket.OrderBook.Levels.Sorted.{quantity_at}
use cmarket.OrderBook.Book.{OrderBook}
use cmarket.OrderManager.Defs.{OrderManager, validate_order}
use cmarket.OrderManager.Invariant.{IsActive, Validates, validate_order-Validates}
use cmarket.OrderManager.Add.{added, added-IsConsistent, added-IsAllActive}
use cmarket.OrderManager.Cancel.Sides.{same_side_iff}
use cmarket.MatchingEngine.Defs.{MatchingEngine}
use cmarket.MatchingEngine.Invariant.{side_levels, resting_quantity, IsLocal, resting-push_back}
use cmarket.MatchingEngine.Cancel.Release.{IsBookUpdate}
use cmarket.MatchingEngine.Cancel.Refines.{side_cases, share_is}

pub validated-IsActive : (o : LimitOrder) → validate_order o ≡ ok tt → IsActive o
validated-IsActive o v = subst (Validates o) v (validate_order-Validates o)

orders_added : (m : OrderManager) (o : LimitOrder) → (added m o).orders ≡ push_back m.orders o
orders_added m o = ground (arith, side_cases o.side)

pub added-IsLocal :
    (e : MatchingEngine) (o : LimitOrder) (b : OrderBook)
    → IsLocal e
    → e.order_manager.order_indices o.order_id ≡ none
    → IsActive o
    → IsBookUpdate o.side o.price_ticks
        (quantity_at (side_levels o.side e.order_book) o.price_ticks +ℤ o.remaining_quantity)
        e.order_book
        b
    → IsLocal (record e { order_book = b; order_manager = added e.order_manager o })
added-IsLocal e o b h fresh a u = record {
  book = u.well_formed;
  orders = added-IsConsistent e.order_manager h.orders o fresh;
  active = added-IsAllActive e.order_manager h.orders o fresh a h.active;
  synced = λ t r.
      in_step t r ∙ ap (λ xs. pos (resting_quantity t r xs)) (sym (orders_added e.order_manager o));
}
  where
    in_step :
        (t : OrderSide) (r : ℤ)
        → quantity_at (side_levels t b) r
          ≡ pos (resting_quantity t r (push_back e.order_manager.orders o))
    in_step t r =
        let q = quantity_at (side_levels o.side e.order_book) o.price_ticks in
        ground (
          arith,
          u.map_eq t r,
          h.synced t r,
          resting-push_back t r e.order_manager.orders o,
          share_is o t r,
          (same_side_iff o.side t).0,
          (eqb_ℤ_iff o.price_ticks r).0,
          a.open_quantity,
          +ℤ_parts q o.remaining_quantity,
          eq_of_parts (q +ℤ o.remaining_quantity)
              (pos (resting_quantity t r (push_back e.order_manager.orders o))),
        )

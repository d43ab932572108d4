-- ===== src/OrderManager/Add/Undo.antt =====
-- Cancelling the order that was added last gives back the order manager of before, as the rollback
-- of `place_limit_order` and `modify_order` relies on (src/order_manager.cpp).
use cmarket.Prelude.{
  ℕ, ◌≡◌, ap, fun_ext, ◌∙◌, Bool, true, Option, none, some, List, arith, length, get_elem?, set,
  push_back, pop_back, length-push_back, pop_back-push_back, get_elem?-push_back, set_self, ok,
}
use cmarket.Execution.{OrderSide, buy, sell, LimitOrder}
use cmarket.SortedSet.{insert, erase}
use cmarket.SortedSet.Laws.{erase-insert}
use cmarket.OrderManager.Keys.{PriorityKey, make_priority_key, key_before, key_before-IsStrictOrder}
use cmarket.OrderManager.Defs.{
  OrderManager, cancel_order, priority_index, with_priority_index, map_set, map_erase,
}
use cmarket.OrderManager.Invariant.{IsConsistent}
use cmarket.OrderManager.Cancel.Sides.{removed}
use cmarket.OrderManager.Cancel.Refines.{cancel_order_found}
use cmarket.OrderManager.Add.{added, added-IsConsistent, key_fresh, get_added}

-- The vector, the index map and the set of one side put back.
put_back :
    (s : OrderSide) (k : PriorityKey) (m : OrderManager) (xs ys : List LimitOrder)
    (indices added_indices : ℕ → Option ℕ)
    → xs ≡ m.orders
    → indices ≡ m.order_indices
    → (erase (key_before s) k (insert (key_before s) k (priority_index s m)).0).0
      ≡ priority_index s m
    → (let n : OrderManager =
          with_priority_index s
            (insert (key_before s) k (priority_index s m)).0
            (record m { orders = ys; order_indices = added_indices }) in
        with_priority_index s
          (erase (key_before s) k (priority_index s n)).0
          (record n { orders = xs; order_indices = indices })
        ≡ m)
put_back buy k m xs ys indices added_indices e f g = ground (arith, e, f, g)
put_back sell k m xs ys indices added_indices e f g = ground (arith, e, f, g)

module _ (m : OrderManager) (c : IsConsistent m) (o : LimitOrder)
    (fresh : m.order_indices o.order_id ≡ none) where
  indices_back :
      map_erase o.order_id (
        map_set o.order_id (length m.orders) (map_set o.order_id (length m.orders) m.order_indices))
      ≡ m.order_indices
  indices_back = fun_ext λ j. ground (arith, fresh)

  last_added : get_elem? (push_back m.orders o) (length m.orders) ≡ some o
  last_added = ground (arith, get_elem?-push_back m.orders o (length m.orders))

  orders_back : pop_back (set (push_back m.orders o) (length m.orders) o) ≡ m.orders
  orders_back =
      ap pop_back (set_self (push_back m.orders o) (length m.orders) o last_added)
      ∙ pop_back-push_back m.orders o

  key_back :
      erase
        (key_before o.side)
        (make_priority_key o)
        (insert (key_before o.side) (make_priority_key o) (priority_index o.side m)).0
      ≡ (priority_index o.side m, true)
  key_back =
      erase-insert (key_before o.side) (key_before-IsStrictOrder o.side) (make_priority_key o)
        (priority_index o.side m) (c.sorted o.side) (key_fresh m c o fresh)

  removed-added : removed (added m o) o.order_id (length m.orders) o o ≡ m
  removed-added =
      put_back o.side (make_priority_key o) m _ _ _ _ orders_back indices_back
        (ap (λ (r : List PriorityKey × Bool). r.0) key_back)

  -- The cancellation of the order that was added last.
  pub cancel_order-added : cancel_order o.order_id (added m o) ≡ (ok true, m)
  cancel_order-added =
      cancel_order_found (added m o) (added-IsConsistent m c o fresh) o.order_id (length m.orders) o
        o (ground arith) (get_added m c o fresh (length m.orders) ∙ ground arith)
        (ground (arith, length-push_back m.orders o, last_added))
      ∙ ap (λ n. (ok true, n)) removed-added

-- ===== src/OrderManager/Lookup.antt =====
-- Lookups of the class `OrderManager`, writes through the pointers that they return, and
-- `update_sequence_number` (src/order_manager.cpp).
use cmarket.Prelude.{
  ℕ, Bool, true, false, not, Option, none, some, ◌==◌, if◌then◌else◌, get_elem?, set, Action, pure,
  ◌>>◌, modify, ok, err, invalid_argument, logic_error,
}
use cmarket.Execution.{OrderSide, buy, sell, LimitOrder}
use cmarket.SortedSet.{insert, erase, first}
use cmarket.OrderManager.Keys.{PriorityKey, make_priority_key, key_before}
use cmarket.OrderManager.Defs.{OrderManager, priority_index, with_priority_index}

-- Both forms of `find_order`; `none` is the null pointer.
unfoldable pub find_order : OrderManager → ℕ → Option LimitOrder
find_order m order_id = elim (m.order_indices order_id) [
  | none ↦ none
  | some index ↦ get_elem? m.orders index
]

-- A write to the order that the pointer of `find_order` points to.
unfoldable pub write_order : ℕ → LimitOrder → OrderManager → OrderManager
write_order order_id order m = elim (m.order_indices order_id) [
  | none ↦ m
  | some index ↦ record m { orders = set m.orders index order }
]

unfoldable pub best_order : OrderSide → OrderManager → Option LimitOrder
best_order side m = elim (first (key_before side) (priority_index side m)) [
  | none ↦ none
  | some key ↦ find_order m key.order_id
]

unfoldable pub best_buy_order : OrderManager → Option LimitOrder
best_buy_order m = best_order buy m

unfoldable pub best_sell_order : OrderManager → Option LimitOrder
best_sell_order m = best_order sell m

-- The new key goes in before the old one is taken out.
unfoldable pub replace_priority :
    OrderSide → PriorityKey → PriorityKey → Action OrderManager (Unit {0})
replace_priority side old_key new_key m =
    let (with_new, added) = insert (key_before side) new_key (priority_index side m) in
    let (without_old, erased) = erase (key_before side) old_key with_new in
    let restored = (erase (key_before side) new_key without_old).0 in
    if not added
    then (err logic_error, m)
    else if erased
    then (ok tt, with_priority_index side without_old m)
    else (err logic_error, with_priority_index side restored m)

unfoldable pub update_sequence_number : ℕ → ℕ → Action OrderManager Bool
update_sequence_number order_id new_sequence_number m =
    if new_sequence_number == 0 then (err invalid_argument, m) else elim (find_order m order_id) [
      | none ↦ (ok false, m)
      | some order ↦
          let old_key = make_priority_key order in
          let new_key : PriorityKey = record old_key { sequence_number = new_sequence_number } in
          let updated : LimitOrder = record order { sequence_number = new_sequence_number } in
          if order.sequence_number == new_sequence_number
          then (ok true, m)
          else (do
            replace_priority order.side old_key new_key
            modify (write_order order_id updated)
            pure true)
              m
    ]

-- ===== src/OrderManager/Removal.antt =====
-- `OrderManager::Removal`, the record by which `cancel_order` lets its caller undo it, and
-- `restore_removal` (src/order_manager.cpp).
use cmarket.Prelude.{
  ℕ, ◌-◌, Bool, true, false, not, Option, none, some, List, leb, ◌==◌, if◌then◌else◌, length,
  get_elem?, set, push_back, and_then, Action, pure, gets, lift, ◌>>=◌, ◌>>◌, modify, when, Result,
  ok, err, logic_error,
}
use cmarket.Execution.{OrderSide, LimitOrder}
use cmarket.SortedSet.{insert, extract}
use cmarket.OrderManager.Keys.{PriorityKey, make_priority_key, key_before}
use cmarket.OrderManager.Defs.{
  OrderManager, map_set, priority_index, with_priority_index, at, fill_gap, drop_last,
}

-- A node handle is `none` where it is empty. The two priority nodes are one field, since only the
-- one of the removed order's side is ever filled or read.
pub record Removal : Type 0 where
  pub removed_order : LimitOrder
  pub original_index : ℕ
  pub swapped : Bool
  pub swapped_order_id : ℕ
  pub removed_index_node : Option ℕ
  pub removed_priority_node : Option PriorityKey

-- `orders_[last_index].order_id`, or 0 where the removed order is the last.
unfoldable pub swapped_id : Bool → Result LimitOrder → Result ℕ
swapped_id true last = and_then last λ o. ok o.order_id
swapped_id false last = ok 0

unfoldable pub extract_priority : OrderSide → PriorityKey → Action OrderManager PriorityKey
extract_priority side key m =
    let (keys, node) = extract (key_before side) key (priority_index side m) in
    elim node [
      | none ↦ (err logic_error, with_priority_index side keys m)
      | some k ↦ (ok k, with_priority_index side keys m)
    ]

unfoldable pub remove_into : ℕ → ℕ → Action OrderManager Removal
remove_into order_id index = do
  last_index ← gets (λ m. length m.orders - 1)
  removed_order ← (λ m. lift (at index m) m)
  let swapped = not (index == last_index)
  swapped_order_id ← (λ m. lift (swapped_id swapped (at last_index m)) m)
  priority_node ← extract_priority removed_order.side (make_priority_key removed_order)
  fill_gap index
  modify (drop_last order_id)
  pure (record {
    removed_order = removed_order;
    original_index = index;
    swapped = swapped;
    swapped_order_id = swapped_order_id;
    removed_index_node = some order_id;
    removed_priority_node = some priority_node;
  })

-- `cancel_order(order_id, removal)`; `none` where there is no such order.
unfoldable pub cancel_order_into : ℕ → Action OrderManager (Option Removal)
cancel_order_into order_id m = elim (m.order_indices order_id) [
  | none ↦ (ok none, m)
  | some index ↦ (do removal ← remove_into order_id index; pure (some removal)) m
]

-- A test that throws `std::logic_error`.
abbrev require : Bool → Action OrderManager (Unit {0})
require test = lift (if test then ok tt else err logic_error)

unfoldable pub is_some : {A : Type 0} → Option A → Bool
is_some none = false
is_some (some a) = true

-- The order that stands at an index has the identifier.
unfoldable pub has_id : Option LimitOrder → ℕ → Bool
has_id none order_id = false
has_id (some o) order_id = o.order_id == order_id

-- `push_back` of the order, and the swap with the one that had taken its place.
unfoldable pub restore_slot : Removal → Action OrderManager (Unit {0})
restore_slot r m =
    let last = length m.orders in
    let swapped_back : List LimitOrder = elim (get_elem? m.orders r.original_index) [
      | none ↦ m.orders
      | some o ↦ push_back (set m.orders r.original_index r.removed_order) o
    ] in
    if not r.swapped
    then (ok tt, record m { orders = push_back m.orders r.removed_order })
    else if leb last r.original_index
    then (err logic_error, m)
    else if has_id (get_elem? m.orders r.original_index) r.swapped_order_id
    then (ok tt, record m { orders = swapped_back })
    else (err logic_error, m)

-- The insertion of the index node, which does nothing where its key is there.
unfoldable pub restore_index : Removal → Option ℕ → Action OrderManager (Unit {0})
restore_index r none m = (err logic_error, m)
restore_index r (some order_id) m = elim (m.order_indices order_id) [
  | some _ ↦ (err logic_error, m)
  | none ↦ (ok tt, record m { order_indices = map_set order_id r.original_index m.order_indices })
]

unfoldable pub restore_priority : OrderSide → Option PriorityKey → Action OrderManager (Unit {0})
restore_priority side none m = (err logic_error, m)
restore_priority side (some key) m =
    let (keys, added) = insert (key_before side) key (priority_index side m) in
    if added then (ok tt, with_priority_index side keys m) else (err logic_error, m)

unfoldable pub restore_swapped : Removal → ℕ → Action OrderManager (Unit {0})
restore_swapped r restored_last_index m = elim (m.order_indices r.swapped_order_id) [
  | none ↦ (err logic_error, m)
  | some _ ↦ (
    ok tt,
    record m { order_indices = map_set r.swapped_order_id restored_last_index m.order_indices },
  )
]

-- Each removal is restored once, so that the emptied node handles are not passed back.
unfoldable pub restore_removal : Removal → Action OrderManager (Unit {0})
restore_removal r = do
  require (is_some r.removed_index_node)
  known ← gets (λ m. is_some (m.order_indices r.removed_order.order_id))
  require (not known)
  require (is_some r.removed_priority_node)
  restored_last_index ← gets (λ m. length m.orders)
  restore_slot r
  restore_index r r.removed_index_node
  restore_priority r.removed_order.side r.removed_priority_node
  when r.swapped (restore_swapped r restored_last_index)

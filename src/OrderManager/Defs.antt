-- ===== src/OrderManager/Defs.antt =====
-- The class `OrderManager` (src/order_manager.cpp). `order_indices_` is the function from
-- identifiers to what the hash map holds; the two `std::set` are sorted sets.
use cmarket.Prelude.{
  ℕ, ◌-◌, Bool, true, false, Option, none, some, List, [], map, ◌==◌, if◌then◌else◌, length,
  get_elem?, set, push_back, pop_back, ltb_ℤ, throw_if, and_then, Action, pure, gets, lift, ◌>>=◌,
  ◌>>◌, modify, on_throw, Result, ok, err, invalid_argument, logic_error, undefined_behaviour,
}
use cmarket.Execution.{OrderSide, buy, sell, LimitOrder}
use cmarket.Validation.{require_positive}
use cmarket.SortedSet.{insert, erase}
use cmarket.OrderManager.Keys.{PriorityKey, make_priority_key, key_before}

abbrev pub IndexMap : Type 0
IndexMap = ℕ → Option ℕ

-- `iterator->second = index`, and `emplace` of a key that is not there.
abbrev pub map_set : ℕ → ℕ → IndexMap → IndexMap
map_set id index map j = if id == j then some index else map j

abbrev pub map_erase : ℕ → IndexMap → IndexMap
map_erase id map j = if id == j then none else map j

pub record OrderManager : Type 0 where
  pub orders : List LimitOrder
  pub order_indices : IndexMap
  pub buy_priority_index : List PriorityKey
  pub sell_priority_index : List PriorityKey

unfoldable pub empty_manager : OrderManager
empty_manager = record {
  orders = [];
  order_indices = λ id. none;
  buy_priority_index = [];
  sell_priority_index = [];
}

-- The priority index of a side, and the manager with another one.
abbrev pub priority_index : OrderSide → OrderManager → List PriorityKey
priority_index buy m = m.buy_priority_index
priority_index sell m = m.sell_priority_index

abbrev pub with_priority_index : OrderSide → List PriorityKey → OrderManager → OrderManager
with_priority_index side keys m = record m {
  buy_priority_index = elim side [ buy ↦ keys | sell ↦ m.buy_priority_index ];
  sell_priority_index = elim side [ buy ↦ m.sell_priority_index | sell ↦ keys ];
}

unfoldable pub validate_order : LimitOrder → Result (Unit {0})
validate_order o = and_then (throw_if (o.order_id == 0) invalid_argument) λ _.
    and_then (require_positive o.price_ticks) λ _.
      and_then (require_positive o.original_quantity) λ _.
        and_then (require_positive o.remaining_quantity) λ _.
          and_then (throw_if (ltb_ℤ o.original_quantity o.remaining_quantity) invalid_argument)
            λ _. throw_if (o.sequence_number == 0) invalid_argument

-- The `insert` into the priority index of the order's side.
unfoldable pub insert_priority : OrderSide → PriorityKey → Action OrderManager (Unit {0})
insert_priority side key m =
    let (keys, added) = insert (key_before side) key (priority_index side m) in
    if added then (ok tt, with_priority_index side keys m) else (err logic_error, m)

-- Of what the `try` block calls only the insertion of a key that is there throws, and then the
-- identifier is indexed and the key is not.
unfoldable pub add_order : LimitOrder → Action OrderManager (Unit {0})
add_order order = do
  lift (validate_order order)
  known ← gets (λ m. m.order_indices order.order_id)
  lift (elim known [ none ↦ ok tt | some _ ↦ err invalid_argument ])
  modify (λ m. record m { orders = push_back m.orders order })
  on_throw
      (do
        modify (λ m. record m {
          order_indices = map_set order.order_id (length m.orders - 1) m.order_indices;
        })
        insert_priority order.side (make_priority_key order))
      (modify (λ m. record m {
        order_indices = map_erase order.order_id m.order_indices;
        orders = pop_back m.orders;
      }))

-- `orders_[index]`.
unfoldable pub at : ℕ → OrderManager → Result LimitOrder
at index m = elim (get_elem? m.orders index) [ none ↦ err undefined_behaviour | some o ↦ ok o ]

-- Both forms of `cancel_order`: the last order takes the place of the removed one.
unfoldable pub fill_gap : ℕ → Action OrderManager (Unit {0})
fill_gap index m =
    let last_index = length m.orders - 1 in
    if index == last_index then (ok tt, m) else elim (at last_index m) [
      | err e ↦ (err e, m)
      | ok last ↦
          let moved : OrderManager = record m { orders = set m.orders index last } in
          elim (m.order_indices last.order_id) [
            | none ↦ (err logic_error, moved)
            | some _ ↦ (
              ok tt,
              record moved { order_indices = map_set last.order_id index m.order_indices },
            )
          ]
    ]

-- `erase` from the priority index, which has to find the key.
unfoldable pub erase_priority : OrderSide → PriorityKey → Action OrderManager (Unit {0})
erase_priority side key m =
    let (keys, erased) = erase (key_before side) key (priority_index side m) in
    if erased
    then (ok tt, with_priority_index side keys m)
    else (err logic_error, with_priority_index side keys m)

-- `orders_.pop_back()` and `order_indices_.erase(index_iterator)`.
unfoldable pub drop_last : ℕ → OrderManager → OrderManager
drop_last order_id m = record m {
  orders = pop_back m.orders;
  order_indices = map_erase order_id m.order_indices;
}

unfoldable pub remove_at : ℕ → ℕ → Action OrderManager Bool
remove_at order_id index = do
  order_to_remove ← (λ m. lift (at index m) m)
  erase_priority order_to_remove.side (make_priority_key order_to_remove)
  fill_gap index
  modify (drop_last order_id)
  pure true

unfoldable pub cancel_order : ℕ → Action OrderManager Bool
cancel_order order_id m = elim (m.order_indices order_id) [
  | none ↦ (ok false, m)
  | some index ↦ remove_at order_id index m
]

-- ===== src/OrderManager/Cancel/Sides.antt =====
-- The two priority indices when one key leaves the index of its side (src/order_manager.cpp).
use cmarket.Prelude.{ℕ, ◌≡◌, refl, ◌↔◌, Bool, true, false, not, ◌&&◌, arith, set, pop_back}
use cmarket.Execution.{OrderSide, buy, sell, LimitOrder}
use cmarket.SortedSet.{same, contains, erase}
use cmarket.SortedSet.Laws.{IsSorted, contains-erase, erase-IsSorted}
use cmarket.OrderManager.Keys.{
  PriorityKey, make_priority_key, key_before, key_before-IsStrictOrder, buy_before, sell_before,
  buy_before-IsStrictOrder, sell_before-IsStrictOrder,
}
use cmarket.OrderManager.Defs.{
  OrderManager, priority_index, with_priority_index, map_set, map_erase,
}

-- The manager without the order `o` at `i`, whose place the last order `l` has taken.
abbrev pub removed : OrderManager → ℕ → ℕ → LimitOrder → LimitOrder → OrderManager
removed m id i o l =
    with_priority_index o.side
      (erase (key_before o.side) (make_priority_key o) (priority_index o.side m)).0
      (record m {
        orders = pop_back (set m.orders i l);
        order_indices = map_erase id (map_set l.order_id i m.order_indices);
      })

unfoldable pub same_side : OrderSide → OrderSide → Bool
same_side buy buy = true
same_side sell sell = true
same_side _ _ = false

pub same_side_iff : (s t : OrderSide) → (same_side s t ≡ true) ↔ (s ≡ t)
unfolding same_side
same_side_iff buy buy = ground arith
same_side_iff buy sell = ground arith
same_side_iff sell buy = ground arith
same_side_iff sell sell = ground arith

-- Membership in the priority indices after the erasure of a key.
pub contains_erased :
    (m : OrderManager) (s t : OrderSide) (k j : PriorityKey)
    → IsSorted (key_before t) (key_before-IsStrictOrder t) (priority_index t m)
    → contains
        (key_before s)
        j
        (priority_index s (with_priority_index t (erase (key_before t) k (priority_index t m)).0 m))
      ≡ (not (same_side t s && same (key_before s) k j)
          && contains (key_before s) j (priority_index s m))
unfolding same_side
contains_erased m buy buy k j h =
    contains-erase buy_before buy_before-IsStrictOrder k j m.buy_priority_index h
contains_erased m buy sell k j h = refl
contains_erased m sell buy k j h = refl
contains_erased m sell sell k j h =
    contains-erase sell_before sell_before-IsStrictOrder k j m.sell_priority_index h

pub IsSorted-erased :
    (m : OrderManager) (s t : OrderSide) (k : PriorityKey)
    → ((r : OrderSide) → IsSorted (key_before r) (key_before-IsStrictOrder r) (priority_index r m))
    → IsSorted
        (key_before s)
        (key_before-IsStrictOrder s)
        (priority_index s (with_priority_index t (erase (key_before t) k (priority_index t m)).0 m))
IsSorted-erased m buy buy k h =
    erase-IsSorted buy_before buy_before-IsStrictOrder k m.buy_priority_index (h buy)
IsSorted-erased m sell sell k h =
    erase-IsSorted sell_before sell_before-IsStrictOrder k m.sell_priority_index (h sell)
IsSorted-erased m buy sell k h = h buy
IsSorted-erased m sell buy k h = h sell

-- The priority indices do not depend on the other two fields.
pub priority_index-removed :
    (m : OrderManager) (s : OrderSide) (id i : ℕ) (o l : LimitOrder)
    → priority_index s (removed m id i o l)
      ≡ priority_index s (
          with_priority_index o.side
            (erase (key_before o.side) (make_priority_key o) (priority_index o.side m)).0
            m)
priority_index-removed m buy id i o l = refl
priority_index-removed m sell id i o l = refl

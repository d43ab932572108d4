-- ===== src/OrderManager/Invariant.antt =====
-- The invariant of the class `OrderManager` (src/order_manager.cpp): the vector, the identifier
-- index and the two priority indices describe the same orders.
use cmarket.Prelude.{
  ℕ, ◌≡◌, ◌≢◌, true, some, arith, get_elem?, ◌≤ℤ◌, ◌<ℤ◌, Result, pos, ok, err, invalid_argument,
}
use cmarket.Execution.{OrderSide, buy, sell, LimitOrder}
use cmarket.Validation.{require_positive}
use cmarket.SortedSet.{contains}
use cmarket.SortedSet.Laws.{IsSorted}
use cmarket.OrderManager.Keys.{PriorityKey, make_priority_key, key_before, key_before-IsStrictOrder}
use cmarket.OrderManager.Defs.{OrderManager, empty_manager, priority_index, validate_order}

-- What `validate_order` accepts.
pub record IsActive (o : LimitOrder) : Type 0 where
  pub identified : o.order_id ≢ 0
  pub priced : pos 0 <ℤ o.price_ticks
  pub open_quantity : pos 0 <ℤ o.remaining_quantity
  pub bounded : o.remaining_quantity ≤ℤ o.original_quantity
  pub sequenced : o.sequence_number ≢ 0

pub record IsConsistent (m : OrderManager) : Type 0 where
  -- Every order is found under its identifier.
  pub indexed :
      (i : ℕ) (o : LimitOrder) → get_elem? m.orders i ≡ some o → m.order_indices o.order_id ≡ some i
  -- Every index leads to the order of that identifier.
  pub found :
      (id i : ℕ)
      → m.order_indices id ≡ some i
      → (o : LimitOrder) × (get_elem? m.orders i ≡ some o) × (o.order_id ≡ id)
  -- Every order's key is in the index of its side.
  pub keyed :
      (i : ℕ) (o : LimitOrder)
      → get_elem? m.orders i ≡ some o
      → contains (key_before o.side) (make_priority_key o) (priority_index o.side m) ≡ true
  -- Every key belongs to an order.
  pub owned :
      (s : OrderSide) (k : PriorityKey)
      → contains (key_before s) k (priority_index s m) ≡ true
      → (i : ℕ) × (o : LimitOrder) × (get_elem? m.orders i ≡ some o)
        × (o.side ≡ s)
        × (make_priority_key o ≡ k)
  pub sorted :
      (s : OrderSide) → IsSorted (key_before s) (key_before-IsStrictOrder s) (priority_index s m)

-- Every order has passed `validate_order`. While an order is being filled this may fail.
abbrev pub IsAllActive : OrderManager → Type 0
IsAllActive m = (i : ℕ) (o : LimitOrder) → get_elem? m.orders i ≡ some o → IsActive o

pub empty_manager-IsConsistent : IsConsistent empty_manager
unfolding empty_manager contains
empty_manager-IsConsistent = record {
  indexed = λ i o h. cc;
  found = λ id i h. cc;
  keyed = λ i o h. cc;
  owned = λ s k h. absurd (no_key s k h);
  sorted = λ s. sorted s;
}
  where
    no_key :
        (s : OrderSide) (k : PriorityKey)
        → ¬ (contains (key_before s) k (priority_index s empty_manager) ≡ true)
    no_key buy k h = cc
    no_key sell k h = cc

    sorted :
        (s : OrderSide)
        → IsSorted (key_before s) (key_before-IsStrictOrder s) (priority_index s empty_manager)
    sorted buy = tt
    sorted sell = tt

-- What the check of an order says, by its outcome.
abbrev pub Validates : LimitOrder → Result (Unit {0}) → Type 0
Validates o (ok _) = IsActive o
Validates o (err invalid_argument) = ¬ IsActive o
Validates o (err _) = ⊥

-- `validate_order` accepts an order exactly if it has an identifier, a positive price, a positive
-- remaining quantity that is at most the original one, and a sequence number; else it throws
-- `invalid_argument`.
pub validate_order-Validates : (o : LimitOrder) → Validates o (validate_order o)
unfolding validate_order require_positive
validate_order-Validates o = ground arith

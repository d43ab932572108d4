-- ===== src/OrderManager/Best.antt =====
-- `best_buy_order` and `best_sell_order` (src/order_manager.cpp): price-time priority.
use cmarket.Prelude.{
  ℕ, ◌≤◌, ◌<◌, ◌≡◌, sym, ap, subst, ◌≢◌, ◌⊎◌, inl, inr, true, Option, none, some, arith,
  Option-cases, get_elem?, ◌<ℤ◌, eq_of_parts,
}
use cmarket.Execution.{OrderSide, buy, sell, LimitOrder}
use cmarket.SortedSet.{contains, first}
use cmarket.SortedSet.Laws.{first_least, first-contains, first-none}
use cmarket.OrderManager.Keys.{
  PriorityKey, make_priority_key, key_before, key_before-IsStrictOrder, buy_before, sell_before,
}
use cmarket.OrderManager.Defs.{OrderManager, priority_index}
use cmarket.OrderManager.Lookup.{find_order, best_order, best_buy_order, best_sell_order}
use cmarket.OrderManager.Invariant.{IsConsistent}

-- The order `o` goes before `p` on the buy side: at a higher price, or at the same price with an
-- earlier sequence number, or with the smaller identifier where these agree too.
abbrev pub HasPriority : OrderSide → LimitOrder → LimitOrder → Type 0
HasPriority buy o p =
    (p.price_ticks <ℤ o.price_ticks)
    ⊎ ((p.price_ticks ≡ o.price_ticks) × (o.sequence_number < p.sequence_number))
    ⊎ ((p.price_ticks ≡ o.price_ticks)
        × (o.sequence_number ≡ p.sequence_number)
        × (o.order_id ≤ p.order_id))
HasPriority sell o p =
    (o.price_ticks <ℤ p.price_ticks)
    ⊎ ((p.price_ticks ≡ o.price_ticks) × (o.sequence_number < p.sequence_number))
    ⊎ ((p.price_ticks ≡ o.price_ticks)
        × (o.sequence_number ≡ p.sequence_number)
        × (o.order_id ≤ p.order_id))

before-HasPriority :
    (s : OrderSide) (o p : LimitOrder)
    → (make_priority_key o ≡ make_priority_key p)
      ⊎ (key_before s (make_priority_key o) (make_priority_key p) ≡ true)
    → HasPriority s o p
unfolding make_priority_key buy_before sell_before
before-HasPriority buy o p (inl e) = inr (
    inr (
      sym (ap (λ (k : PriorityKey). k.price_ticks) e),
      ap (λ (k : PriorityKey). k.sequence_number) e,
      omega (arith, ap (λ (k : PriorityKey). k.order_id) e),
    ))
before-HasPriority buy o p (inr e) = ground (arith, e, eq_of_parts p.price_ticks o.price_ticks)
before-HasPriority sell o p (inl e) = inr (
    inr (
      sym (ap (λ (k : PriorityKey). k.price_ticks) e),
      ap (λ (k : PriorityKey). k.sequence_number) e,
      omega (arith, ap (λ (k : PriorityKey). k.order_id) e),
    ))
before-HasPriority sell o p (inr e) = ground (arith, e, eq_of_parts p.price_ticks o.price_ticks)

-- What a side's best order is: an order of that side that goes before every other one of it;
-- and there is none only where the side has no order.
abbrev pub IsBestOrder : OrderManager → OrderSide → Option LimitOrder → Type 0
IsBestOrder m s none = (id : ℕ) (p : LimitOrder) → find_order m id ≡ some p → p.side ≢ s
IsBestOrder m s (some o) =
    (find_order m o.order_id ≡ some o)
    × (o.side ≡ s)
    × ((id : ℕ) (p : LimitOrder) → find_order m id ≡ some p → p.side ≡ s → HasPriority s o p)

module _ (m : OrderManager) (c : IsConsistent m) where
  find_order-keyed :
      (id : ℕ) (p : LimitOrder)
      → find_order m id ≡ some p
      → contains (key_before p.side) (make_priority_key p) (priority_index p.side m) ≡ true
  unfolding find_order
  find_order-keyed id p h = elim (Option-cases (m.order_indices id)) [
    | inl e ↦ ground (arith, h, e)
    | inr (i, e) ↦ c.keyed i p (ground (arith, h, e))
  ]

  find_order_at :
      (i : ℕ) (o : LimitOrder) → get_elem? m.orders i ≡ some o → find_order m o.order_id ≡ some o
  unfolding find_order
  find_order_at i o h = rw (c.indexed i o h, find_order) h

  best_order-some :
      (s : OrderSide) (k : PriorityKey) (o : LimitOrder)
      → first (key_before s) (priority_index s m) ≡ some k
      → make_priority_key o ≡ k
      → find_order m o.order_id ≡ some o
      → best_order s m ≡ some o
  unfolding best_order make_priority_key
  best_order-some s k o e key_eq held =
      let id_eq : o.order_id ≡ k.order_id = ap (λ (j : PriorityKey). j.order_id) key_eq in
      ground (arith, e, id_eq, held)

  goes_first :
      (s : OrderSide) (k : PriorityKey) (o : LimitOrder)
      → first (key_before s) (priority_index s m) ≡ some k
      → make_priority_key o ≡ k
      → (id : ℕ) (p : LimitOrder) → find_order m id ≡ some p
      → p.side ≡ s
      → HasPriority s o p
  goes_first s k o e key_eq id p h side_eq = before-HasPriority s o p (
      rw key_eq (
        first_least (key_before s) (key_before-IsStrictOrder s) k (make_priority_key p)
          (priority_index s m) (c.sorted s) e
          (subst (λ t. contains (key_before t) (make_priority_key p) (priority_index t m) ≡ true)
            side_eq (find_order-keyed id p h))))

  pub best_order-IsBestOrder : (s : OrderSide) → IsBestOrder m s (best_order s m)
  unfolding best_order
  best_order-IsBestOrder s = elim (Option-cases (first (key_before s) (priority_index s m))) [
    | inl e ↦
        rw (e, best_order)
          λ id p h side_eq.
            let there : contains (key_before s) (make_priority_key p) (priority_index s m) ≡ true =
              subst (λ t. contains (key_before t) (make_priority_key p) (priority_index t m) ≡ true)
                side_eq (find_order-keyed id p h) in
            cc (
              there,
              first-none (key_before s) (key_before-IsStrictOrder s) (make_priority_key p)
                  (priority_index s m) e,
            )
    | inr (k, e) ↦
        let (i, o, at_i, side_eq, key_eq) =
          c.owned s k
            (first-contains (key_before s) (key_before-IsStrictOrder s) k (priority_index s m) e) in
        let held = find_order_at i o at_i in
        subst (IsBestOrder m s) (sym (best_order-some s k o e key_eq held))
          (held, side_eq, goes_first s k o e key_eq)
  ]

-- In a consistent manager the best buy and the best sell order follow price-time priority: each
-- is an active order of its side before which no other one of that side goes, and it is null
-- only if the side has no order.
pub best-IsBestOrder :
    (m : OrderManager)
    → IsConsistent m
    → IsBestOrder m buy (best_buy_order m) × IsBestOrder m sell (best_sell_order m)
unfolding best_buy_order best_sell_order
best-IsBestOrder m c = (best_order-IsBestOrder m c buy, best_order-IsBestOrder m c sell)

-- ===== src/OrderManager/Fill.antt =====
-- Writes of a remaining quantity through the pointer that `find_order` returns, as the matching
-- engine makes them (src/matching_engine.cpp), keep an order manager consistent.
use cmarket.Prelude.{
  ℕ, suc, ◌≡◌, refl, ◌∙◌, inl, inr, some, List, arith, ◌==◌, if◌then◌else◌, ==_iff, Bool-cases,
  length, get_elem?, set, get_elem?-lt, get_elem?-set, ℤ, ok,
}
use cmarket.Execution.{OrderSide, buy, sell, LimitOrder}
use cmarket.OrderManager.Keys.{make_priority_key}
use cmarket.OrderManager.Defs.{OrderManager, priority_index}
use cmarket.OrderManager.Lookup.{find_order, write_order}
use cmarket.OrderManager.Invariant.{IsConsistent}
use cmarket.OrderManager.Removal.{Removal, cancel_order_into}
use cmarket.OrderManager.Cancel.Sides.{removed}
use cmarket.OrderManager.Cancel.Removed.{removed-IsConsistent}
use cmarket.OrderManager.Cancel.Refines.{last_order, length-removed}
use cmarket.OrderManager.Restore.{cancel_order_into_lem}

-- The order with another remaining quantity.
abbrev pub with_remaining : LimitOrder → ℤ → LimitOrder
with_remaining o q = record o { remaining_quantity = q }

priority_index-orders :
    (s : OrderSide) (xs : List LimitOrder) (m : OrderManager)
    → priority_index s (record m { orders = xs }) ≡ priority_index s m
priority_index-orders buy xs m = refl
priority_index-orders sell xs m = refl

module _ (m : OrderManager) (c : IsConsistent m) (i : ℕ) (o : LimitOrder) (q : ℤ)
    (here : get_elem? m.orders i ≡ some o) where
  abbrev pub filled : OrderManager
  filled = record m { orders = set m.orders i (with_remaining o q) }

  get_filled :
      (j : ℕ)
      → get_elem? filled.orders j
        ≡ (if i == j then some (with_remaining o q) else get_elem? m.orders j)
  get_filled j = get_elem?-set m.orders i j (with_remaining o q) (get_elem?-lt m.orders i here)

  -- Every order of the written manager stands for one of the old, the same but for the quantity.
  filled-cases :
      (j : ℕ) (p : LimitOrder)
      → get_elem? filled.orders j ≡ some p
      → (p' : LimitOrder) × (get_elem? m.orders j ≡ some p')
        × (p.order_id ≡ p'.order_id)
        × (p.side ≡ p'.side)
        × (make_priority_key p ≡ make_priority_key p')
  unfolding make_priority_key
  filled-cases j p h = elim (Bool-cases (i == j)) [
    | inl e ↦
        let it : with_remaining o q ≡ p = ground (arith, h, e, get_filled j) in
        (o, rw (← (==_iff i j).0 e) here, rw (← it) refl, rw (← it) refl, rw (← it) refl)
    | inr e ↦ (p, ground (arith, h, e, get_filled j), refl, refl, refl)
  ]

  -- Every order of the old manager stands, but for the quantity, at its index.
  filled-kept :
      (j : ℕ) (p : LimitOrder)
      → get_elem? m.orders j ≡ some p
      → (p' : LimitOrder) × (get_elem? filled.orders j ≡ some p')
        × (p'.order_id ≡ p.order_id)
        × (p'.side ≡ p.side)
        × (make_priority_key p' ≡ make_priority_key p)
  unfolding make_priority_key
  filled-kept j p h = elim (Bool-cases (i == j)) [
    | inl e ↦
        let it : o ≡ p = ground (arith, h, here, (==_iff i j).0 e) in
        (
          with_remaining o q,
          ground (arith, e, get_filled j),
          rw (← it) refl,
          rw (← it) refl,
          rw (← it) refl,
        )
    | inr e ↦ (p, ground (arith, h, e, get_filled j), refl, refl, refl)
  ]

  pub filled-IsConsistent : IsConsistent filled
  filled-IsConsistent = record {
    indexed =
        λ j p h. let (p', at_j, id_eq, _, _) = filled-cases j p h in rw id_eq (c.indexed j p' at_j);
    found = λ id j h.
        let (p, at_j, named) = c.found id j h in
        let (p', at_j', id_eq, _, _) = filled-kept j p at_j in (p', at_j', id_eq ∙ named);
    keyed = λ j p h.
        let (p', at_j, _, side_eq, key_eq) = filled-cases j p h in
        rw (key_eq, side_eq, priority_index-orders p'.side filled.orders m) (c.keyed j p' at_j);
    owned = λ s k h.
        let (j, p, at_j, side_eq, key_eq) =
          c.owned s k (rw (priority_index-orders s filled.orders m) at h) in
        let (p', at_j', _, side_eq', key_eq') = filled-kept j p at_j in
        (j, p', at_j', side_eq' ∙ side_eq, key_eq' ∙ key_eq);
    sorted = λ s. rw (priority_index-orders s filled.orders m) (c.sorted s);
  }

-- The write through the pointer that `find_order` returned.
pub write_order_lem :
    (m : OrderManager) (id i : ℕ) (o v : LimitOrder)
    → m.order_indices id ≡ some i
    → get_elem? m.orders i ≡ some o
    → (write_order id v m ≡ record m { orders = set m.orders i v })
      × (find_order (write_order id v m) id ≡ some v)
unfolding write_order find_order
write_order_lem m id i o v held here =
    ground (arith, held, here, get_elem?-set m.orders i i v (get_elem?-lt m.orders i here))

-- Taking out an order that is there succeeds, and leaves a consistent manager one order shorter.
pub cancel_order_into-shrinks :
    (m : OrderManager) (id i : ℕ) (o : LimitOrder)
    → IsConsistent m
    → m.order_indices id ≡ some i
    → get_elem? m.orders i ≡ some o
    → (r : Removal) × (m' : OrderManager) × (cancel_order_into id m ≡ (ok (some r), m'))
      × IsConsistent m'
      × (length m.orders ≡ suc (length m'.orders))
cancel_order_into-shrinks m id i o c held here =
    let (l, last) = last_order m i o here in
    (
      _,
      removed m id i o l,
      cancel_order_into_lem m c id i o l held here last,
      removed-IsConsistent m c id i o l held here last,
      length-removed m c id i o l held here last,
    )

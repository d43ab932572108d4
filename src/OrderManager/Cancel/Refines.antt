-- ===== src/OrderManager/Cancel/Refines.antt =====
-- What `cancel_order` (src/order_manager.cpp) does to the map from identifiers to orders that the
-- manager stands for.
use cmarket.Prelude.{
  ℕ, suc, ◌-◌, ◌≡◌, ◌≢◌, inl, inr, Bool, true, false, none, some, arith, ◌==◌, if◌then◌else◌,
  Option-cases, length, get_elem?, set, length-set, get_elem?-lt, get_elem?-some, length-pop_back,
  Result, ok, err,
}
use cmarket.Execution.{LimitOrder}
use cmarket.OrderManager.Defs.{OrderManager, cancel_order}
use cmarket.OrderManager.Lookup.{find_order}
use cmarket.OrderManager.Invariant.{IsConsistent, IsAllActive}
use cmarket.OrderManager.Cancel.Sides.{removed}
use cmarket.OrderManager.Cancel.Removed.{
  removed-IsConsistent, removed-cases, remove_at_lem, get_removed, id_eq,
}

module _ (m : OrderManager) (c : IsConsistent m) (id i : ℕ) (o l : LimitOrder)
    (held : m.order_indices id ≡ some i) (here : get_elem? m.orders i ≡ some o)
    (last : get_elem? m.orders (length m.orders - 1) ≡ some l) where
  -- The map of the manager without one order.
  pub find_order-removed :
      (j : ℕ) → find_order (removed m id i o l) j ≡ (if id == j then none else find_order m j)
  unfolding find_order
  find_order-removed j = elim (Option-cases (m.order_indices j)) [
    | inl e ↦ ground (arith, e, c.indexed (length m.orders - 1) l last)
    | inr (k, e) ↦
        let (p, at_k, named) = c.found j k e in
        ground (
          arith,
          e,
          at_k,
          named,
          here,
          last,
          id_eq m c id i o l held here last,
          c.indexed (length m.orders - 1) l last,
          get_removed m c id i o l held here last k,
          get_removed m c id i o l held here last i,
          get_elem?-lt m.orders i here,
          get_elem?-lt m.orders k at_k,
        )
  ]

  pub length-removed : length m.orders ≡ suc (length (removed m id i o l).orders)
  length-removed = omega (
    arith,
    get_elem?-lt m.orders i here,
    length-pop_back (set m.orders i l),
    length-set m.orders i l,
  )

  pub cancel_order_found : cancel_order id m ≡ (ok true, removed m id i o l)
  unfolding cancel_order
  cancel_order_found = rw (held, cancel_order) (remove_at_lem m c id i o l held here last)

-- The last order of a manager that has one.
pub last_order :
    (m : OrderManager) (i : ℕ) (o : LimitOrder)
    → get_elem? m.orders i ≡ some o
    → (l : LimitOrder) × (get_elem? m.orders (length m.orders - 1) ≡ some l)
last_order m i o h =
    get_elem?-some m.orders (length m.orders - 1) (omega (arith, get_elem?-lt m.orders i h))

-- What a cancellation of `id` may do: where no order has the identifier it returns false and
-- changes nothing; else it returns true, keeps the invariant, and takes just that order out.
abbrev pub Cancels : OrderManager → ℕ → Result Bool × OrderManager → Type 0
Cancels m id (ok false, m') = (find_order m id ≡ none) × (m' ≡ m)
Cancels m id (ok true, m') =
    (find_order m id ≢ none)
    × IsConsistent m'
    × ((j : ℕ) → find_order m' j ≡ (if id == j then none else find_order m j))
    × (length m.orders ≡ suc (length m'.orders))
Cancels m id (err e, m') = ⊥

-- In a consistent manager `cancel_order` never throws. It returns false exactly where no order
-- has the identifier, and then changes nothing; else it returns true, the manager is consistent
-- again with one order less, and the identifier is free while every other one still finds the
-- same order.
pub cancel_order-Cancels :
    (m : OrderManager) (id : ℕ) → IsConsistent m → Cancels m id (cancel_order id m)
unfolding cancel_order find_order
cancel_order-Cancels m id c = elim (Option-cases (m.order_indices id)) [
  | inl e ↦ ground (arith, e)
  | inr (i, e) ↦
      let (o, here, named) = c.found id i e in
      let (l, last) = last_order m i o here in
      rw (cancel_order_found m c id i o l e here last) (
        λ none_found. ground (arith, none_found, e, here),
        removed-IsConsistent m c id i o l e here last,
        find_order-removed m c id i o l e here last,
        length-removed m c id i o l e here last,
      )
]

-- Cancelling keeps all orders active.
pub cancel_order-IsAllActive :
    (m : OrderManager) (id : ℕ) → IsConsistent m → IsAllActive m → IsAllActive (cancel_order id m).1
unfolding cancel_order
cancel_order-IsAllActive m id c a = elim (Option-cases (m.order_indices id)) [
  | inl e ↦ rw (e, cancel_order) a
  | inr (i, e) ↦
      let (o, here, named) = c.found id i e in
      let (l, last) = last_order m i o here in
      rw (cancel_order_found m c id i o l e here last)
        λ j p h. let (k, at_k, _) = removed-cases m c id i o l e here last j p h in a k p at_k
]

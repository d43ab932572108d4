-- ===== src/OrderManager/Cancel/Removed.antt =====
-- The manager after `cancel_order` has taken one order out (src/order_manager.cpp).
use cmarket.Prelude.{
  ℕ, suc, ◌-◌, ◌≡◌, ap, fun_ext, ◌∙◌, ◌≢◌, inl, inr, true, not, ◌&&◌, none, some, arith, ◌==◌,
  if◌then◌else◌, ==_iff, Bool-cases, length, get_elem?, set, length-set, get_elem?-lt,
  get_elem?-set, get_elem?-pop_back, set_self, ok,
}
use cmarket.Execution.{OrderSide, LimitOrder}
use cmarket.SortedSet.{same, contains, erase}
use cmarket.SortedSet.Laws.{same-eq, same_refl, erase_found}
use cmarket.OrderManager.Keys.{PriorityKey, make_priority_key, key_before, key_before-IsStrictOrder}
use cmarket.OrderManager.Defs.{
  OrderManager, priority_index, map_set, map_erase, at, fill_gap, erase_priority, drop_last,
  remove_at,
}
use cmarket.OrderManager.Invariant.{IsConsistent}
use cmarket.OrderManager.Cancel.Sides.{
  removed, same_side, same_side_iff, contains_erased, IsSorted-erased, priority_index-removed,
}

module _ (m : OrderManager) (c : IsConsistent m) (id i : ℕ) (o l : LimitOrder)
    (held : m.order_indices id ≡ some i) (here : get_elem? m.orders i ≡ some o)
    (last : get_elem? m.orders (length m.orders - 1) ≡ some l) where
  -- The identifier of the order is that under which it was found.
  pub id_eq : o.order_id ≡ id
  id_eq = let (o', e, f) = c.found id i held in cc

  -- Where the order is itself the last, nothing moves.
  pub unmoved_orders : i ≡ length m.orders - 1 → set m.orders i l ≡ m.orders
  unmoved_orders e = set_self m.orders i l (rw e last)

  pub unmoved_indices :
      i ≡ length m.orders - 1
      → map_erase id (map_set l.order_id i m.order_indices) ≡ map_erase id m.order_indices
  unmoved_indices e =
      let same : o ≡ l = cc (e, here, last) in
      let l_id : l.order_id ≡ id = cc (same, id_eq) in fun_ext λ j. ground (arith, l_id)

  key_found : (erase (key_before o.side) (make_priority_key o) (priority_index o.side m)).1 ≡ true
  key_found =
      erase_found (key_before o.side) (key_before-IsStrictOrder o.side) (make_priority_key o)
        (priority_index o.side m)
      ∙ c.keyed i o here

  pub remove_at_lem : remove_at id i m ≡ (ok true, removed m id i o l)
  unfolding remove_at at erase_priority fill_gap drop_last
  remove_at_lem = elim (Bool-cases (i == length m.orders - 1)) [
    | inl e ↦
        let e' : i ≡ length m.orders - 1 = (==_iff _ _).0 e in
        ground (arith, here, key_found, unmoved_orders e', unmoved_indices e')
    | inr e ↦ ground (arith, here, last, key_found, c.indexed (length m.orders - 1) l last)
  ]

  pub get_removed :
      (j : ℕ)
      → get_elem? (removed m id i o l).orders j ≡ (
          if suc j == length m.orders
          then none
          else if i == j
          then some l
          else get_elem? m.orders j)
  get_removed j = ground (
    arith,
    get_elem?-pop_back (set m.orders i l) j,
    length-set m.orders i l,
    get_elem?-set m.orders i j l (get_elem?-lt m.orders i here),
  )

  removed-indexed :
      (j : ℕ) (p : LimitOrder)
      → get_elem? (removed m id i o l).orders j ≡ some p
      → (removed m id i o l).order_indices p.order_id ≡ some j
  removed-indexed j p h = ground (
    arith,
    get_removed j,
    h,
    c.indexed j p,
    c.indexed (length m.orders - 1) l last,
    held,
    get_elem?-lt m.orders i here,
    get_elem?-lt m.orders j {a = p},
  )

  removed-found :
      (q j : ℕ)
      → (removed m id i o l).order_indices q ≡ some j
      → (p : LimitOrder) × (get_elem? (removed m id i o l).orders j ≡ some p) × (p.order_id ≡ q)
  removed-found q j h = elim (Bool-cases (l.order_id == q)) [
    | inl e ↦ (
      l,
      ground (arith, h, e, get_removed j, held, last, get_elem?-lt m.orders i here, id_eq),
      (==_iff l.order_id q).0 e,
    )
    | inr e ↦
        let (p, at_j, named) = c.found q j (ground (arith, h, e)) in
        (p, ground (arith, h, e, get_removed j, last, here, id_eq, at_j, named), named)
  ]

  contains-removed :
      (s : OrderSide) (k : PriorityKey)
      → contains (key_before s) k (priority_index s (removed m id i o l)) ≡ (
          not (same_side o.side s && same (key_before s) (make_priority_key o) k)
          && contains (key_before s) k (priority_index s m))
  contains-removed s k =
      rw (priority_index-removed m s id i o l)
        (contains_erased m s o.side (make_priority_key o) k (c.sorted o.side))

  -- What is left stood in the vector before, at another index than `i`.
  pub removed-cases :
      (j : ℕ) (p : LimitOrder)
      → get_elem? (removed m id i o l).orders j ≡ some p
      → (k : ℕ) × (get_elem? m.orders k ≡ some p) × (k ≢ i)
  removed-cases j p h = elim (Bool-cases (i == j)) [
    | inl e ↦ (
      length m.orders - 1,
      ground (arith, h, e, get_removed j, last),
      ground (arith, h, e, get_removed j, get_elem?-lt m.orders i here),
    )
    | inr e ↦ (j, ground (arith, h, e, get_removed j), ground (arith, e))
  ]

  -- Two orders at different indices have different identifiers.
  other_id : (k : ℕ) (p : LimitOrder) → get_elem? m.orders k ≡ some p → k ≢ i → p.order_id ≢ id
  other_id k p h ne e = ground (arith, c.indexed k p h, held, e, ne)

  same_key :
      (s : OrderSide) (p : LimitOrder)
      → same (key_before s) (make_priority_key o) (make_priority_key p) ≡ true
      → o.order_id ≡ p.order_id
  unfolding make_priority_key
  same_key s p e =
      ap (λ (k : PriorityKey). k.order_id)
        (same-eq (key_before s) (key_before-IsStrictOrder s) (make_priority_key o)
          (make_priority_key p) e)

  removed-keyed :
      (j : ℕ) (p : LimitOrder)
      → get_elem? (removed m id i o l).orders j ≡ some p
      → contains
          (key_before p.side)
          (make_priority_key p)
          (priority_index p.side (removed m id i o l))
        ≡ true
  removed-keyed j p h =
      let (k, at_k, ne) = removed-cases j p h in
      ground (
        arith,
        contains-removed p.side (make_priority_key p),
        c.keyed k p at_k,
        other_id k p at_k ne,
        id_eq,
        same_key p.side p,
      )

  -- The key of the removed order has left the index.
  not_erased :
      (s : OrderSide) (k : PriorityKey) (p : LimitOrder)
      → contains (key_before s) k (priority_index s (removed m id i o l)) ≡ true
      → p ≡ o
      → p.side ≡ s
      → make_priority_key p ≡ k
      → ⊥
  not_erased s k p h e es ek =
      let ok_eq : make_priority_key o ≡ k = cc (e, ek) in
      let side_eq : o.side ≡ s = cc (e, es) in
      let same_eq : same (key_before s) (make_priority_key o) k ≡ true =
        rw ok_eq (same_refl (key_before s) (key_before-IsStrictOrder s) k) in
      ground (arith, h, contains-removed s k, (same_side_iff o.side s).1 side_eq, same_eq)

  removed-owned :
      (s : OrderSide) (k : PriorityKey)
      → contains (key_before s) k (priority_index s (removed m id i o l)) ≡ true
      → (j : ℕ) × (p : LimitOrder) × (get_elem? (removed m id i o l).orders j ≡ some p)
        × (p.side ≡ s)
        × (make_priority_key p ≡ k)
  removed-owned s k h =
      let old : contains (key_before s) k (priority_index s m) ≡ true =
        ground (arith, h, contains-removed s k) in
      let (j, p, at_j, side_eq, key_eq) = c.owned s k old in
      let moved : j ≢ i = λ e. not_erased s k p h (cc (e, at_j, here)) side_eq key_eq in
      elim (Bool-cases (j == length m.orders - 1)) [
        | inl e ↦ (
          i,
          p,
          ground (arith, e, at_j, last, moved, get_removed i, get_elem?-lt m.orders i here),
          side_eq,
          key_eq,
        )
        | inr e ↦ (
          j,
          p,
          ground (arith, e, at_j, moved, get_removed j, get_elem?-lt m.orders j at_j),
          side_eq,
          key_eq,
        )
      ]

  pub removed-IsConsistent : IsConsistent (removed m id i o l)
  removed-IsConsistent = record {
    indexed = removed-indexed;
    found = removed-found;
    keyed = removed-keyed;
    owned = removed-owned;
    sorted = λ s.
        rw (priority_index-removed m s id i o l)
          (IsSorted-erased m s o.side (make_priority_key o) c.sorted);
  }

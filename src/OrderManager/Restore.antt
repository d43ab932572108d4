-- ===== src/OrderManager/Restore.antt =====
-- `restore_removal` undoes `cancel_order` (src/order_manager.cpp).
use cmarket.Prelude.{
  ℕ, suc, ◌-◌, ◌≡◌, refl, ap, fun_ext, ◌∙◌, ◌≢◌, inl, inr, true, not, none, some, List, arith, ◌==◌,
  if◌then◌else◌, ==_iff, Bool-cases, Option-cases, length, get_elem?, set, push_back, pop_back,
  length-set, get_elem?-lt, get_elem?-set, get_elem?-push_back, length-pop_back, set_self, list_ext,
  get_elem?-none, ℤ, ok,
}
use cmarket.Execution.{OrderSide, buy, sell, LimitOrder}
use cmarket.SortedSet.{insert, erase, extract}
use cmarket.SortedSet.Laws.{insert-erase, extract_lem}
use cmarket.OrderManager.Keys.{PriorityKey, make_priority_key, key_before, key_before-IsStrictOrder}
use cmarket.OrderManager.Defs.{
  OrderManager, IndexMap, priority_index, with_priority_index, map_set, map_erase, at, fill_gap,
  drop_last,
}
use cmarket.OrderManager.Removal.{
  Removal, cancel_order_into, remove_into, swapped_id, extract_priority, restore_removal,
  restore_slot, restore_index, restore_priority, restore_swapped, has_id, is_some,
}
use cmarket.OrderManager.Invariant.{IsConsistent}
use cmarket.OrderManager.Lookup.{find_order}
use cmarket.OrderManager.Cancel.Refines.{last_order}
use cmarket.OrderManager.Cancel.Sides.{removed}
use cmarket.OrderManager.Cancel.Removed.{id_eq, get_removed, unmoved_orders, unmoved_indices}

priority_index_with :
    (t : OrderSide) (keys : List PriorityKey) (n : OrderManager)
    → priority_index t (with_priority_index t keys n) ≡ keys
priority_index_with buy keys n = refl
priority_index_with sell keys n = refl

with_priority_index_back :
    (t : OrderSide) (keys : List PriorityKey) (n : OrderManager)
    → with_priority_index t (priority_index t n) (with_priority_index t keys n) ≡ n
with_priority_index_back buy keys n = refl
with_priority_index_back sell keys n = refl

priority_index_same :
    (t : OrderSide) (orders : List LimitOrder) (indices : IndexMap) (m : OrderManager)
    → priority_index t (record m { orders = orders; order_indices = indices }) ≡ priority_index t m
priority_index_same buy orders indices m = refl
priority_index_same sell orders indices m = refl

module _ (m : OrderManager) (c : IsConsistent m) (id i : ℕ) (o l : LimitOrder)
    (held : m.order_indices id ≡ some i) (here : get_elem? m.orders i ≡ some o)
    (last : get_elem? m.orders (length m.orders - 1) ≡ some l) where
  -- The removal that the cancellation hands out.
  abbrev pub removal : Removal
  removal = record {
    removed_order = o;
    original_index = i;
    swapped = not (i == length m.orders - 1);
    swapped_order_id = if i == length m.orders - 1 then 0 else l.order_id;
    removed_index_node = some id;
    removed_priority_node = some (make_priority_key o);
  }

  key_extracted : extract (key_before o.side) (make_priority_key o) (priority_index o.side m) ≡ (
    (erase (key_before o.side) (make_priority_key o) (priority_index o.side m)).0,
    some (make_priority_key o),
  )
  key_extracted = ground (
    arith,
    extract_lem (key_before o.side) (key_before-IsStrictOrder o.side) (make_priority_key o)
        (priority_index o.side m),
    c.keyed i o here,
  )

  pub cancel_order_into_lem : cancel_order_into id m ≡ (ok (some removal), removed m id i o l)
  unfolding cancel_order_into remove_into at extract_priority swapped_id fill_gap drop_last
  cancel_order_into_lem = elim (Bool-cases (i == length m.orders - 1)) [
    | inl e ↦
        let e' : i ≡ length m.orders - 1 = (==_iff _ _).0 e in
        ground (
          arith,
          held,
          here,
          key_extracted,
          unmoved_orders m c id i o l held here last e',
          unmoved_indices m c id i o l held here last e',
        )
    | inr e ↦
        ground (arith, held, here, last, key_extracted, c.indexed (length m.orders - 1) l last)
  ]

  shorter : length m.orders ≡ suc (length (pop_back (set m.orders i l)))
  shorter = omega (
    arith,
    get_elem?-lt m.orders i here,
    length-pop_back (set m.orders i l),
    length-set m.orders i l,
  )

  restored_orders_last :
      (o' : LimitOrder)
      → i ≡ length m.orders - 1
      → push_back (removed m id i o l).orders o' ≡ set m.orders i o'
  restored_orders_last o' e = list_ext _ _ λ j. ground (
    arith,
    e,
    shorter,
    get_elem?-push_back (pop_back (set m.orders i l)) o' j,
    get_removed m c id i o l held here last j,
    get_elem?-set m.orders i j o' (get_elem?-lt m.orders i here),
    get_elem?-none m.orders j,
  )

  restored_orders_swapped :
      (o' : LimitOrder)
      → i ≢ length m.orders - 1
      → push_back (set (removed m id i o l).orders i o') l ≡ set m.orders i o'
  restored_orders_swapped o' e = list_ext _ _ λ j. ground (
    arith,
    e,
    last,
    shorter,
    get_elem?-lt m.orders i here,
    length-set (pop_back (set m.orders i l)) i o',
    get_elem?-push_back (set (pop_back (set m.orders i l)) i o') l j,
    get_elem?-set (pop_back (set m.orders i l)) i j o',
    get_removed m c id i o l held here last j,
    get_elem?-set m.orders i j o' (get_elem?-lt m.orders i here),
    get_elem?-none m.orders j,
  )

  restored_indices_last :
      i ≡ length m.orders - 1
      → map_set id i (map_erase id (map_set l.order_id i m.order_indices)) ≡ m.order_indices
  restored_indices_last e =
      let same : o ≡ l = cc (e, here, last) in
      let l_id : l.order_id ≡ id = cc (same, id_eq m c id i o l held here last) in
      fun_ext λ j. ground (arith, l_id, held)

  restored_indices_swapped :
      map_set l.order_id
        (length m.orders - 1)
        (map_set id i (map_erase id (map_set l.order_id i m.order_indices)))
      ≡ m.order_indices
  restored_indices_swapped =
      fun_ext λ j. ground (arith, held, c.indexed (length m.orders - 1) l last)

  key_restored :
      insert
        (key_before o.side)
        (make_priority_key o)
        (erase (key_before o.side) (make_priority_key o) (priority_index o.side m)).0
      ≡ (priority_index o.side m, true)
  key_restored =
      insert-erase (key_before o.side) (key_before-IsStrictOrder o.side) (make_priority_key o)
        (priority_index o.side m) (c.sorted o.side) (c.keyed i o here)

  -- The insertion of the priority node, whatever stands in the other two fields by then.
  restore_priority_lem :
      (orders : List LimitOrder) (indices : IndexMap)
      → let n : OrderManager = record m { orders = orders; order_indices = indices } in
        restore_priority o.side (some (make_priority_key o)) (
          with_priority_index o.side
            (erase (key_before o.side) (make_priority_key o) (priority_index o.side m)).0
            n)
        ≡ (ok tt, n)
  unfolding restore_priority
  restore_priority_lem orders indices = ground (
    arith,
    key_restored,
    priority_index_with o.side
        (erase (key_before o.side) (make_priority_key o) (priority_index o.side m)).0
        (record m { orders = orders; order_indices = indices }),
    priority_index_same o.side orders indices m,
    with_priority_index_back o.side
        (erase (key_before o.side) (make_priority_key o) (priority_index o.side m)).0
        (record m { orders = orders; order_indices = indices }),
  )

  -- The order may have another remaining quantity than when it was taken out.
  pub restore_removal_lem :
      (q : ℤ)
      → let o' : LimitOrder = record o { remaining_quantity = q } in
        restore_removal (record removal { removed_order = o' }) (removed m id i o l)
        ≡ (ok tt, record m { orders = set m.orders i o' })
  unfolding restore_removal restore_slot restore_index restore_swapped has_id is_some
  restore_removal_lem q =
      let o' : LimitOrder = record o { remaining_quantity = q } in
      elim (Bool-cases (i == length m.orders - 1)) [
        | inl e ↦
            let e' : i ≡ length m.orders - 1 = (==_iff _ _).0 e in
            ground (
              arith,
              e,
              id_eq m c id i o l held here last,
              restored_orders_last o' e',
              restored_indices_last e',
              restore_priority_lem (push_back (removed m id i o l).orders o')
                  (map_set id i (map_erase id (map_set l.order_id i m.order_indices))),
            )
        | inr e ↦
            let e' : i ≢ length m.orders - 1 = ground (arith, e) in
            ground (
              arith,
              e,
              last,
              shorter,
              id_eq m c id i o l held here last,
              get_elem?-lt m.orders i here,
              get_removed m c id i o l held here last i,
              restored_orders_swapped o' e',
              restored_indices_swapped,
              c.indexed (length m.orders - 1) l last,
              restore_priority_lem (push_back (set (removed m id i o l).orders i o') l)
                  (map_set id i (map_erase id (map_set l.order_id i m.order_indices))),
            )
      ]

-- The cancellation of `id` succeeds, and restoring its removal gives the manager of before.
abbrev pub Restores : OrderManager → ℕ → ℤ → Type 0
Restores m id q =
    (i : ℕ) × (o : LimitOrder) × (r : Removal) × (m' : OrderManager) × (get_elem? m.orders i
      ≡ some o)
    × (o.order_id ≡ id)
    × (cancel_order_into id m ≡ (ok (some r), m'))
    × (r.removed_order ≡ o)
    × (restore_removal r m' ≡ (ok tt, m))
    × (restore_removal (record r { removed_order = record o { remaining_quantity = q } }) m'
        ≡ (ok tt, record m { orders = set m.orders i (record o { remaining_quantity = q }) }))

-- `restore_removal` undoes `cancel_order` exactly. In a consistent manager, taking out an order
-- that is there and then restoring the removal, as it is or with another remaining quantity (to
-- which the rollbacks of the matching engine set it back first), does not throw and gives the
-- manager of before, the order at its old index and with that quantity: the vector in the same
-- order, the identifier index and both priority indices unchanged.
pub restore-cancel :
    (m : OrderManager) (id : ℕ) (q : ℤ) → IsConsistent m → find_order m id ≢ none → Restores m id q
unfolding find_order
restore-cancel m id q c known = elim (Option-cases (m.order_indices id)) [
  | inl e ↦ absurd (known (rw (e, find_order)))
  | inr (i, e) ↦
      let (o, here, named) = c.found id i e in
      let (l, last) = last_order m i o here in
      (
        i,
        o,
        removal m c id i o l e here last,
        removed m id i o l,
        here,
        named,
        cancel_order_into_lem m c id i o l e here last,
        refl,
        restore_removal_lem m c id i o l e here last o.remaining_quantity
            ∙ ap (λ xs. (ok tt, record m { orders = xs })) (set_self m.orders i o here),
        restore_removal_lem m c id i o l e here last q,
      )
]

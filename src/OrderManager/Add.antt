-- ===== src/OrderManager/Add.antt =====
-- `add_order` (src/order_manager.cpp) against the map from identifiers to orders.
pub mod Refines
pub mod Undo
use cmarket.Prelude.{
  ℕ, zero, suc, ◌+◌, ◌-◌, ◌*◌, ◌/◌, ◌%◌, ◌^◌, ◌≤◌, ◌<◌, ◌≡◌, refl, sym, ap, ap₂, subst, fun_ext,
  ◌∙◌, ◌≢◌, ◌↔◌, ◌⊎◌, inl, inr, Bool, true, false, not, ◌&&◌, ◌||◌, Option, none, some, List, [],
  ◌∷◌, ◌++◌, map, arith, ltb, leb, ◌==◌, if◌then◌else◌, ==_iff, Bool-cases, Option-cases, u64_mod,
  length, get_elem?, set, take, push_back, pop_back, length-push_back, pop_back-push_back,
  length-set, get_elem?-lt, get_elem?-some, get_elem?-set, get_elem?-push_back, length-pop_back,
  get_elem?-pop_back, set_self, pos_part, neg_part, sub_ℕ, ◌+ℤ◌, ◌-ℤ◌, ◌*ℤ◌, neg, ◌/ℤ◌, ◌≤ℤ◌, ◌<ℤ◌,
  ltb_ℤ, leb_ℤ, eqb_ℤ, min_ℤ, int64_max, int64_min, +ℤ_parts, -ℤ_parts, neg_parts, eq_of_parts,
  eqb_ℤ_iff, ℤ, int_laws, throw_if, and_then, Action, pure, throw, gets, lift, ◌>>=◌, ◌>>◌, modify,
  when, rethrow_after, on_throw, Error, Result, pos, negsuc, ok, err, invalid_argument,
  overflow_error, logic_error, runtime_error, out_of_range, undefined_behaviour, out_of_fuel,
}
use cmarket.Execution.{OrderSide, buy, sell, LimitOrder}
use cmarket.SortedSet.{same, contains, insert}
use cmarket.SortedSet.Laws.{
  IsSorted, same-eq, same_refl, insert_new, contains-insert, insert-IsSorted,
}
use cmarket.OrderManager.Keys.{
  PriorityKey, make_priority_key, key_before, key_before-IsStrictOrder, buy_before, sell_before,
  buy_before-IsStrictOrder, sell_before-IsStrictOrder,
}
use cmarket.OrderManager.Defs.{
  OrderManager, priority_index, with_priority_index, map_set, map_erase, insert_priority,
  validate_order, add_order,
}
use cmarket.OrderManager.Lookup.{find_order}
use cmarket.OrderManager.Invariant.{
  IsConsistent, IsActive, IsAllActive, Validates, validate_order-Validates,
}
use cmarket.OrderManager.Cancel.Sides.{same_side, same_side_iff}

-- The manager with one order more.
abbrev pub added : OrderManager → LimitOrder → OrderManager
added m o =
    with_priority_index o.side
      (insert (key_before o.side) (make_priority_key o) (priority_index o.side m)).0
      (record m {
        orders = push_back m.orders o;
        order_indices = map_set o.order_id (length m.orders) m.order_indices;
      })

contains_added :
    (m : OrderManager) (s : OrderSide) (o : LimitOrder) (j : PriorityKey) (t : OrderSide)
    (k : PriorityKey)
    → contains (key_before s) j (
        priority_index s (
          with_priority_index t (insert (key_before t) k (priority_index t m)).0 (record m {
            orders = push_back m.orders o;
            order_indices = map_set o.order_id (length m.orders) m.order_indices;
          })))
      ≡ (same_side t s && same (key_before s) k j || contains (key_before s) j (priority_index s m))
unfolding same_side
contains_added m buy o j buy k =
    contains-insert buy_before buy_before-IsStrictOrder k j m.buy_priority_index
contains_added m buy o j sell k = refl
contains_added m sell o j buy k = refl
contains_added m sell o j sell k =
    contains-insert sell_before sell_before-IsStrictOrder k j m.sell_priority_index

IsSorted-added :
    (m n : OrderManager) (s t : OrderSide) (k : PriorityKey)
    → ((r : OrderSide) → priority_index r n ≡ priority_index r m)
    → ((r : OrderSide) → IsSorted (key_before r) (key_before-IsStrictOrder r) (priority_index r m))
    → IsSorted (key_before s) (key_before-IsStrictOrder s) (
        priority_index s (with_priority_index t (insert (key_before t) k (priority_index t m)).0 n))
IsSorted-added m n buy buy k e h =
    insert-IsSorted buy_before buy_before-IsStrictOrder k m.buy_priority_index (h buy)
IsSorted-added m n sell sell k e h =
    insert-IsSorted sell_before sell_before-IsStrictOrder k m.sell_priority_index (h sell)
IsSorted-added m n buy sell k e h = rw (e buy) (h buy)
IsSorted-added m n sell buy k e h = rw (e sell) (h sell)

module _ (m : OrderManager) (c : IsConsistent m) (o : LimitOrder)
    (fresh : m.order_indices o.order_id ≡ none) where
  pub key_fresh :
      contains (key_before o.side) (make_priority_key o) (priority_index o.side m) ≡ false
  unfolding make_priority_key
  key_fresh =
      elim (Bool-cases
        (contains (key_before o.side) (make_priority_key o) (priority_index o.side m))) [
          | inl e ↦
              let (i, p, at_i, _, key_eq) = c.owned o.side (make_priority_key o) e in
              let same_id : p.order_id ≡ o.order_id = ap (λ (k : PriorityKey). k.order_id) key_eq in
              cc (c.indexed i p at_i, same_id, fresh)
          | inr e ↦ e
        ]

  key_added : (insert (key_before o.side) (make_priority_key o) (priority_index o.side m)).1 ≡ true
  key_added = ground (
    arith,
    key_fresh,
    insert_new (key_before o.side) (key_before-IsStrictOrder o.side) (make_priority_key o)
        (priority_index o.side m) (c.sorted o.side),
  )

  pub add_order_fresh : validate_order o ≡ ok tt → add_order o m ≡ (ok tt, added m o)
  unfolding add_order insert_priority
  add_order_fresh v = ground (arith, v, fresh, key_added, length-push_back m.orders o)

  pub get_added :
      (j : ℕ)
      → get_elem? (added m o).orders j
        ≡ (if j == length m.orders then some o else get_elem? m.orders j)
  get_added j = get_elem?-push_back m.orders o j

  contains_in_added :
      (s : OrderSide) (k : PriorityKey)
      → contains (key_before s) k (priority_index s (added m o)) ≡ (
          same_side o.side s && same (key_before s) (make_priority_key o) k
          || contains (key_before s) k (priority_index s m))
  contains_in_added s k = contains_added m s o k o.side (make_priority_key o)

  added-indexed :
      (j : ℕ) (p : LimitOrder)
      → get_elem? (added m o).orders j ≡ some p
      → (added m o).order_indices p.order_id ≡ some j
  added-indexed j p h = ground (arith, h, get_added j, c.indexed j p, fresh)

  added-found :
      (q j : ℕ)
      → (added m o).order_indices q ≡ some j
      → (p : LimitOrder) × (get_elem? (added m o).orders j ≡ some p) × (p.order_id ≡ q)
  added-found q j h = elim (Bool-cases (o.order_id == q)) [
    | inl e ↦ (o, ground (arith, h, e, get_added j), (==_iff o.order_id q).0 e)
    | inr e ↦
        let (p, at_j, named) = c.found q j (ground (arith, h, e)) in
        (p, ground (arith, get_added j, at_j, get_elem?-lt m.orders j at_j), named)
  ]

  added-keyed :
      (j : ℕ) (p : LimitOrder)
      → get_elem? (added m o).orders j ≡ some p
      → contains (key_before p.side) (make_priority_key p) (priority_index p.side (added m o))
        ≡ true
  added-keyed j p h = elim (Bool-cases (j == length m.orders)) [
    | inl e ↦
        let it : o ≡ p = ground (arith, h, e, get_added j) in
        rw (← it) (
          ground (
            arith,
            contains_in_added o.side (make_priority_key o),
            (same_side_iff o.side o.side).1 refl,
            same_refl (key_before o.side) (key_before-IsStrictOrder o.side) (make_priority_key o),
          ))
    | inr e ↦ ground (
      arith,
      contains_in_added p.side (make_priority_key p),
      c.keyed j p (ground (arith, h, e, get_added j)),
    )
  ]

  added-owned :
      (s : OrderSide) (k : PriorityKey)
      → contains (key_before s) k (priority_index s (added m o)) ≡ true
      → (j : ℕ) × (p : LimitOrder) × (get_elem? (added m o).orders j ≡ some p)
        × (p.side ≡ s)
        × (make_priority_key p ≡ k)
  added-owned s k h =
      elim (Bool-cases (same_side o.side s && same (key_before s) (make_priority_key o) k)) [
        | inl e ↦ (
          length m.orders,
          o,
          ground (arith, get_added (length m.orders)),
          (same_side_iff o.side s).0 (ground (arith, e)),
          same-eq (key_before s) (key_before-IsStrictOrder s) (make_priority_key o) k
              (ground (arith, e)),
        )
        | inr e ↦
            let (j, p, at_j, side_eq, key_eq) =
              c.owned s k (ground (arith, h, e, contains_in_added s k)) in
            (j, p, ground (arith, get_added j, at_j, get_elem?-lt m.orders j at_j), side_eq, key_eq)
      ]

  pub added-IsConsistent : IsConsistent (added m o)
  added-IsConsistent = record {
    indexed = added-indexed;
    found = added-found;
    keyed = added-keyed;
    owned = added-owned;
    sorted = λ s.
        IsSorted-added m
          (record m {
            orders = push_back m.orders o;
            order_indices = map_set o.order_id (length m.orders) m.order_indices;
          })
          s o.side (make_priority_key o) same_indices c.sorted;
  }
    where
      same_indices :
          (r : OrderSide)
          → priority_index r (record m {
            orders = push_back m.orders o;
            order_indices = map_set o.order_id (length m.orders) m.order_indices;
          })
            ≡ priority_index r m
      same_indices buy = refl
      same_indices sell = refl

  pub find_order-added :
      (j : ℕ) → find_order (added m o) j ≡ (if o.order_id == j then some o else find_order m j)
  unfolding find_order
  find_order-added j = elim (Option-cases (m.order_indices j)) [
    | inl e ↦ ground (arith, e, get_added (length m.orders))
    | inr (k, e) ↦
        let (p, at_k, named) = c.found j k e in
        ground
          (arith, e, at_k, get_added (length m.orders), get_added k, get_elem?-lt m.orders k at_k)
  ]

  pub added-IsAllActive : IsActive o → IsAllActive m → IsAllActive (added m o)
  added-IsAllActive a all j p h = elim (Bool-cases (j == length m.orders)) [
    | inl e ↦ let it : o ≡ p = ground (arith, h, e, get_added j) in rw (← it) a
    | inr e ↦ all j p (ground (arith, h, e, get_added j))
  ]

-- ===== src/OrderManager/Add/Refines.antt =====
-- What `add_order` (src/order_manager.cpp) does, on every outcome.
use cmarket.Prelude.{
  ℕ, suc, ◌≡◌, refl, ◌≢◌, ◌⊎◌, inl, inr, none, some, arith, ◌==◌, if◌then◌else◌, Option-cases,
  length, length-push_back, Error, Result, ok, err, invalid_argument, overflow_error, logic_error,
  runtime_error, out_of_range, undefined_behaviour, out_of_fuel,
}
use cmarket.Execution.{LimitOrder}
use cmarket.OrderManager.Defs.{OrderManager, validate_order, add_order}
use cmarket.OrderManager.Lookup.{find_order}
use cmarket.OrderManager.Invariant.{IsConsistent, IsActive, Validates, validate_order-Validates}
use cmarket.OrderManager.Add.{added, add_order_fresh, added-IsConsistent, find_order-added}

abbrev pub Adds : OrderManager → LimitOrder → Result (Unit {0}) × OrderManager → Type 0
Adds m o (ok _, m') =
    IsActive o
    × (find_order m o.order_id ≡ none)
    × IsConsistent m'
    × ((j : ℕ) → find_order m' j ≡ (if o.order_id == j then some o else find_order m j))
    × (length m'.orders ≡ suc (length m.orders))
Adds m o (err invalid_argument, m') = ((¬ IsActive o) ⊎ (find_order m o.order_id ≢ none)) × (m' ≡ m)
Adds m o (err _, m') = ⊥

find_order-none : (m : OrderManager) (id : ℕ) → m.order_indices id ≡ none → find_order m id ≡ none
unfolding find_order
find_order-none m id e = rw (e, find_order)

find_order-held :
    (m : OrderManager) (c : IsConsistent m) (id i : ℕ)
    → m.order_indices id ≡ some i
    → find_order m id ≢ none
unfolding find_order
find_order-held m c id i e h = let (o, here, _) = c.found id i e in ground (arith, e, here, h)

add_order_known :
    (m : OrderManager) (o : LimitOrder) (i : ℕ)
    → validate_order o ≡ ok tt
    → m.order_indices o.order_id ≡ some i
    → add_order o m ≡ (err invalid_argument, m)
unfolding add_order
add_order_known m o i v e = ground (arith, v, e)

add_order-valid :
    (m : OrderManager) (o : LimitOrder)
    → IsConsistent m
    → validate_order o ≡ ok tt
    → IsActive o
    → Adds m o (add_order o m)
add_order-valid m o c v a = elim (Option-cases (m.order_indices o.order_id)) [
  | inl e ↦ rw (add_order_fresh m c o e v) (
    a,
    find_order-none m o.order_id e,
    added-IsConsistent m c o e,
    find_order-added m c o e,
    length-push_back m.orders o,
  )
  | inr (i, e) ↦ rw (add_order_known m o i v e) (inr (find_order-held m c o.order_id i e), refl)
]

add_order_refused :
    (m : OrderManager) (o : LimitOrder) (e : Error)
    → validate_order o ≡ err e
    → add_order o m ≡ (err e, m)
unfolding add_order
add_order_refused m o e v = ground (arith, v)

-- The two outcomes of `add_order` on a consistent manager.
pub add_order-cases :
    (m : OrderManager) (o : LimitOrder)
    → IsConsistent m
    → ((x : Error) × (x ≢ out_of_fuel) × (add_order o m ≡ (err x, m)))
      ⊎ ((m.order_indices o.order_id ≡ none)
          × (validate_order o ≡ ok tt)
          × (add_order o m ≡ (ok tt, added m o)))
add_order-cases m o c = by_check (validate_order o) refl (validate_order-Validates o)
  where
    by_check :
        (r : Result (Unit {0}))
        → validate_order o ≡ r
        → Validates o r
        → ((x : Error) × (x ≢ out_of_fuel) × (add_order o m ≡ (err x, m)))
          ⊎ ((m.order_indices o.order_id ≡ none)
              × (validate_order o ≡ ok tt)
              × (add_order o m ≡ (ok tt, added m o)))
    by_check (ok tt) v a = elim (Option-cases (m.order_indices o.order_id)) [
      | inl fresh ↦ inr (fresh, v, add_order_fresh m c o fresh v)
      | inr (i, e) ↦ inl (invalid_argument, (λ h. cc h), add_order_known m o i v e)
    ]
    by_check (err out_of_fuel) v a = absurd a
    by_check (err invalid_argument) v a =
        inl (invalid_argument, (λ h. cc h), add_order_refused m o invalid_argument v)
    by_check (err overflow_error) v a = absurd a
    by_check (err logic_error) v a = absurd a
    by_check (err runtime_error) v a = absurd a
    by_check (err out_of_range) v a = absurd a
    by_check (err undefined_behaviour) v a = absurd a

-- On a consistent manager `add_order` either succeeds or throws `invalid_argument`, never
-- `logic_error`. It succeeds only on a valid order under a free identifier, and then the manager
-- is consistent, one order longer, and finds the order under its identifier and every other
-- order as before. It throws only on an invalid order or a taken identifier, and then leaves
-- the manager as it was.
pub add_order-Adds : (m : OrderManager) (o : LimitOrder) → IsConsistent m → Adds m o (add_order o m)
add_order-Adds m o c = by_check (validate_order o) refl (validate_order-Validates o)
  where
    by_check :
        (r : Result (Unit {0})) → validate_order o ≡ r → Validates o r → Adds m o (add_order o m)
    by_check (ok tt) v a = add_order-valid m o c v a
    by_check (err invalid_argument) v a =
        rw (add_order_refused m o invalid_argument v) (inl a, refl)
    by_check (err overflow_error) v a = absurd a
    by_check (err logic_error) v a = absurd a
    by_check (err runtime_error) v a = absurd a
    by_check (err out_of_range) v a = absurd a
    by_check (err undefined_behaviour) v a = absurd a
    by_check (err out_of_fuel) v a = absurd a

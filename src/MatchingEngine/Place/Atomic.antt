-- ===== src/MatchingEngine/Place/Atomic.antt =====
-- `place_limit_order` (src/matching_engine.cpp) either takes effect or changes nothing.
use cmarket.Prelude.{
  ℕ, suc, ◌-◌, ◌%◌, ◌≡◌, refl, sym, subst, ◌≢◌, ◌⊎◌, inl, inr, Bool, true, false, none, some, [],
  arith, ◌==◌, if◌then◌else◌, Bool-cases, u64_mod, ◌≤ℤ◌, ◌<ℤ◌, leb_ℤ, int64_max, ℤ, Error, Result,
  pos, ok, err, invalid_argument, overflow_error, out_of_fuel,
}
use cmarket.Execution.{OrderSide, LimitOrder}
use cmarket.Validation.{validate_limit_order, require_positive}
use cmarket.IdGenerator
use cmarket.IdGenerator.{OrderIdGenerator}
use cmarket.OrderBook.Book.{replace_normalized_snapshot}
use cmarket.OrderBook.Book.Invariant.{IsBook}
use cmarket.OrderManager.Invariant.{IsConsistent}
use cmarket.MatchingEngine.Invariant.{IsLocal}
use cmarket.MatchingEngine.Defs.{MatchingEngine, crosses_order_book}
use cmarket.MatchingEngine.Place.{
  is_empty, Placing, place_as, place_body, take_sequence_number, place_limit_order,
}
use cmarket.MatchingEngine.Place.Handler.{
  undo_place_lem, Outcome, IsReady, ready-IsRecoverable, place_as-Outcome,
}

module _ (e : MatchingEngine) (side : OrderSide) (p q : ℤ) where
  -- The state in which the body starts, and after the book has been cleared.
  abbrev start : Bool → Placing
  start first = record {
    engine = e;
    order_book_backup = if first then some e.order_book else none;
    non_crossing_book_adjusted = false;
  }

  abbrev cleared : Bool → Placing
  cleared first = record (start first) {
    engine =
        if first
        then record e { order_book = replace_normalized_snapshot [] [] e.order_book }
        else e;
  }

  -- The state in which the order is placed.
  abbrev pub ready : Bool → Placing
  ready first = record (cleared first) {
    engine = record (cleared first).engine {
      order_id_generator = record { next_order_id = suc e.order_id_generator.next_order_id };
      next_sequence_number = suc e.next_sequence_number % u64_mod;
    };
  }

  module _ (c : IsConsistent e.order_manager) (h : IsBook e.order_book) (positive : pos 0 <ℤ p)
      (open_quantity : pos 0 <ℤ q) (bounded : q ≤ℤ int64_max) where
    cleared-IsReady :
        (first : Bool) (ids : OrderIdGenerator) (n : ℕ)
        → IsReady e side p q (record (cleared first) {
          engine = record (cleared first).engine {
            order_id_generator = ids;
            next_sequence_number = n;
          };
        })
    unfolding replace_normalized_snapshot
    cleared-IsReady true ids n = record {
      orders = refl;
      trades = refl;
      flag = refl;
      sorted = record { bids_sorted = tt; asks_sorted = tt };
      book = inl refl;
      consistent = c;
    }
    cleared-IsReady false ids n = record {
      orders = refl;
      trades = refl;
      flag = refl;
      sorted = h;
      book = inr (refl, refl);
      consistent = c;
    }

    body_exhausted :
        (first : Bool)
        → (e.order_id_generator.next_order_id == u64_mod - 1) ≡ true
        → place_body side p q first (start first) ≡ (err overflow_error, cleared first)
    unfolding place_body IdGenerator.next
    body_exhausted true last = ground (arith, last)
    body_exhausted false last = ground (arith, last)

    -- The order that is placed.
    abbrev incoming_order : LimitOrder
    incoming_order = record {
      order_id = e.order_id_generator.next_order_id;
      side = side;
      price_ticks = p;
      original_quantity = q;
      remaining_quantity = q;
      sequence_number = e.next_sequence_number;
    }

    body_ready :
        (first : Bool)
        → (e.order_id_generator.next_order_id == u64_mod - 1) ≡ false
        → place_body side p q first (start first)
          ≡ place_as (crosses_order_book side p (ready first).engine) incoming_order (ready first)
    unfolding place_body IdGenerator.next take_sequence_number
    body_ready true more = ground (arith, more)
    body_ready false more = ground (arith, more)

    place_body-Outcome :
        (first : Bool)
        → Outcome e side p q
            (ready first).engine
            e.order_id_generator.next_order_id
            (place_body side p q first (start first))
    place_body-Outcome first =
        elim (Bool-cases (e.order_id_generator.next_order_id == u64_mod - 1)) [
          | inl last ↦
              subst (Outcome e side p q (ready first).engine e.order_id_generator.next_order_id)
                (sym (body_exhausted first last))
                (
                  (λ same. cc same),
                  ready-IsRecoverable e side p q (cleared first) (
                      cleared-IsReady first (cleared first).engine.order_id_generator
                        (cleared first).engine.next_sequence_number),
                )
          | inr more ↦
              subst (Outcome e side p q (ready first).engine e.order_id_generator.next_order_id)
                (sym (body_ready first more))
                (place_as-Outcome e side p q (ready first) (cleared-IsReady first _ _)
                  incoming_order refl refl refl positive open_quantity bounded
                  (crosses_order_book side p (ready first).engine))
        ]

validate_limit_order-cases :
    (p q : ℤ)
    → ((x : Error) × (x ≢ out_of_fuel) × (validate_limit_order p q ≡ err x))
      ⊎ ((validate_limit_order p q ≡ ok tt) × (pos 0 <ℤ p) × (pos 0 <ℤ q))
unfolding validate_limit_order require_positive
validate_limit_order-cases p q = elim (Bool-cases (leb_ℤ p (pos 0))) [
  | inl h ↦ inl (invalid_argument, (λ same. cc same), ground (arith, h))
  | inr h ↦ elim (Bool-cases (leb_ℤ q (pos 0))) [
    | inl k ↦ inl (invalid_argument, (λ same. cc same), ground (arith, h, k))
    | inr k ↦ inr (ground (arith, h, k), ground (arith, h), ground (arith, k))
  ]
]

-- What placing an order may do: it returns the next identifier, or nothing has changed.
abbrev pub IsAtomic : MatchingEngine → Result ℕ × MatchingEngine → Type 0
IsAtomic e (ok id, e') = id ≡ e.order_id_generator.next_order_id
IsAtomic e (err x, e') = (x ≢ out_of_fuel) × (e' ≡ e)

-- The same, and the book stays in step with the orders.
abbrev pub Places : MatchingEngine → MatchingEngine → Result ℕ × MatchingEngine → Type 0
Places e ready (ok id, e') =
    (id ≡ e.order_id_generator.next_order_id) × (IsLocal ready → IsLocal e')
Places e ready (err x, e') = (x ≢ out_of_fuel) × (e' ≡ e)

-- The engine in which the order is placed.
abbrev pub ready_engine : MatchingEngine → OrderSide → ℤ → ℤ → MatchingEngine
ready_engine e side p q = (ready e side p q (is_empty e.order_manager.orders)).engine

module _ (e : MatchingEngine) (side : OrderSide) (p q : ℤ)
    (valid : validate_limit_order p q ≡ ok tt) where
  abbrev first_of : Bool
  first_of = is_empty e.order_manager.orders

  by_body :
      (o : Result ℕ × Placing)
      → place_body side p q first_of (start e side p q first_of) ≡ o
      → Outcome e side p q (ready e side p q first_of).engine e.order_id_generator.next_order_id o
      → Places e (ready_engine e side p q) (place_limit_order side p q e)
  unfolding place_limit_order
  by_body (ok id, s) h r =
      let eq : place_limit_order side p q e ≡ (ok id, s.engine) = ground (arith, valid, h) in
      subst (Places e (ready_engine e side p q)) (sym eq) r
  by_body (err x, s) h (ne, r) =
      let (s', undone, back) = undo_place_lem e side p q s r in
      let eq : place_limit_order side p q e ≡ (err x, s'.engine) =
        ground (arith, valid, h, undone) in
      subst (Places e (ready_engine e side p q)) (sym eq) (ne, back)

-- What `place_limit_order` does.
pub place_limit_order-Places :
    (e : MatchingEngine) (side : OrderSide) (p q : ℤ)
    → IsConsistent e.order_manager
    → IsBook e.order_book
    → q ≤ℤ int64_max
    → Places e (ready_engine e side p q) (place_limit_order side p q e)
unfolding place_limit_order
place_limit_order-Places e side p q c h bounded = elim (validate_limit_order-cases p q) [
  | inl (x, ne, refused) ↦
      let eq : place_limit_order side p q e ≡ (err x, e) = ground (arith, refused) in
      subst (Places e (ready_engine e side p q)) (sym eq) (ne, refl)
  | inr (valid, positive, open_quantity) ↦
      by_body e side p q valid
        (place_body side p q (first_of e side p q valid)
          (start e side p q (first_of e side p q valid)))
        refl
        (place_body-Outcome e side p q c h positive open_quantity bounded
          (first_of e side p q valid))
]

-- `place_limit_order` on consistent orders and a well-formed book, for any price and any 64-bit
-- quantity: it returns the next identifier of the generator, or it throws and the whole engine is
-- as it was before the call: the book with the quantities that trades had taken, the orders and
-- both priority indices, the trades and their counters, the identifier and sequence counters. The
-- model's bound on the match loop is never what fails.
pub place_limit_order-IsAtomic :
    (e : MatchingEngine) (side : OrderSide) (p q : ℤ)
    → IsConsistent e.order_manager
    → IsBook e.order_book
    → q ≤ℤ int64_max
    → IsAtomic e (place_limit_order side p q e)
place_limit_order-IsAtomic e side p q c h bounded =
    by_outcome (place_limit_order side p q e) (place_limit_order-Places e side p q c h bounded)
  where
    by_outcome :
        (o : Result ℕ × MatchingEngine) → Places e (ready_engine e side p q) o → IsAtomic e o
    by_outcome (ok id, e') h = h.0
    by_outcome (err x, e') h = h

-- ===== src/MatchingEngine/Matching/Synced.antt =====
-- The trades of a match loop keep the book in step with the resting orders
-- (src/matching_engine.cpp).
use cmarket.Prelude.{
  ℕ, ◌-◌, ◌≡◌, sym, ap, subst, ◌∙◌, ◌≢◌, inl, inr, true, false, some, arith, ◌==◌, ==_iff,
  Bool-cases, length, get_elem?, set, pop_back, get_elem?-lt, get_elem?-set, ◌+ℤ◌, ◌-ℤ◌, neg, ◌≤ℤ◌,
  ◌<ℤ◌, eqb_ℤ, int64_max, +ℤ_parts, -ℤ_parts, neg_parts, eq_of_parts, eqb_ℤ_iff, ℤ, pos, ok,
}
use cmarket.Execution.{OrderSide, LimitOrder, is_filled}
use cmarket.OrderBook.Levels.Sorted.{quantity_at}
use cmarket.OrderBook.Book.{OrderBook}
use cmarket.OrderBook.Book.Invariant.{IsBook}
use cmarket.OrderManager.Defs.{OrderManager}
use cmarket.OrderManager.Removal.{Removal, cancel_order_into}
use cmarket.OrderManager.Invariant.{IsConsistent, IsAllActive, IsActive}
use cmarket.OrderManager.Fill.{with_remaining}
use cmarket.OrderManager.Cancel.Sides.{removed, same_side_iff}
use cmarket.OrderManager.Cancel.Removed.{removed-cases}
use cmarket.OrderManager.Cancel.Refines.{last_order}
use cmarket.OrderManager.Restore.{cancel_order_into_lem}
use cmarket.MatchingEngine.Defs.{MatchingEngine}
use cmarket.MatchingEngine.Invariant.{
  side_levels, share, resting_quantity, IsSynced, resting-set, resting-removed, share-le,
}
use cmarket.MatchingEngine.Cancel.Release.{IsBookUpdate}
use cmarket.MatchingEngine.Cancel.Refines.{side_cases, share_is}
use cmarket.MatchingEngine.Matching.{Matching, note_mutation, note_removal}
use cmarket.MatchingEngine.Matching.Trade.{executed, incoming_after, resting_after}
use cmarket.MatchingEngine.Matching.Round.{written, Round, written-IsConsistent, written_at}
use cmarket.MatchingEngine.Place.Back.{adjust_order_book-IsBookUpdate}

-- The book with `x` less at the price of an order, and the orders with `x` less of that one.
shrinks :
    (e : MatchingEngine) (b : OrderBook) (i : ℕ) (o : LimitOrder) (x : ℤ)
    → IsSynced e
    → get_elem? e.order_manager.orders i ≡ some o
    → IsBookUpdate o.side o.price_ticks
        (quantity_at (side_levels o.side e.order_book) o.price_ticks +ℤ neg x)
        e.order_book
        b
    → pos 0 <ℤ x
    → x ≤ℤ o.remaining_quantity
    → (t : OrderSide) (r : ℤ)
    → quantity_at (side_levels t b) r
      ≡ pos (
          resting_quantity t r
            (set e.order_manager.orders i (with_remaining o (o.remaining_quantity -ℤ x))))
shrinks e b i o x synced here u positive le t r =
    let after : LimitOrder = with_remaining o (o.remaining_quantity -ℤ x) in
    let q = quantity_at (side_levels o.side e.order_book) o.price_ticks in
    ground (
      arith,
      u.map_eq t r,
      synced t r,
      resting-set t r e.order_manager.orders i o after here,
      share-le t r e.order_manager.orders i o here,
      share_is o t r,
      share_is after t r,
      (same_side_iff o.side t).0,
      (eqb_ℤ_iff o.price_ticks r).0,
      neg_parts x,
      -ℤ_parts o.remaining_quantity x,
      +ℤ_parts q (neg x),
      eq_of_parts (q +ℤ neg x) (pos (resting_quantity t r (set e.order_manager.orders i after))),
    )

-- What is left of a quantity that is not filled.
still_open : (a x : ℤ) → x ≤ℤ a → eqb_ℤ (a -ℤ x) (pos 0) ≡ false → pos 0 <ℤ a -ℤ x
still_open a x le h = ground (arith, h, le, -ℤ_parts a x)

some_inj : {A : Type 0} {a b : A} → some a ≡ some b → a ≡ b
some_inj h = cc h

orders_removed :
    (m : OrderManager) (id i : ℕ) (o l : LimitOrder)
    → (removed m id i o l).orders ≡ pop_back (set m.orders i l)
orders_removed m id i o l = ground (arith, side_cases o.side)

share_filled : (o : LimitOrder) (t : OrderSide) (x : ℤ) → is_filled o ≡ true → share t x o ≡ 0
unfolding is_filled
share_filled o t x h = ground (arith, share_is o t x, (eqb_ℤ_iff o.remaining_quantity (pos 0)).0 h)

-- The state between two trades.
pub record IsInStep (s : Matching) : Type 0 where
  pub book : IsBook s.engine.order_book
  pub active : IsAllActive s.engine.order_manager
  pub synced : IsSynced s.engine
  pub not_negative : pos 0 ≤ℤ s.incoming.remaining_quantity
  pub int64 : s.incoming.remaining_quantity ≤ℤ int64_max

module _ (s s' : Matching) (c : IsConsistent s.engine.order_manager) (p : IsInStep s)
    (d : Round s s') where
  abbrev o : LimitOrder
  o = d.found.resting

  abbrev done : ℤ
  done = executed s.incoming o

  o-IsActive : IsActive o
  o-IsActive = p.active d.found.index o d.found.here

  -- What was traded is positive and was there.
  traded_bounds :
      (pos 0 <ℤ done) × (done ≤ℤ o.remaining_quantity) × (done ≤ℤ s.incoming.remaining_quantity)
  traded_bounds = ground (arith, d.unfilled, o-IsActive.open_quantity)

  book-IsBookUpdate :
      IsBookUpdate o.side o.price_ticks
        (quantity_at (side_levels o.side s.engine.order_book) o.price_ticks +ℤ neg done)
        s.engine.order_book
        d.trades.book
  book-IsBookUpdate =
      adjust_order_book-IsBookUpdate o.side o.price_ticks (neg done)
        (record s.engine { trade_store = d.trades.store }) d.trades.book p.book
        (omega (arith, o-IsActive.priced)) (omega (arith, traded_bounds, p.int64, neg_parts done))
        (omega (arith, traded_bounds, neg_parts done)) d.trades.adjusted

  -- The book and the written orders agree.
  written-IsSynced :
      (t : OrderSide) (r : ℤ)
      → quantity_at (side_levels t d.trades.book) r
        ≡ pos (resting_quantity t r (written s o d.found.index).orders)
  written-IsSynced =
      shrinks s.engine d.trades.book d.found.index o done p.synced d.found.here book-IsBookUpdate
        traded_bounds.0 traded_bounds.1

  -- The order is filled or still active.
  after-IsActive :
      is_filled (resting_after s.incoming o) ≡ false → IsActive (resting_after s.incoming o)
  unfolding is_filled
  after-IsActive h =
      let a = o-IsActive in
      record {
        identified = a.identified;
        priced = a.priced;
        open_quantity = still_open o.remaining_quantity done traded_bounds.1 h;
        bounded = omega (arith, a.bounded, traded_bounds, -ℤ_parts o.remaining_quantity done);
        sequenced = a.sequenced;
      }

  written-IsActive :
      (j : ℕ) (q : LimitOrder)
      → get_elem? (written s o d.found.index).orders j ≡ some q
      → j ≢ d.found.index
      → IsActive q
  written-IsActive j q h ne = p.active j q (
      ground (
        arith,
        h,
        ne,
        get_elem?-set s.engine.order_manager.orders d.found.index j (resting_after s.incoming o)
            (get_elem?-lt s.engine.order_manager.orders d.found.index d.found.here),
      ))

  written-IsAllActive :
      is_filled (resting_after s.incoming o) ≡ false → IsAllActive (written s o d.found.index)
  written-IsAllActive h j q k = elim (Bool-cases (j == d.found.index)) [
    | inl e ↦
        let j_eq : j ≡ d.found.index = (==_iff j d.found.index).0 e in
        let it : resting_after s.incoming o ≡ q = some_inj (
          sym (written_at s c d.found)
          ∙ ap (get_elem? (written s o d.found.index).orders) (sym j_eq)
          ∙ k) in
        subst IsActive it (after-IsActive h)
    | inr e ↦ written-IsActive j q k (ground (arith, e))
  ]

  -- The manager from which the filled order has been taken out.
  module _ (r : Removal) (m : OrderManager) (full : is_filled (resting_after s.incoming o) ≡ true)
      (taken : cancel_order_into o.order_id (written s o d.found.index) ≡ (ok (some r), m)) where
    taken-removed :
        (l : LimitOrder) × (get_elem?
            (written s o d.found.index).orders
            (length (written s o d.found.index).orders - 1)
          ≡ some l)
        × (m
            ≡ removed
                (written s o d.found.index)
                o.order_id
                d.found.index
                (resting_after s.incoming o)
                l)
    taken-removed =
        let (l, last) =
          last_order (written s o d.found.index) d.found.index (resting_after s.incoming o)
            (written_at s c d.found) in
        let lem =
          cancel_order_into_lem (written s o d.found.index) (written-IsConsistent s c d.found)
            o.order_id d.found.index (resting_after s.incoming o) l d.found.held
            (written_at s c d.found) last in
        (l, last, cc (lem, taken))

    taken-IsAllActive : IsAllActive m
    taken-IsAllActive =
        let (l, last, eq) = taken-removed in
        subst IsAllActive (sym eq) λ j q h.
          let (k, at_k, ne) =
            removed-cases (written s o d.found.index) (written-IsConsistent s c d.found) o.order_id
              d.found.index (resting_after s.incoming o) l d.found.held (written_at s c d.found)
              last j q h in
          written-IsActive k q at_k ne

    taken-same :
        (t : OrderSide) (x : ℤ)
        → resting_quantity t x m.orders ≡ resting_quantity t x (written s o d.found.index).orders
    taken-same t x =
        let (l, last, eq) = taken-removed in
        let gone =
          resting-removed t x (written s o d.found.index).orders d.found.index
            (resting_after s.incoming o) l (written_at s c d.found) last in
        let orders_eq =
          orders_removed (written s o d.found.index) o.order_id d.found.index
            (resting_after s.incoming o) l in
        ap (λ (n : OrderManager). resting_quantity t x n.orders) eq
        ∙ ap (resting_quantity t x) orders_eq
        ∙ omega (arith, gone, share_filled (resting_after s.incoming o) t x full)

  left_of_incoming :
      (pos 0 ≤ℤ (incoming_after s.incoming o).remaining_quantity)
      × ((incoming_after s.incoming o).remaining_quantity ≤ℤ int64_max)
  left_of_incoming =
      omega (arith, traded_bounds, p.int64, -ℤ_parts s.incoming.remaining_quantity done)

  pub round-IsInStep : IsInStep s'
  unfolding note_mutation note_removal
  round-IsInStep = elim d.outcome [
    | inl (not_full, eq) ↦ subst IsInStep (sym eq) (record {
      book = book-IsBookUpdate.well_formed;
      active = written-IsAllActive not_full;
      synced = written-IsSynced;
      not_negative = left_of_incoming.0;
      int64 = left_of_incoming.1;
    })
    | inr (full, r, m, taken, eq) ↦ subst IsInStep (sym eq) (record {
      book = book-IsBookUpdate.well_formed;
      active = taken-IsAllActive r m full taken;
      synced = λ t x. written-IsSynced t x ∙ ap pos (sym (taken-same r m full taken t x));
      not_negative = left_of_incoming.0;
      int64 = left_of_incoming.1;
    })
  ]

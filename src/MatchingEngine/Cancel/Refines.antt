-- ===== src/MatchingEngine/Cancel/Refines.antt =====
-- What `MatchingEngine::cancel_order` (src/matching_engine.cpp) does to the orders and the book
-- of an engine between two calls.
use cmarket.Prelude.{
  ℕ, ◌-◌, ◌≤◌, ◌≡◌, refl, ap, ◌⊎◌, inl, inr, Bool, true, false, ◌&&◌, none, some, arith, ◌==◌,
  if◌then◌else◌, Option-cases, length, get_elem?, set, pop_back, pos_part, neg_part, ◌+ℤ◌, neg,
  ◌≤ℤ◌, eqb_ℤ, int64_max, +ℤ_parts, neg_parts, eq_of_parts, eqb_ℤ_iff, ℤ, Result, pos, ok, err,
}
use cmarket.Execution.{OrderSide, buy, sell, LimitOrder}
use cmarket.OrderBook.Levels.Sorted.{
  quantity_at, bid_before-IsStrictOrder, ask_before-IsStrictOrder,
}
use cmarket.OrderBook.Levels.Canonical.{quantity_at_bounds}
use cmarket.OrderBook.Levels.{bid_before, ask_before}
use cmarket.OrderBook.Book.{OrderBook}
use cmarket.OrderBook.Book.Invariant.{IsBook}
use cmarket.OrderManager.Lookup.{find_order}
use cmarket.OrderManager.Invariant.{IsActive}
use cmarket.OrderManager.Cancel.Sides.{removed, same_side, same_side_iff}
use cmarket.OrderManager.Cancel.Removed.{removed-IsConsistent, removed-cases}
use cmarket.OrderManager.Cancel.Refines.{last_order, cancel_order_found, find_order-removed}
use cmarket.MatchingEngine.Defs.{MatchingEngine, adjust_order_book}
use cmarket.MatchingEngine.Invariant.{
  side_levels, is_at, share, resting_quantity, IsSynced, IsValid, resting-removed, share-le,
}
use cmarket.MatchingEngine.Cancel.{cancel_order, release_quantity}
use cmarket.MatchingEngine.Cancel.Release.{IsBookUpdate, adjust_order_book_lem}

pub side_cases : (s : OrderSide) → (s ≡ buy) ⊎ (s ≡ sell)
side_cases buy = inl refl
side_cases sell = inr refl

pub share_is :
    (o : LimitOrder) (t : OrderSide) (r : ℤ)
    → share t r o
      ≡ (if same_side o.side t && eqb_ℤ o.price_ticks r then pos_part o.remaining_quantity else 0)
unfolding share is_at same_side
share_is o buy r = ground (arith, side_cases o.side)
share_is o sell r = ground (arith, side_cases o.side)

pub side_bound :
    (s : OrderSide) (b : OrderBook) (p : ℤ)
    → IsBook b
    → (pos 0 ≤ℤ quantity_at (side_levels s b) p) × (quantity_at (side_levels s b) p ≤ℤ int64_max)
side_bound buy b p h = quantity_at_bounds bid_before bid_before-IsStrictOrder b.bids p h.bids_sorted
side_bound sell b p h =
    quantity_at_bounds ask_before ask_before-IsStrictOrder b.asks p h.asks_sorted

module _ (e : MatchingEngine) (v : IsValid e) (id i : ℕ) (o l : LimitOrder)
    (held : e.order_manager.order_indices id ≡ some i)
    (here : get_elem? e.order_manager.orders i ≡ some o)
    (last : get_elem? e.order_manager.orders (length e.order_manager.orders - 1) ≡ some l) where
  synced : IsSynced e
  synced = v.synced (ground (arith, here))

  -- What is left of the order is in the book, at its price.
  covered :
      pos_part o.remaining_quantity
      ≤ pos_part (quantity_at (side_levels o.side e.order_book) o.price_ticks)
  covered = ground (
    arith,
    synced o.side o.price_ticks,
    share-le o.side o.price_ticks e.order_manager.orders i o here,
    share_is o o.side o.price_ticks,
    (same_side_iff o.side o.side).1 refl,
    (eqb_ℤ_iff o.price_ticks o.price_ticks).1 refl,
  )

  released :
      (b' : OrderBook) × (adjust_order_book o.side o.price_ticks
          (neg o.remaining_quantity)
          (record e { order_manager = removed e.order_manager id i o l })
        ≡ (ok tt, record e { order_manager = removed e.order_manager id i o l; order_book = b' }))
      × IsBookUpdate o.side o.price_ticks
          (quantity_at (side_levels o.side e.order_book) o.price_ticks +ℤ neg o.remaining_quantity)
          e.order_book
          b'
  released =
      let a : IsActive o = v.active i o here in
      let q = quantity_at (side_levels o.side e.order_book) o.price_ticks in
      let bound = side_bound o.side e.order_book o.price_ticks v.book in
      let whole : neg_part q ≡ 0 = ap neg_part (synced o.side o.price_ticks) in
      adjust_order_book_lem o.side o.price_ticks (neg o.remaining_quantity)
        (record e { order_manager = removed e.order_manager id i o l }) v.book
        (omega (arith, a.priced))
        (omega (arith, a.open_quantity, bound, covered, whole, neg_parts o.remaining_quantity))
        (omega (arith, a.open_quantity, bound, covered, whole, neg_parts o.remaining_quantity))
        (omega (
          arith,
          a.open_quantity,
          bound,
          covered,
          whole,
          neg_parts o.remaining_quantity,
          +ℤ_parts q (neg o.remaining_quantity),
        ))
        (omega (
          arith,
          a.open_quantity,
          bound,
          covered,
          whole,
          neg_parts o.remaining_quantity,
          +ℤ_parts q (neg o.remaining_quantity),
        ))

  -- The book after the call differs from the one before by the share of the order.
  share_released :
      (b' : OrderBook)
      → IsBookUpdate o.side o.price_ticks
          (quantity_at (side_levels o.side e.order_book) o.price_ticks +ℤ neg o.remaining_quantity)
          e.order_book
          b'
      → (t : OrderSide) (r : ℤ)
      → quantity_at (side_levels t b') r +ℤ pos (share t r o)
        ≡ quantity_at (side_levels t e.order_book) r
  share_released b' u t r =
      let q = quantity_at (side_levels o.side e.order_book) o.price_ticks in
      let a : IsActive o = v.active i o here in
      ground (
        arith,
        u.map_eq t r,
        share_is o t r,
        (same_side_iff o.side t).0,
        (eqb_ℤ_iff o.price_ticks r).0,
        a.open_quantity,
        neg_parts o.remaining_quantity,
        +ℤ_parts q (neg o.remaining_quantity),
        +ℤ_parts (quantity_at (side_levels t b') r) (pos (share t r o)),
        eq_of_parts (quantity_at (side_levels t b') r +ℤ pos (share t r o))
            (quantity_at (side_levels t e.order_book) r),
      )

  after-IsValid :
      (b' : OrderBook)
      → IsBookUpdate o.side o.price_ticks
          (quantity_at (side_levels o.side e.order_book) o.price_ticks +ℤ neg o.remaining_quantity)
          e.order_book
          b'
      → IsValid (record e { order_manager = removed e.order_manager id i o l; order_book = b' })
  after-IsValid b' u = record {
    book = u.well_formed;
    orders = removed-IsConsistent e.order_manager v.orders id i o l held here last;
    active = λ j p h.
        let (k, at_k, _) = removed-cases e.order_manager v.orders id i o l held here last j p h in
        v.active k p at_k;
    synced = λ _ t r. ground (
      arith,
      side_cases o.side,
      synced t r,
      share_released b' u t r,
      resting-removed t r e.order_manager.orders i o l here last,
      +ℤ_parts (quantity_at (side_levels t b') r) (pos (share t r o)),
      eq_of_parts (quantity_at (side_levels t b') r)
          (pos (resting_quantity t r (pop_back (set e.order_manager.orders i l)))),
    );
  }

  order_found : find_order e.order_manager id ≡ some o
  unfolding find_order
  order_found = rw (find_order, held) here

  cancel_order_run :
      (b' : OrderBook)
      → adjust_order_book o.side o.price_ticks
          (neg o.remaining_quantity)
          (record e { order_manager = removed e.order_manager id i o l })
        ≡ (ok tt, record e { order_manager = removed e.order_manager id i o l; order_book = b' })
      → cancel_order id e
        ≡ (ok true, record e { order_manager = removed e.order_manager id i o l; order_book = b' })
  unfolding cancel_order release_quantity
  cancel_order_run b' done = ground (
    arith,
    order_found,
    cancel_order_found e.order_manager v.orders id i o l held here last,
    done,
  )

-- What a cancellation of `id` may do to an engine between two calls.
abbrev pub CancelsIn : MatchingEngine → ℕ → Result Bool × MatchingEngine → Type 0
CancelsIn e id (ok false, e') = (find_order e.order_manager id ≡ none) × (e' ≡ e)
CancelsIn e id (ok true, e') =
    (o : LimitOrder) × (find_order e.order_manager id ≡ some o)
    × IsValid e'
    × ((j : ℕ)
        → find_order e'.order_manager j ≡ (if id == j then none else find_order e.order_manager j))
    × ((t : OrderSide) (r : ℤ)
        → quantity_at (side_levels t e'.order_book) r +ℤ pos (share t r o)
          ≡ quantity_at (side_levels t e.order_book) r)
    × (e'.trade_store ≡ e.trade_store)
CancelsIn e id (err _, e') = ⊥

-- On a valid engine `cancel_order` never throws, so its rollback never runs. It
-- returns false exactly where no active order has the identifier, and then changes nothing; else
-- it returns true, the engine is valid again, the identifier finds no order while every other one
-- finds the same order, the book has lost what was left of the order at its side and price and
-- nothing else, and the trades are the same.
pub cancel_order-CancelsIn :
    (e : MatchingEngine) (id : ℕ) → IsValid e → CancelsIn e id (cancel_order id e)
unfolding cancel_order release_quantity find_order
cancel_order-CancelsIn e id v = elim (Option-cases (e.order_manager.order_indices id)) [
  | inl h ↦ ground (arith, h)
  | inr (i, held) ↦
      let (o, here, named) = v.orders.found id i held in
      let (l, last) = last_order e.order_manager i o here in
      let (b', done, u) = released e v id i o l held here last in
      rw (cancel_order_run e v id i o l held here last b' done) (
        o,
        order_found e v id i o l held here last,
        after-IsValid e v id i o l held here last b' u,
        find_order-removed e.order_manager v.orders id i o l held here last,
        share_released e v id i o l held here last b' u,
        refl,
      )
]

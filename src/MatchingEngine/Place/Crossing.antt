-- ===== src/MatchingEngine/Place/Crossing.antt =====
-- The rollback of a crossing limit order, the inner `try` of `place_limit_order`
-- (src/matching_engine.cpp).
use cmarket.Prelude.{
  ℕ, ◌≡◌, refl, ◌∙◌, ◌≢◌, ◌⊎◌, inl, inr, true, false, none, [], arith, Bool-cases, pure, ◌>>◌,
  Error, Result, ok, err, out_of_fuel,
}
use cmarket.Execution.{LimitOrder, is_filled}
use cmarket.TradeStore.{checkpoint, rollback}
use cmarket.TradeStore.Rollback.{take-length, rollback-Extends}
use cmarket.OrderManager.Invariant.{IsConsistent}
use cmarket.OrderManager.Add.{added}
use cmarket.OrderManager.Add.Refines.{add_order-cases}
use cmarket.OrderManager.Add.Undo.{cancel_order-added}
use cmarket.OrderBook.Book.{OrderBook}
use cmarket.OrderManager.Defs.{validate_order}
use cmarket.MatchingEngine.Defs.{MatchingEngine, adjust_order_book}
use cmarket.MatchingEngine.Invariant.{IsLocal}
use cmarket.MatchingEngine.Resting.{validated-IsActive, added-IsLocal}
use cmarket.MatchingEngine.Matching.Synced.{IsInStep, round-IsInStep}
use cmarket.MatchingEngine.Place.Back.{adjust_order_book-IsBookUpdate}
use cmarket.MatchingEngine.Matching.{Matching, match_loop, match_fuel, undo_mutations}
use cmarket.MatchingEngine.Matching.Trade.{Grows, adjust_order_book-cases}
use cmarket.MatchingEngine.Matching.Round.{Round-frame, Broken-frame}
use cmarket.MatchingEngine.Matching.Ends.{IsKept, KeptEnds, match_loop-KeptEnds}
use cmarket.MatchingEngine.Matching.Undo.{Undoes, Undoes-Round, Undoes-Broken}
use cmarket.MatchingEngine.Place.{cancel_or_throw, rest_incoming, undo_crossing, place_crossing}

-- What the handler can restore the engine `e` from.
pub record IsRestorable (e : MatchingEngine) (s : Matching) : Type 0 where
  pub undoes : Undoes e.order_manager s
  pub grown : Grows e.trade_store s.engine.trade_store
  pub not_added : s.incoming_added ≡ false

-- A state between two trades, where the book may be in step with the orders (if `G`).
pub record IsBetween (e : MatchingEngine) (G : Type 0) (s : Matching) : Type 0 where
  pub restorable : IsRestorable e s
  pub in_step : G → IsInStep s

IsBetween-IsKept : (e : MatchingEngine) (G : Type 0) → IsKept (IsBetween e G) (IsRestorable e)
IsBetween-IsKept e G = record {
  by_round = λ s s' c between d.
      let p = between.restorable in
      let (_, flag, store, _, _, _) = Round-frame s s' d in
      record {
        in_step = λ g. round-IsInStep s s' c (between.in_step g) d;
        restorable = record {
          undoes = Undoes-Round e.order_manager s s' c p.undoes d;
          grown = λ old before. rw store (d.trades.grown old (p.grown old before));
          not_added = flag ∙ p.not_added;
        };
      };
  by_break = λ s s' c between b.
      let p = between.restorable in
      let (grown, flag) = Broken-frame s s' b in
      record {
        undoes = Undoes-Broken e.order_manager s s' c p.undoes b;
        grown = λ old before. grown old (p.grown old before);
        not_added = flag ∙ p.not_added;
      };
}

-- The handler restores the orders and the trades.
abbrev Undone : MatchingEngine → Matching → Type 0
Undone e s =
    (s' : Matching) × (undo_crossing (checkpoint e.trade_store) s ≡ (ok tt, s'))
    × (s'.engine.order_manager ≡ e.order_manager)
    × (s'.engine.trade_store ≡ e.trade_store)

module _ (e : MatchingEngine) (s : Matching) (p : IsRestorable e s) where
  rolled_back : rollback (checkpoint e.trade_store) s.engine.trade_store ≡ (ok tt, e.trade_store)
  rolled_back =
      rollback-Extends e.trade_store s.engine.trade_store
        (p.grown e.trade_store.trades (omega arith, take-length e.trade_store.trades))

  restored : Undone e s
  unfolding undo_crossing
  restored = (
    record s {
      engine = record s.engine { order_manager = e.order_manager; trade_store = e.trade_store };
    },
    ground (arith, p.not_added, p.undoes s.engine refl, rolled_back),
    refl,
    refl,
  )

  -- The state in which what is left of the order has been added.
  abbrev with_rest : Matching
  with_rest = record s {
    engine = record s.engine { order_manager = added s.engine.order_manager s.incoming };
    incoming_added = true;
  }

  cancelled :
      IsConsistent s.engine.order_manager
      → s.engine.order_manager.order_indices s.incoming.order_id ≡ none
      → cancel_or_throw s.incoming.order_id with_rest.engine ≡ (ok tt, s.engine)
  unfolding cancel_or_throw
  cancelled c fresh = ground (arith, cancel_order-added s.engine.order_manager c s.incoming fresh)

  restored_added :
      IsConsistent s.engine.order_manager
      → s.engine.order_manager.order_indices s.incoming.order_id ≡ none
      → Undone e with_rest
  unfolding undo_crossing
  restored_added c fresh = (
    record with_rest {
      engine = record s.engine { order_manager = e.order_manager; trade_store = e.trade_store };
    },
    ground (arith, cancelled c fresh, p.undoes s.engine refl, rolled_back),
    refl,
    refl,
  )

  full-IsLocal : IsConsistent s.engine.order_manager → IsInStep s → IsLocal s.engine
  full-IsLocal c i = record { book = i.book; orders = c; active = i.active; synced = i.synced }

  -- The state in which what is left of the order rests in the book `b`.
  abbrev resting_in : OrderBook → Matching
  resting_in b = record with_rest { engine = record with_rest.engine { order_book = b } }

  rested-IsLocal :
      (b : OrderBook)
      → IsConsistent s.engine.order_manager
      → s.engine.order_manager.order_indices s.incoming.order_id ≡ none
      → validate_order s.incoming ≡ ok tt
      → adjust_order_book s.incoming.side s.incoming.price_ticks s.incoming.remaining_quantity
          with_rest.engine
        ≡ (ok tt, (resting_in b).engine)
      → IsInStep s
      → IsLocal (resting_in b).engine
  rested-IsLocal b c fresh v h i =
      let a = validated-IsActive s.incoming v in
      added-IsLocal s.engine s.incoming b (full-IsLocal c i) fresh a (
        adjust_order_book-IsBookUpdate s.incoming.side s.incoming.price_ticks
          s.incoming.remaining_quantity with_rest.engine b i.book (omega (arith, a.priced))
          (omega (arith, i.not_negative)) i.int64 h)

  -- The rest of the order is put into the book, or the handler restores everything.
  rest_incoming-cases :
      IsConsistent s.engine.order_manager
      → ((x : Error) × (x ≢ out_of_fuel)
          × (s' : Matching) × (rest_incoming s ≡ (err x, s'))
          × Undone e s')
        ⊎ ((s' : Matching) × (rest_incoming s ≡ (ok tt, s')) × (IsInStep s → IsLocal s'.engine))
  unfolding rest_incoming
  rest_incoming-cases c = elim (Bool-cases (is_filled s.incoming)) [
    | inl full ↦ inr (s, ground (arith, full), full-IsLocal c)
    | inr open_rest ↦ elim (add_order-cases s.engine.order_manager s.incoming c) [
      | inl (x, ne, h) ↦ inl (x, ne, s, ground (arith, open_rest, h), restored)
      | inr (fresh, v, h) ↦
          elim (adjust_order_book-cases s.incoming.side s.incoming.price_ticks
            s.incoming.remaining_quantity with_rest.engine) [
              | inl (x, ne, k) ↦
                  inl (x, ne, with_rest, ground (arith, open_rest, h, k), restored_added c fresh)
              | inr (b, k) ↦
                  inr (resting_in b, ground (arith, open_rest, h, k), rested-IsLocal b c fresh v k)
            ]
    ]
  ]

module _ (e : MatchingEngine) (incoming : LimitOrder) where
  abbrev pub crossing_start : Matching
  crossing_start = record {
    engine = e;
    incoming = incoming;
    mutations = [];
    incoming_added = false;
  }

  start-IsRestorable : IsRestorable e crossing_start
  unfolding undo_mutations
  start-IsRestorable = record {
    undoes = λ f h. ground (arith, h);
    grown = λ old before. before;
    not_added = refl;
  }

  start-IsBetween : IsBetween e (IsInStep crossing_start) crossing_start
  start-IsBetween = record { restorable = start-IsRestorable; in_step = λ i. i }

  -- What `place_crossing` may do.
  abbrev pub Crosses : Result ℕ × MatchingEngine → Type 0
  Crosses (ok id, e') = (id ≡ incoming.order_id) × (IsInStep crossing_start → IsLocal e')
  Crosses (err x, e') =
      (x ≢ out_of_fuel) × (e'.order_manager ≡ e.order_manager) × (e'.trade_store ≡ e.trade_store)

  Undone-Crosses :
      (x : Error) (s : Matching)
      → x ≢ out_of_fuel
      → (do match_loop (match_fuel e); rest_incoming; pure incoming.order_id) crossing_start
        ≡ (err x, s)
      → Undone e s
      → Crosses (place_crossing incoming e)
  unfolding place_crossing
  Undone-Crosses x s ne h (s', undo, orders, trades) =
      let eq : place_crossing incoming e ≡ (err x, s'.engine) = ground (arith, h, undo) in
      rw eq (ne, orders, trades)

  returned-Crosses :
      (s s' : Matching)
      → match_loop (match_fuel e) crossing_start ≡ (ok tt, s)
      → rest_incoming s ≡ (ok tt, s')
      → (IsInStep crossing_start → IsLocal s'.engine)
      → Crosses (place_crossing incoming e)
  unfolding place_crossing
  returned-Crosses s s' h k local =
      let eq : place_crossing incoming e ≡ (ok incoming.order_id, s'.engine) =
        ground (arith, h, k) in
      rw eq (refl, local)

  by_loop :
      (r : Result (Unit {0}) × Matching)
      → match_loop (match_fuel e) crossing_start ≡ r
      → KeptEnds (IsBetween-IsKept e (IsInStep crossing_start)) r
      → Crosses (place_crossing incoming e)
  by_loop (err x, s) h (ne, p) = Undone-Crosses x s ne (ground (arith, h)) (restored e s p)
  by_loop (ok tt, s) h (c, done, p) = elim (rest_incoming-cases e s p.restorable c) [
    | inl (x, ne, s', k, u) ↦ Undone-Crosses x s' ne (ground (arith, h, k)) u
    | inr (s', k, local) ↦ returned-Crosses s s' h k (λ i. local (p.in_step i))
  ]

  -- A crossing order is matched, or everything but the book is restored, which the caller does.
  pub place_crossing-Crosses : IsConsistent e.order_manager → Crosses (place_crossing incoming e)
  place_crossing-Crosses c = by_loop (match_loop (match_fuel e) crossing_start) refl (
      match_loop-KeptEnds (IsBetween-IsKept e (IsInStep crossing_start)) crossing_start c
        start-IsBetween)

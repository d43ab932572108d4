-- ===== src/MatchingEngine/Place/Handler.antt =====
-- The handler of `place_limit_order` (src/matching_engine.cpp) restores the engine from every state
-- in which the body may throw.
use cmarket.Prelude.{
  ℕ, ◌≡◌, refl, sym, subst, ◌∙◌, ◌≢◌, ◌⊎◌, inl, inr, Bool, true, false, none, some, arith, ◌+ℤ◌,
  neg, ◌≤ℤ◌, ◌<ℤ◌, int64_max, ℤ, Result, pos, ok, err, out_of_fuel,
}
use cmarket.Execution.{OrderSide, LimitOrder}
use cmarket.OrderBook.Book.{OrderBook}
use cmarket.OrderBook.Book.Invariant.{IsBook}
use cmarket.OrderManager.Invariant.{IsConsistent}
use cmarket.OrderManager.Add.{added}
use cmarket.OrderManager.Add.Refines.{add_order-cases}
use cmarket.MatchingEngine.Defs.{MatchingEngine, adjust_order_book}
use cmarket.OrderBook.Levels.Sorted.{quantity_at}
use cmarket.MatchingEngine.Invariant.{side_levels, IsLocal}
use cmarket.MatchingEngine.Cancel.Release.{IsBookUpdate}
use cmarket.MatchingEngine.Resting.{validated-IsActive, added-IsLocal}
use cmarket.MatchingEngine.Matching.Synced.{IsInStep}
use cmarket.MatchingEngine.Matching.Trade.{adjust_order_book-cases}
use cmarket.MatchingEngine.Place.{Placing, place_resting, place_as, place_crossing, undo_place}
use cmarket.MatchingEngine.Place.Crossing.{crossing_start, Crosses, place_crossing-Crosses}
use cmarket.MatchingEngine.Place.Back.{adjust_order_book-undo, adjust_order_book-IsBookUpdate}

module _ (e : MatchingEngine) (side : OrderSide) (p q : ℤ) where
  -- How the handler gets the book back: from the backup, as it stands, or by an adjustment.
  abbrev pub BookBack : Placing → Type 0
  BookBack s =
      (s.order_book_backup ≡ some e.order_book)
      ⊎ ((s.order_book_backup ≡ none)
          × (s.non_crossing_book_adjusted ≡ false)
          × (s.engine.order_book ≡ e.order_book))
      ⊎ ((s.order_book_backup ≡ none)
          × (s.non_crossing_book_adjusted ≡ true)
          × ((f : MatchingEngine)
              → f.order_book ≡ s.engine.order_book
              → adjust_order_book side p (neg q) f
                ≡ (ok tt, record f { order_book = e.order_book })))

  -- A state from which the handler restores the engine.
  pub record IsRecoverable (s : Placing) : Type 0 where
    pub orders : s.engine.order_manager ≡ e.order_manager
    pub trades : s.engine.trade_store ≡ e.trade_store
    pub book : BookBack s

  pub undo_place_lem :
      (s : Placing)
      → IsRecoverable s
      → (s' : Placing) × (undo_place e.order_id_generator e.next_sequence_number side p q s
          ≡ (ok tt, s'))
        × (s'.engine ≡ e)
  unfolding undo_place
  undo_place_lem s r = elim r.book [
    | inl backup ↦ (
      record s {
        engine = record s.engine {
          order_id_generator = e.order_id_generator;
          next_sequence_number = e.next_sequence_number;
          order_book = e.order_book;
        };
      },
      ground (arith, backup),
      ground (arith, r.orders, r.trades),
    )
    | inr (inl (backup, flag, same)) ↦ (
      record s {
        engine = record s.engine {
          order_id_generator = e.order_id_generator;
          next_sequence_number = e.next_sequence_number;
        };
      },
      ground (arith, backup, flag),
      ground (arith, r.orders, r.trades, same),
    )
    | inr (inr (backup, flag, back)) ↦
        let f : MatchingEngine = record s.engine {
          order_id_generator = e.order_id_generator;
          next_sequence_number = e.next_sequence_number;
        } in
        let undone = back f refl in
        (
          record s { engine = record f { order_book = e.order_book } },
          ground (arith, backup, flag, undone),
          ground (arith, r.orders, r.trades),
        )
  ]

  -- What the body may do, with the engine as it is when the order gets there.
  abbrev pub Outcome : MatchingEngine → ℕ → Result ℕ × Placing → Type 0
  Outcome ready id (ok id', s) = (id' ≡ id) × (IsLocal ready → IsLocal s.engine)
  Outcome ready id (err x, s) = (x ≢ out_of_fuel) × IsRecoverable s

  -- The state before the order is put into the book.
  pub record IsReady (s : Placing) : Type 0 where
    pub orders : s.engine.order_manager ≡ e.order_manager
    pub trades : s.engine.trade_store ≡ e.trade_store
    pub flag : s.non_crossing_book_adjusted ≡ false
    pub sorted : IsBook s.engine.order_book
    pub book :
        (s.order_book_backup ≡ some e.order_book)
        ⊎ ((s.order_book_backup ≡ none) × (s.engine.order_book ≡ e.order_book))
    pub consistent : IsConsistent s.engine.order_manager

  pub ready-IsRecoverable : (s : Placing) → IsReady s → IsRecoverable s
  ready-IsRecoverable s r = record {
    orders = r.orders;
    trades = r.trades;
    book = elim r.book [ inl b ↦ inl b | inr (b, same) ↦ inr (inl (b, r.flag, same)) ];
  }

  module _ (s : Placing) (r : IsReady s) (incoming : LimitOrder) (priced : incoming.price_ticks ≡ p)
      (sized : incoming.remaining_quantity ≡ q) (sided : incoming.side ≡ side)
      (positive : pos 0 <ℤ p) (open_quantity : pos 0 <ℤ q) (bounded : q ≤ℤ int64_max) where
    -- The state after the adjustment.
    abbrev adjusted : OrderBook → Placing
    adjusted b = record s {
      engine = record s.engine { order_book = b };
      non_crossing_book_adjusted = true;
    }

    adjusted-IsRecoverable :
        (b : OrderBook)
        → adjust_order_book side p q s.engine ≡ (ok tt, record s.engine { order_book = b })
        → IsRecoverable (adjusted b)
    adjusted-IsRecoverable b h = record {
      orders = r.orders;
      trades = r.trades;
      book = elim r.book [
        | inl k ↦ inl k
        | inr (k, same) ↦ inr (
            inr (
              k,
              refl,
              λ f at_b.
                  subst
                    (λ c. adjust_order_book side p (neg q) f ≡ (ok tt, record f { order_book = c }))
                    same
                    (adjust_order_book-undo side p q s.engine f b r.sorted (omega (arith, positive))
                      (omega (arith, open_quantity)) bounded h at_b),
            ))
      ];
    }

    place_resting-Outcome : Outcome s.engine incoming.order_id (place_resting incoming s)
    unfolding place_resting
    place_resting-Outcome = elim (adjust_order_book-cases side p q s.engine) [
      | inl (x, ne, h) ↦
          let eq : place_resting incoming s ≡ (err x, s) =
            ground (arith, priced, sized, sided, h) in
          subst (Outcome s.engine incoming.order_id) (sym eq) (ne, ready-IsRecoverable s r)
      | inr (b, h) ↦ elim (add_order-cases s.engine.order_manager incoming r.consistent) [
        | inl (x, ne, k) ↦
            let eq : place_resting incoming s ≡ (err x, adjusted b) =
              ground (arith, priced, sized, sided, h, k) in
            subst (Outcome s.engine incoming.order_id) (sym eq) (ne, adjusted-IsRecoverable b h)
        | inr (fresh, v, k) ↦
            let eq : place_resting incoming s ≡ (
              ok incoming.order_id,
              record (adjusted b) {
                engine = record (adjusted b).engine {
                  order_manager = added s.engine.order_manager incoming;
                };
              },
            ) =
              ground (arith, priced, sized, sided, h, k) in
            subst (Outcome s.engine incoming.order_id) (sym eq) (
              refl,
              λ local.
                  added-IsLocal s.engine incoming b local fresh (validated-IsActive incoming v) (
                    subst
                      (λ (t, r, d).
                        IsBookUpdate t r (quantity_at (side_levels t s.engine.order_book) r +ℤ d)
                          s.engine.order_book b)
                      (ground (arith, priced, sized, sided))
                      (adjust_order_book-IsBookUpdate side p q s.engine b r.sorted
                        (omega (arith, positive)) (omega (arith, open_quantity)) bounded h)),
            )
      ]
    ]

    -- The state in which the book is saved.
    abbrev saved : Placing
    saved = record s { order_book_backup = some e.order_book }

    place_as-saved :
        place_as true incoming s
        ≡ (let (o, e') = place_crossing incoming s.engine in (o, record saved { engine = e' }))
    unfolding place_as
    place_as-saved = elim r.book [
      | inl h ↦ ground (arith, h)
      | inr (h, same) ↦ ground (arith, h, same)
    ]

    start-IsInStep : IsLocal s.engine → IsInStep (crossing_start s.engine incoming)
    start-IsInStep before = record {
      book = before.book;
      active = before.active;
      synced = before.synced;
      not_negative = ground (arith, sized, open_quantity);
      int64 = ground (arith, sized, bounded);
    }

    crossed-Outcome :
        (o : Result ℕ × MatchingEngine)
        → Crosses s.engine incoming o
        → Outcome s.engine incoming.order_id (o.0, record saved { engine = o.1 })
    crossed-Outcome (ok id, e') (same, local) = (same, λ before. local (start-IsInStep before))
    crossed-Outcome (err x, e') (ne, orders, trades) =
        (ne, record { orders = orders ∙ r.orders; trades = trades ∙ r.trades; book = inl refl })

    pub place_as-Outcome :
        (crosses : Bool) → Outcome s.engine incoming.order_id (place_as crosses incoming s)
    unfolding place_as
    place_as-Outcome false = place_resting-Outcome
    place_as-Outcome true = subst (Outcome s.engine incoming.order_id) (sym place_as-saved) (
        crossed-Outcome (place_crossing incoming s.engine)
          (place_crossing-Crosses s.engine incoming r.consistent))

-- ===== src/MatchingEngine/Market/Levels.antt =====
-- The loop of `execute_market_order` (src/matching_engine.cpp) over the levels of the book.
use cmarket.Prelude.{
  ℕ, suc, ◌<◌, ◌≡◌, refl, sym, ap, subst, ◌∙◌, ◌⊎◌, inl, inr, Bool, true, false, none, List, [],
  ◌∷◌, arith, if◌then◌else◌, Bool-cases, length, ◌-ℤ◌, ◌≤ℤ◌, ◌<ℤ◌, leb_ℤ, min_ℤ, int64_max,
  -ℤ_parts, ℤ, Error, Result, pos, ok, err, invalid_argument,
}
use cmarket.LongDouble.{LongDouble}
use cmarket.Execution.{OrderSide, Trade}
use cmarket.TradeStore.{TradeStore, record_trade, next_trade, checkpoint, rollback}
use cmarket.TradeStore.Rollback.{take-length, rollback-Extends}
use cmarket.OrderBook.Levels.{PriceLevel}
use cmarket.OrderBook.Book.{OrderBook}
use cmarket.OrderBook.Book.Invariant.{IsBook}
use cmarket.MatchingEngine.Defs.{MatchingEngine}
use cmarket.MatchingEngine.Matching.Trade.{Grows}
use cmarket.MatchingEngine.Market.{
  Market, opposite_levels, update_opposite, add_trade, take_level, level_round, level_fuel, repeat,
  take_levels,
}
use cmarket.MatchingEngine.Market.Tally.{
  record_trade_lem, record_trade_refused, Tally, add_trade-Tally, RoundOf, LoopOf, repeat-LoopOf,
}
use cmarket.MatchingEngine.Market.Front.{with_front, update_opposite_lem, front-IsLevel}

module _ {F : LongDouble} (e : MatchingEngine) (side : OrderSide) (q : ℤ) where
  -- A state between two rounds.
  pub record IsTaking (s : Market F) : Type 0 where
    pub tally : Tally side q s.result
    pub book : IsBook s.engine.order_book
    pub frame :
        s.engine ≡ record e { trade_store = s.engine.trade_store; order_book = s.engine.order_book }
    pub grown : Grows e.trade_store s.engine.trade_store

  abbrev pub IsTaken : Market F → Type 0
  IsTaken s =
      (s.result.remaining_quantity ≤ℤ pos 0) ⊎ (opposite_levels side s.engine.order_book ≡ [])

  abbrev IsRefused : Error → Market F → Type 0
  IsRefused x s = (x ≡ invalid_argument) × IsTaking s

  abbrev size : Market F → ℕ
  size s =
      if leb_ℤ s.result.remaining_quantity (pos 0)
      then 0
      else suc (length (opposite_levels side s.engine.order_book))

  module _ (s : Market F) (h : IsTaking s) (x : PriceLevel) (xs : List PriceLevel)
      (levels : opposite_levels side s.engine.order_book ≡ x ∷ xs)
      (unfilled : leb_ℤ s.result.remaining_quantity (pos 0) ≡ false) where
    abbrev done : ℤ
    done = min_ℤ s.result.remaining_quantity x.quantity

    done_bounds :
        (pos 0 <ℤ done)
        × (done ≤ℤ s.result.remaining_quantity)
        × (pos 0 ≤ℤ x.quantity -ℤ done)
        × (x.quantity -ℤ done ≤ℤ int64_max)
    done_bounds =
        let (low, high) = front-IsLevel side s.engine.order_book x xs h.book levels in
        ground (arith, unfilled, low, high, -ℤ_parts x.quantity done)

    -- A trade empties the level or fills the order.
    shorter :
        (s' : Market F)
        → opposite_levels side s'.engine.order_book ≡ with_front x (x.quantity -ℤ done) xs
        → s'.result.remaining_quantity ≡ s.result.remaining_quantity -ℤ done
        → size s' < size s
    shorter s' e' rest = ground (
      arith,
      unfilled,
      levels,
      e',
      rest,
      -ℤ_parts x.quantity done,
      -ℤ_parts s.result.remaining_quantity done,
    )

    refused_round : x.price_ticks ≤ℤ pos 0 → level_round F s ≡ (err invalid_argument, s)
    unfolding level_round take_level
    refused_round low =
        let refused =
          record_trade_refused s.result.side x.price_ticks done none none s.engine.trade_store
            low in
        ground (arith, unfilled, h.tally.sided, levels, refused)

    -- The state after a trade.
    abbrev taken : Trade → TradeStore → OrderBook → Market F
    taken trade store book = record (add_trade F trade x.price_ticks done s) {
      engine = record s.engine { trade_store = store; order_book = book };
    }

    level_run :
        (d : ℤ) (trade : Trade) (store : TradeStore) (book : OrderBook)
        → done ≡ d
        → record_trade s.result.side x.price_ticks d none none s.engine.trade_store
          ≡ (ok trade, store)
        → update_opposite s.result.side x.price_ticks (x.quantity -ℤ d) s.engine.order_book
          ≡ (ok tt, book)
        → level_round F s ≡ (ok true, taken trade store book)
    unfolding level_round take_level add_trade
    level_run d trade store book is_done recorded updated =
        ground (arith, unfilled, levels, h.tally.sided, is_done, recorded, updated)

    traded_round :
        pos 0 <ℤ x.price_ticks
        → (s' : Market F) × (level_round F s ≡ (ok true, s')) × IsTaking s' × (size s' < size s)
    unfolding add_trade next_trade
    traded_round priced =
        let (t, recorded, grows) =
          record_trade_lem s.result.side x.price_ticks done none none s.engine.trade_store priced
            done_bounds.0 in
        let trade = next_trade s.engine.trade_store s.result.side x.price_ticks done none none in
        let (b, updated, well_formed, front) =
          update_opposite_lem side s.engine.order_book x xs (x.quantity -ℤ done) h.book levels
            done_bounds.2 done_bounds.3 in
        (
          taken trade t b,
          level_run done trade t b refl recorded (
              ap (λ t. update_opposite t x.price_ticks (x.quantity -ℤ done) s.engine.order_book)
                h.tally.sided
              ∙ updated),
          record {
            tally =
                add_trade-Tally side q s trade x.price_ticks done h.tally refl done_bounds.0
                  done_bounds.1;
            book = well_formed;
            frame =
                ap (λ (t' : MatchingEngine). record t' { trade_store = t; order_book = b }) h.frame;
            grown = λ old before. grows old (h.grown old before);
          },
          shorter (taken trade t b) front refl,
        )

  abbrev TakesRound : Market F → Result Bool × Market F → Type 0
  TakesRound s = RoundOf IsTaking IsTaken IsRefused size (size s)

  some_level :
      (s : Market F)
      → IsTaking s
      → leb_ℤ s.result.remaining_quantity (pos 0) ≡ false
      → (levels : List PriceLevel) → opposite_levels side s.engine.order_book ≡ levels
      → TakesRound s (level_round F s)
  unfolding level_round
  some_level s h unfilled [] none_left =
      let eq : level_round F s ≡ (ok false, s) =
        ground (arith, unfilled, h.tally.sided, none_left) in
      subst (TakesRound s) (sym eq) (h, inr none_left)
  some_level s h unfilled (x ∷ xs) levels = elim (Bool-cases (leb_ℤ x.price_ticks (pos 0))) [
    | inl low ↦
        subst (TakesRound s) (sym (refused_round s h x xs levels unfilled (ground (arith, low))))
          (refl, h)
    | inr high ↦
        let (s', run, h', less) = traded_round s h x xs levels unfilled (ground (arith, high)) in
        subst (TakesRound s) (sym run) (h', less)
  ]

  level_round-TakesRound : (s : Market F) → IsTaking s → TakesRound s (level_round F s)
  unfolding level_round
  level_round-TakesRound s h = elim (Bool-cases (leb_ℤ s.result.remaining_quantity (pos 0))) [
    | inl filled ↦
        let eq : level_round F s ≡ (ok false, s) = ground (arith, filled) in
        subst (TakesRound s) (sym eq) (h, inl (ground (arith, filled)))
    | inr unfilled ↦ some_level s h unfilled (opposite_levels side s.engine.order_book) refl
  ]

  -- What the loop over the levels may do: where it throws, nothing has changed.
  abbrev pub TakesLevels : Result (Unit {0}) × Market F → Type 0
  TakesLevels (ok _, s) = IsTaking s × IsTaken s
  TakesLevels (err x, s) = (x ≡ invalid_argument) × (s.engine ≡ e)

  -- The handler has both the book and the trades back.
  module _ (s : Market F) (same : s.engine ≡ e) (h : IsTaking s) where
    handled :
        (x : Error) (t : Market F)
        → repeat F (level_round F) (level_fuel s.result.side s.engine) s ≡ (err x, t)
        → IsRefused x t
        → TakesLevels (take_levels F s)
    unfolding take_levels
    handled x t k (refused, p) =
        let back : rollback (checkpoint s.engine.trade_store) t.engine.trade_store
            ≡ (ok tt, s.engine.trade_store) =
          subst
            (λ (m : MatchingEngine).
              rollback (checkpoint m.trade_store) t.engine.trade_store ≡ (ok tt, m.trade_store))
            (sym same)
            (rollback-Extends e.trade_store t.engine.trade_store
              (p.grown e.trade_store.trades (omega arith, take-length e.trade_store.trades))) in
        let t' : Market F = record t {
          engine = record t.engine {
            order_book = s.engine.order_book;
            trade_store = s.engine.trade_store;
          };
        } in
        let eq : take_levels F s ≡ (err x, t') = ground (arith, k, back) in
        subst TakesLevels (sym eq) (
          refused,
          ap
                (λ (m : MatchingEngine). record m {
                  order_book = s.engine.order_book;
                  trade_store = s.engine.trade_store;
                })
                p.frame
              ∙ ap
                  (λ (m : MatchingEngine). record e {
                    order_book = m.order_book;
                    trade_store = m.trade_store;
                  })
                  same,
        )

    by_loop :
        (r : Result (Unit {0}) × Market F)
        → repeat F (level_round F) (level_fuel s.result.side s.engine) s ≡ r
        → LoopOf IsTaking IsTaken IsRefused r
        → TakesLevels (take_levels F s)
    unfolding take_levels
    by_loop (ok tt, t) k p =
        let eq : take_levels F s ≡ (ok tt, t) = ground (arith, k) in subst TakesLevels (sym eq) p
    by_loop (err x, t) k p = handled x t k p

    pub take_levels-TakesLevels : TakesLevels (take_levels F s)
    unfolding level_fuel
    take_levels-TakesLevels =
        by_loop (repeat F (level_round F) (level_fuel s.result.side s.engine) s) refl (
          repeat-LoopOf IsTaking IsTaken IsRefused size (level_round F) level_round-TakesRound
            (level_fuel s.result.side s.engine) s h (ground (arith, h.tally.sided)))

-- ===== src/MatchingEngine/Market/Trades.antt =====
-- One trade of a market order with an active order (src/matching_engine.cpp).
use cmarket.Prelude.{
  ℕ, suc, ◌≤◌, ◌<◌, ◌≡◌, refl, sym, ap, subst, ◌∙◌, inl, inr, true, false, some, List, [], arith,
  if◌then◌else◌, Bool-cases, length, get_elem?, pos_part, neg_part, ◌-ℤ◌, neg, ◌≤ℤ◌, ◌<ℤ◌, leb_ℤ,
  int64_max, +ℤ_parts, neg_parts, eqb_ℤ_iff, ℤ, when, Result, pos, ok,
}
use cmarket.LongDouble.{LongDouble}
use cmarket.Execution.{OrderSide, Trade, LimitOrder, is_filled}
use cmarket.TradeStore.{TradeStore, record_trade, next_trade}
use cmarket.OrderBook.Levels.Sorted.{quantity_at}
use cmarket.OrderBook.Book.{OrderBook}
use cmarket.OrderManager.Defs.{OrderManager}
use cmarket.OrderManager.Fill.{cancel_order_into-shrinks}
use cmarket.OrderManager.Cancel.Sides.{same_side_iff}
use cmarket.MatchingEngine.Defs.{MatchingEngine, adjust_order_book, execute_limit_trade, parties}
use cmarket.MatchingEngine.Invariant.{side_levels, share-le, IsLocal}
use cmarket.MatchingEngine.Cancel.Release.{adjust_order_book_lem}
use cmarket.MatchingEngine.Cancel.Refines.{side_bound, share_is}
use cmarket.OrderBook.Book.Invariant.{IsBook}
use cmarket.MatchingEngine.Matching.{Matching, OrderMutation, note_mutation, note_removal}
use cmarket.MatchingEngine.Matching.Trade.{Trades, executed, resting_after, recorded-Trades}
use cmarket.MatchingEngine.Matching.Round.{
  Found, Round, written, after_trade, after_removal, written-IsConsistent, written_at, written_eq,
}
use cmarket.MatchingEngine.Matching.Ends.{Round-Progress}
use cmarket.MatchingEngine.Matching.Synced.{IsInStep, round-IsInStep}
use cmarket.MatchingEngine.Place.Back.{adjust_order_book-frame}
use cmarket.MatchingEngine.Market.{
  Market, add_trade, market_parties, note_match, note_taken, take_filled, take_order,
}
use cmarket.MatchingEngine.Market.Tally.{record_trade_lem, Tally, add_trade-Tally}

-- A quantity that is left of an order is in the book.
pub taken_from_book :
    (e : MatchingEngine) (i : ℕ) (o : LimitOrder) (x : ℤ)
    → IsLocal e
    → get_elem? e.order_manager.orders i ≡ some o
    → pos 0 <ℤ x
    → x ≤ℤ o.remaining_quantity
    → (b : OrderBook) × (adjust_order_book o.side o.price_ticks (neg x) e
        ≡ (ok tt, record e { order_book = b }))
taken_from_book e i o x h here positive le =
    let a = h.active i o here in
    let q = quantity_at (side_levels o.side e.order_book) o.price_ticks in
    let bound = side_bound o.side e.order_book o.price_ticks h.book in
    let covered : pos_part o.remaining_quantity ≤ pos_part q = ground (
      arith,
      h.synced o.side o.price_ticks,
      share-le o.side o.price_ticks e.order_manager.orders i o here,
      share_is o o.side o.price_ticks,
      (same_side_iff o.side o.side).1 refl,
      (eqb_ℤ_iff o.price_ticks o.price_ticks).1 refl,
    ) in
    let whole : neg_part q ≡ 0 = ap neg_part (h.synced o.side o.price_ticks) in
    let (b, done, _) =
      adjust_order_book_lem o.side o.price_ticks (neg x) e h.book (omega (arith, a.priced))
        (omega (arith, positive, le, bound, covered, whole, neg_parts x))
        (omega (arith, positive, le, bound, covered, whole, neg_parts x))
        (omega (arith, positive, le, bound, covered, whole, neg_parts x, +ℤ_parts q (neg x)))
        (omega (arith, positive, le, bound, covered, whole, neg_parts x, +ℤ_parts q (neg x))) in
    (b, done)

module _ {F : LongDouble} (side : OrderSide) (q : ℤ) (bounded : q ≤ℤ int64_max) where
  -- A state between two rounds.
  pub record IsMatching (s : Market F) : Type 0 where
    pub tally : Tally side q s.result
    pub local : IsLocal s.engine

  -- The market order as the match loop of limit orders would see it.
  abbrev pub as_limit : Market F → Matching
  as_limit s = record {
    engine = s.engine;
    incoming = record {
      order_id = 0;
      side = side;
      price_ticks = pos 0;
      original_quantity = q;
      remaining_quantity = s.result.remaining_quantity;
      sequence_number = 0;
    };
    mutations = [];
    incoming_added = false;
  }

  abbrev pub size : Market F → ℕ
  size t =
      if leb_ℤ t.result.remaining_quantity (pos 0)
      then 0
      else suc (length t.engine.order_manager.orders)

  module _ (s : Market F) (h : IsMatching s) (f : Found (as_limit s))
      (unfilled : pos 0 <ℤ s.result.remaining_quantity) where
    abbrev o : LimitOrder
    o = f.resting

    abbrev done : ℤ
    done = executed (as_limit s).incoming o

    as_limit-IsInStep : IsInStep (as_limit s)
    as_limit-IsInStep = record {
      book = h.local.book;
      active = h.local.active;
      synced = h.local.synced;
      not_negative = h.tally.remaining;
      int64 = omega (
        arith,
        bounded,
        h.tally.executed,
        ap pos_part h.tally.sum,
        ap neg_part h.tally.sum,
        +ℤ_parts s.result.executed_quantity s.result.remaining_quantity,
      );
    }

    done_bounds :
        (pos 0 <ℤ o.price_ticks)
        × (pos 0 <ℤ done)
        × (done ≤ℤ s.result.remaining_quantity)
        × (done ≤ℤ o.remaining_quantity)
    done_bounds =
        let a = h.local.active f.index o f.here in
        ground (arith, unfilled, a.priced, a.open_quantity)

    abbrev book : OrderBook
    book = (taken_from_book s.engine f.index o done h.local f.here done_bounds.1 done_bounds.3).0

    adjusted :
        (g : MatchingEngine)
        → g.order_book ≡ s.engine.order_book
        → adjust_order_book o.side o.price_ticks (neg done) g
          ≡ (ok tt, record g { order_book = book })
    adjusted g same =
        adjust_order_book-frame o.side o.price_ticks (neg done) s.engine g book
          (taken_from_book s.engine f.index o done h.local f.here done_bounds.1 done_bounds.3).1
          same

    -- The trade of the match loop that takes the same from the order and the book.
    trades : Trades (as_limit s).incoming o s.engine
    unfolding execute_limit_trade
    trades =
        let (t, recorded, grows) =
          record_trade_lem side o.price_ticks done (some (parties (as_limit s).incoming o).0)
            (some (parties (as_limit s).incoming o).1) s.engine.trade_store done_bounds.0
            done_bounds.1 in
        recorded-Trades (as_limit s).incoming o s.engine t _ book recorded
          (adjusted (record s.engine { trade_store = t }) refl)

    -- The state after a trade at which the order manager is `m`.
    abbrev taken : Trade → TradeStore → OrderManager → List OrderMutation → Market F
    taken trade store m mutations = record (add_trade F trade o.price_ticks done s) {
      engine = record s.engine { trade_store = store; order_book = book; order_manager = m };
      mutations = mutations;
    }

    -- What the round keeps, once the match loop would have.
    keeps :
        (s1 : Matching) (trade : Trade) (store : TradeStore) (mutations : List OrderMutation)
        → Round (as_limit s) s1
        → s1.engine.order_book ≡ book
        → trade.quantity ≡ done
        → IsMatching (taken trade store s1.engine.order_manager mutations)
    unfolding add_trade
    keeps s1 trade store mutations d same quantity =
        let (c, _) = Round-Progress (as_limit s) s1 h.local.orders d in
        let i = round-IsInStep (as_limit s) s1 h.local.orders as_limit-IsInStep d in
        record {
          tally =
              add_trade-Tally side q s trade o.price_ticks done h.tally quantity done_bounds.1
                done_bounds.2;
          local = record {
            book = subst IsBook same i.book;
            orders = c;
            active = i.active;
            synced = λ t r. ap (λ b. quantity_at (side_levels t b) r) (sym same) ∙ i.synced t r;
          };
        }

    round_run :
        (trade : Trade) (store : TradeStore)
        → record_trade s.result.side o.price_ticks done
            (market_parties s.result.side o.order_id).0
            (market_parties s.result.side o.order_id).1
            s.engine.trade_store
          ≡ (ok trade, store)
        → take_order F o s
          ≡ when
              (is_filled (resting_after (as_limit s).incoming o))
              (take_filled F o.order_id)
              (taken trade store (written (as_limit s) o f.index) (note_match F o done s).mutations)
    unfolding take_order add_trade note_match
    round_run trade store recorded = ground (
      arith,
      recorded,
      adjusted (record s.engine { trade_store = store }) refl,
      written_eq (as_limit s) h.local.orders f trades,
    )

    same_book : trades.book ≡ book
    same_book =
        ap (λ (r : Result (Unit {0}) × MatchingEngine). r.1.order_book)
          (sym trades.adjusted ∙ adjusted (record s.engine { trade_store = trades.store }) refl)

    -- A trade takes the order out or fills the market order.
    smaller :
        (s1 : Matching) (trade : Trade) (store : TradeStore) (mutations : List OrderMutation)
        → Round (as_limit s) s1
        → s1.incoming.remaining_quantity ≡ s.result.remaining_quantity -ℤ done
        → size (taken trade store s1.engine.order_manager mutations) < size s
    unfolding add_trade
    smaller s1 trade store mutations d left =
        let (_, progress) = Round-Progress (as_limit s) s1 h.local.orders d in
        ground (arith, unfilled, progress, left)

    module _ (trade : Trade) (store : TradeStore) (quantity : trade.quantity ≡ done)
        (run : take_order F o s
          ≡ when (is_filled (resting_after (as_limit s).incoming o)) (take_filled F o.order_id) (
              taken trade store
                (written (as_limit s) o f.index)
                (note_match F o done s).mutations)) where
      abbrev Matched : Type 0
      Matched =
          (s' : Market F) × (take_order F o s ≡ (ok tt, s')) × IsMatching s' × (size s' < size s)

      partly : is_filled (resting_after (as_limit s).incoming o) ≡ false → Matched
      partly not_full =
          let s1 : Matching = after_trade (as_limit s) o f.index trades.store trades.book in
          let d : Round (as_limit s) s1 = record {
            found = f;
            unfilled = unfilled;
            trades = trades;
            outcome = inl (not_full, refl);
          } in
          (
            taken trade store s1.engine.order_manager (note_match F o done s).mutations,
            run ∙ rw not_full refl,
            keeps s1 trade store (note_match F o done s).mutations d same_book quantity,
            smaller s1 trade store (note_match F o done s).mutations d refl,
          )

      fully : is_filled (resting_after (as_limit s).incoming o) ≡ true → Matched
      unfolding take_filled note_taken note_match note_mutation note_removal
      fully full =
          let (r, m, cancelled, _, _) =
            cancel_order_into-shrinks (written (as_limit s) o f.index) o.order_id f.index
              (resting_after (as_limit s).incoming o)
              (written-IsConsistent (as_limit s) h.local.orders f) f.held
              (written_at (as_limit s) h.local.orders f) in
          let s1 : Matching = after_removal (as_limit s) o trades.store trades.book r m in
          let d : Round (as_limit s) s1 = record {
            found = f;
            unfilled = unfilled;
            trades = trades;
            outcome = inr (full, r, m, cancelled, refl);
          } in
          let t : Market F =
            note_taken F r (taken trade store m (note_match F o done s).mutations) in
          (
            t,
            run ∙ ground (arith, full, cancelled),
            keeps s1 trade store t.mutations d same_book quantity,
            smaller s1 trade store t.mutations d refl,
          )

    pub matched :
        (s' : Market F) × (take_order F o s ≡ (ok tt, s')) × IsMatching s' × (size s' < size s)
    unfolding next_trade
    matched =
        let ids = market_parties s.result.side o.order_id in
        let (store, recorded, _) =
          record_trade_lem s.result.side o.price_ticks done ids.0 ids.1 s.engine.trade_store
            done_bounds.0 done_bounds.1 in
        let trade = next_trade s.engine.trade_store s.result.side o.price_ticks done ids.0 ids.1 in
        let run = round_run trade store recorded in
        elim (Bool-cases (is_filled (resting_after (as_limit s).incoming o))) [
          | inl full ↦ fully trade store refl run full
          | inr not_full ↦ partly trade store refl run not_full
        ]

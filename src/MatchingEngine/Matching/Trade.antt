-- ===== src/MatchingEngine/Matching/Trade.antt =====
-- The outcomes of one trade of the match loop (`execute_limit_trade`, src/matching_engine.cpp).
use cmarket.Prelude.{
  ℕ, ◌≡◌, refl, ap, subst, ◌∙◌, ◌≢◌, ◌⊎◌, inl, inr, Bool, Option, some, List, arith, ◌-ℤ◌, neg,
  min_ℤ, ℤ, Error, Result, ok, err, out_of_fuel,
}
use cmarket.Execution.{OrderSide, buy, sell, LimitOrder}
use cmarket.Execution
use cmarket.Validation.{validate_trade, require_positive}
use cmarket.TradeStore.{TradeStore, record_trade}
use cmarket.TradeStore.Rollback.{Fill, Extends, record_trade-Extends}
use cmarket.OrderBook.Levels.{
  PriceLevel, bid_before, ask_before, adjust_levels, adjust_missing, adjust_existing,
  validate_adjustment_price,
}
use cmarket.OrderBook.Book.{OrderBook, adjust_bid, adjust_ask, set_bids, set_asks}
use cmarket.OrderManager.Lookup.{write_order}
use cmarket.OrderManager.Fill.{with_remaining}
use cmarket.MatchingEngine.Defs.{MatchingEngine, adjust_order_book, execute_limit_trade, parties}

pub Result-cases :
    {A : Type 0} (r : Result A) → ((a : A) × (r ≡ ok a)) ⊎ ((x : Error) × (r ≡ err x))
Result-cases (ok a) = inl (a, refl)
Result-cases (err x) = inr (x, refl)

adjust_levels-returns :
    (before : ℤ → ℤ → Bool) (xs : List PriceLevel) (p d : ℤ)
    → adjust_levels before xs p d ≢ err out_of_fuel
unfolding adjust_levels adjust_missing adjust_existing validate_adjustment_price
adjust_levels-returns before xs p d = ground arith

-- A store whose first trades are those of another still has them.
abbrev pub Grows : TradeStore → TradeStore → Type 0
Grows s t = (old : List Execution.Trade) → Extends old s.trades → Extends old t.trades

validate_trade-returns : (p q : ℤ) → validate_trade p q ≢ err out_of_fuel
unfolding validate_trade require_positive
validate_trade-returns p q = ground arith

record_trade-cases :
    (side : OrderSide) (p q : ℤ) (b s : Option ℕ) (t : TradeStore)
    → ((x : Error) × (x ≢ out_of_fuel) × (record_trade side p q b s t ≡ (err x, t)))
      ⊎ ((a : Execution.Trade) × (t' : TradeStore) × (record_trade side p q b s t ≡ (ok a, t')))
unfolding record_trade
record_trade-cases side p q b s t = elim (Result-cases (validate_trade p q)) [
  | inl (_, h) ↦ inr (rw (record_trade, h) (_, _, refl))
  | inr (x, h) ↦
      inl (x, λ same. validate_trade-returns p q (h ∙ ap err same), rw (record_trade, h) refl)
]

pub record_trade-Grows :
    (side : OrderSide) (p q : ℤ) (b s : Option ℕ) (t t' : TradeStore) (a : Execution.Trade)
    → record_trade side p q b s t ≡ (ok a, t')
    → Grows t t'
record_trade-Grows side p q b s t t' a h old before =
    let f : Fill = record { side = side; price = p; quantity = q; buyer = b; seller = s } in
    subst (λ (r : Result Execution.Trade × TradeStore). Extends old r.1.trades) h
      (record_trade-Extends f old t before)

pub adjust_order_book-cases :
    (side : OrderSide) (p d : ℤ) (e : MatchingEngine)
    → ((x : Error) × (x ≢ out_of_fuel) × (adjust_order_book side p d e ≡ (err x, e)))
      ⊎ ((b : OrderBook) × (adjust_order_book side p d e ≡ (ok tt, record e { order_book = b })))
unfolding adjust_order_book adjust_bid adjust_ask set_bids set_asks
adjust_order_book-cases buy p d e =
    elim (Result-cases (adjust_levels bid_before e.order_book.bids p d)) [
      | inl (ys, h) ↦ inr (record e.order_book { bids = ys }, rw h refl)
      | inr (x, h) ↦ inl (
        x,
        λ same. adjust_levels-returns bid_before e.order_book.bids p d (h ∙ ap err same),
        rw h refl,
      )
    ]
adjust_order_book-cases sell p d e =
    elim (Result-cases (adjust_levels ask_before e.order_book.asks p d)) [
      | inl (ys, h) ↦ inr (record e.order_book { asks = ys }, rw h refl)
      | inr (x, h) ↦ inl (
        x,
        λ same. adjust_levels-returns ask_before e.order_book.asks p d (h ∙ ap err same),
        rw h refl,
      )
    ]

module _ (incoming resting : LimitOrder) where
  abbrev pub executed : ℤ
  executed = min_ℤ incoming.remaining_quantity resting.remaining_quantity

  abbrev pub incoming_after : LimitOrder
  incoming_after = with_remaining incoming (incoming.remaining_quantity -ℤ executed)

  abbrev pub resting_after : LimitOrder
  resting_after = with_remaining resting (resting.remaining_quantity -ℤ executed)

  -- A trade that throws has at most recorded itself.
  abbrev pub Fails : MatchingEngine → Type 0
  Fails e =
      (x : Error) × (x ≢ out_of_fuel)
      × (t : TradeStore) × Grows e.trade_store t
      × (execute_limit_trade incoming resting e ≡ (err x, record e { trade_store = t }))

  -- Else the store and the book have changed and the resting order has been written.
  pub record Trades (e : MatchingEngine) : Type 0 where
    pub store : TradeStore
    pub book : OrderBook
    pub grown : Grows e.trade_store store
    pub adjusted :
        adjust_order_book resting.side resting.price_ticks
          (neg executed)
          (record e { trade_store = store })
        ≡ (ok tt, record e { trade_store = store; order_book = book })
    pub traded : execute_limit_trade incoming resting e ≡ (
      ok incoming_after,
      record e {
        trade_store = store;
        order_book = book;
        order_manager = write_order resting.order_id resting_after e.order_manager;
      },
    )

  pub recorded-Trades :
      (e : MatchingEngine) (t : TradeStore) (a : Execution.Trade) (b : OrderBook)
      → record_trade incoming.side resting.price_ticks executed
          (some (parties incoming resting).0)
          (some (parties incoming resting).1)
          e.trade_store
        ≡ (ok a, t)
      → adjust_order_book resting.side resting.price_ticks
          (neg executed)
          (record e { trade_store = t })
        ≡ (ok tt, record e { trade_store = t; order_book = b })
      → Trades e
  unfolding execute_limit_trade
  recorded-Trades e t a b h k = record {
    store = t;
    book = b;
    grown =
        record_trade-Grows incoming.side resting.price_ticks executed
          (some (parties incoming resting).0) (some (parties incoming resting).1) e.trade_store t a
          h;
    adjusted = k;
    traded = ground (arith, h, k);
  }

  pub execute_limit_trade-cases : (e : MatchingEngine) → Fails e ⊎ Trades e
  unfolding execute_limit_trade
  execute_limit_trade-cases e =
      elim (record_trade-cases incoming.side resting.price_ticks executed
        (some (parties incoming resting).0) (some (parties incoming resting).1) e.trade_store) [
          | inl (x, ne, h) ↦ inl (x, ne, e.trade_store, (λ old before. before), ground (arith, h))
          | inr (a, t, h) ↦
              let grown =
                record_trade-Grows incoming.side resting.price_ticks executed
                  (some (parties incoming resting).0) (some (parties incoming resting).1)
                  e.trade_store t a h in
              elim (adjust_order_book-cases resting.side resting.price_ticks (neg executed)
                (record e { trade_store = t })) [
                  | inl (x, ne, k) ↦ inl (x, ne, t, grown, ground (arith, h, k))
                  | inr (b, k) ↦ inr (recorded-Trades e t a b h k)
                ]
        ]

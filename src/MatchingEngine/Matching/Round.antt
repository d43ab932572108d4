-- ===== src/MatchingEngine/Matching/Round.antt =====
-- One round of the match loop (src/matching_engine.cpp) as a relation between the states before
-- and after it: the loop stops, the round breaks off, or a trade is made.
use cmarket.Prelude.{
  ℕ, ◌≡◌, refl, sym, subst, ◌∙◌, ◌≢◌, ◌⊎◌, inl, inr, true, false, none, some, List, arith,
  Bool-cases, Option-cases, get_elem?, set, get_elem?-lt, get_elem?-set, ◌≤ℤ◌, ◌<ℤ◌, leb_ℤ, when,
  Error, pos, ok, err, logic_error, out_of_fuel,
}
use cmarket.Execution.{LimitOrder, is_filled}
use cmarket.TradeStore.{TradeStore}
use cmarket.OrderBook.Book.{OrderBook}
use cmarket.OrderManager.Defs.{OrderManager}
use cmarket.OrderManager.Lookup.{find_order, write_order}
use cmarket.OrderManager.Removal.{Removal, cancel_order_into}
use cmarket.OrderManager.Invariant.{IsConsistent}
use cmarket.OrderManager.Fill.{filled-IsConsistent, write_order_lem, cancel_order_into-shrinks}
use cmarket.MatchingEngine.Defs.{find_best_match}
use cmarket.MatchingEngine.Matching.{
  Matching, note_mutation, note_removal, filled_at, remove_filled, match_order, match_round,
}
use cmarket.MatchingEngine.Matching.Trade.{
  Grows, Trades, incoming_after, resting_after, execute_limit_trade-cases,
}

abbrev pub orders_of : Matching → List LimitOrder
orders_of s = s.engine.order_manager.orders

-- The order manager after the write to the resting order at an index.
abbrev pub written : Matching → LimitOrder → ℕ → OrderManager
written s resting i = record s.engine.order_manager {
  orders = set s.engine.order_manager.orders i (resting_after s.incoming resting);
}

-- The state after a trade that leaves something of the resting order.
abbrev pub after_trade : Matching → LimitOrder → ℕ → TradeStore → OrderBook → Matching
after_trade s resting i t b = record (note_mutation resting s) {
  engine = record s.engine { trade_store = t; order_book = b; order_manager = written s resting i };
  incoming = incoming_after s.incoming resting;
}

-- The state after a trade that fills it.
abbrev pub after_removal :
    Matching → LimitOrder → TradeStore → OrderBook → Removal → OrderManager → Matching
after_removal s resting t b r m = note_removal r (record (note_mutation resting s) {
  engine = record s.engine { trade_store = t; order_book = b; order_manager = m };
  incoming = incoming_after s.incoming resting;
})

-- The resting order of a round and where it stands.
pub record Found (s : Matching) : Type 0 where
  pub resting : LimitOrder
  pub index : ℕ
  pub held : s.engine.order_manager.order_indices resting.order_id ≡ some index
  pub here : get_elem? s.engine.order_manager.orders index ≡ some resting

-- A round that has made a trade.
pub record Round (s s' : Matching) : Type 0 where
  pub found : Found s
  pub unfilled : pos 0 <ℤ s.incoming.remaining_quantity
  pub trades : Trades s.incoming found.resting s.engine
  pub outcome :
      ((is_filled (resting_after s.incoming found.resting) ≡ false)
        × (s' ≡ after_trade s found.resting found.index trades.store trades.book))
      ⊎ ((is_filled (resting_after s.incoming found.resting) ≡ true)
          × (r : Removal) × (m : OrderManager) × (cancel_order_into found.resting.order_id
                (written s found.resting found.index)
              ≡ (ok (some r), m))
          × (s' ≡ after_removal s found.resting trades.store trades.book r m))

-- A round that has broken off, before anything but the trade store was changed.
abbrev pub Broken : Matching → Matching → Type 0
Broken s s' =
    (s' ≡ s)
    ⊎ ((f : Found s) × (t : TradeStore) × Grows s.engine.trade_store t
        × (s'
            ≡ record (note_mutation f.resting s) { engine = record s.engine { trade_store = t } }))

-- There is nothing to match any more.
abbrev pub IsDone : Matching → Type 0
IsDone s = (s.incoming.remaining_quantity ≤ℤ pos 0) ⊎ (find_best_match s.incoming s.engine ≡ none)

module _ (s : Matching) (c : IsConsistent s.engine.order_manager) (f : Found s) where
  pub written-IsConsistent : IsConsistent (written s f.resting f.index)
  written-IsConsistent =
      filled-IsConsistent s.engine.order_manager c f.index f.resting
        (resting_after s.incoming f.resting).remaining_quantity f.here

  pub written_at :
      get_elem? (written s f.resting f.index).orders f.index
      ≡ some (resting_after s.incoming f.resting)
  written_at = ground (
    arith,
    get_elem?-set s.engine.order_manager.orders f.index f.index (resting_after s.incoming f.resting)
        (get_elem?-lt s.engine.order_manager.orders f.index f.here),
  )

  module _ (d : Trades s.incoming f.resting s.engine) where
    pub written_eq :
        write_order f.resting.order_id (resting_after s.incoming f.resting) s.engine.order_manager
        ≡ written s f.resting f.index
    written_eq =
        (write_order_lem s.engine.order_manager f.resting.order_id f.index f.resting
          (resting_after s.incoming f.resting) f.held f.here).0

    filled_after :
        filled_at f.resting.order_id (after_trade s f.resting f.index d.store d.book)
        ≡ is_filled (resting_after s.incoming f.resting)
    unfolding filled_at find_order note_mutation
    filled_after = ground (arith, f.held, written_at)

    match_order_traded :
        match_order f.resting s
        ≡ when
            (is_filled (resting_after s.incoming f.resting))
            (remove_filled f.resting.order_id)
            (after_trade s f.resting f.index d.store d.book)
    unfolding match_order note_mutation
    match_order_traded = ground (arith, d.traded, written_eq, filled_after)

    match_order_removed :
        (r : Removal) (m : OrderManager)
        → is_filled (resting_after s.incoming f.resting) ≡ true
        → cancel_order_into f.resting.order_id (written s f.resting f.index) ≡ (ok (some r), m)
        → match_order f.resting s ≡ (ok tt, after_removal s f.resting d.store d.book r m)
    unfolding remove_filled note_removal note_mutation
    match_order_removed r m is_full done = match_order_traded ∙ ground (arith, is_full, done)

    match_order-Round :
        pos 0 <ℤ s.incoming.remaining_quantity
        → (s' : Matching) × (match_order f.resting s ≡ (ok tt, s')) × Round s s'
    match_order-Round unfilled =
        elim (Bool-cases (is_filled (resting_after s.incoming f.resting))) [
          | inl is_full ↦
              let (r, m, done, _, _) =
                cancel_order_into-shrinks (written s f.resting f.index) f.resting.order_id f.index
                  (resting_after s.incoming f.resting) written-IsConsistent f.held written_at in
              (
                after_removal s f.resting d.store d.book r m,
                match_order_removed r m is_full done,
                record {
                  found = f;
                  unfilled = unfilled;
                  trades = d;
                  outcome = inr (is_full, r, m, done, refl);
                },
              )
          | inr not_full ↦ (
            after_trade s f.resting f.index d.store d.book,
            match_order_traded ∙ rw not_full refl,
            record { found = f; unfilled = unfilled; trades = d; outcome = inl (not_full, refl) },
          )
        ]

  match_order-cases :
      pos 0 <ℤ s.incoming.remaining_quantity
      → ((x : Error) × (x ≢ out_of_fuel)
          × (s' : Matching) × (match_order f.resting s ≡ (err x, s'))
          × Broken s s')
        ⊎ ((s' : Matching) × (match_order f.resting s ≡ (ok tt, s')) × Round s s')
  unfolding match_order note_mutation
  match_order-cases unfilled = elim (execute_limit_trade-cases s.incoming f.resting s.engine) [
    | inl (x, ne, t, grown, h) ↦ inl (
      x,
      ne,
      record (note_mutation f.resting s) { engine = record s.engine { trade_store = t } },
      ground (arith, h),
      inr (f, t, grown, refl),
    )
    | inr d ↦ inr (match_order-Round d unfilled)
  ]

-- Where the order that is found under an identifier stands.
pub at_index :
    (s : Matching) (o : LimitOrder) (id : ℕ)
    → IsConsistent s.engine.order_manager
    → find_order s.engine.order_manager id ≡ some o
    → (i : ℕ) × (s.engine.order_manager.order_indices o.order_id ≡ some i)
      × (get_elem? s.engine.order_manager.orders i ≡ some o)
unfolding find_order
at_index s o id c found = elim (Option-cases (s.engine.order_manager.order_indices id)) [
  | inl h ↦ absurd (ground (arith, h, found))
  | inr (i, h) ↦
      let here : get_elem? s.engine.order_manager.orders i ≡ some o = ground (arith, h, found) in
      (i, c.indexed i o here, here)
]

-- A round that does not stop the loop.
abbrev pub RoundCases : Matching → Type 0
RoundCases s =
    ((x : Error) × (x ≢ out_of_fuel)
      × (s' : Matching) × (match_round s ≡ (err x, s'))
      × Broken s s')
    ⊎ ((s' : Matching) × (match_round s ≡ (ok true, s')) × Round s s')

-- A round that has found its match.
found_round :
    (s : Matching)
    → IsConsistent s.engine.order_manager
    → (best_id : ℕ) → leb_ℤ s.incoming.remaining_quantity (pos 0) ≡ false
    → find_best_match s.incoming s.engine ≡ some best_id
    → RoundCases s
unfolding match_round
found_round s c best_id unfilled best =
    elim (Option-cases (find_order s.engine.order_manager best_id)) [
      | inl gone ↦ inl (logic_error, (λ h. cc h), s, ground (arith, unfilled, best, gone), inl refl)
      | inr (resting, found) ↦
          let (i, held, here) = at_index s resting best_id c found in
          let f : Found s = record { resting = resting; index = i; held = held; here = here } in
          elim (match_order-cases s c f (ground (arith, unfilled))) [
            | inl (x, ne, s', h, b) ↦ inl (x, ne, s', ground (arith, unfilled, best, found, h), b)
            | inr (s', h, d) ↦ inr (s', ground (arith, unfilled, best, found, h), d)
          ]
    ]

-- The outcomes of a round: the loop ends, the round fails, or it makes a trade.
pub match_round-cases :
    (s : Matching)
    → IsConsistent s.engine.order_manager
    → ((match_round s ≡ (ok false, s)) × IsDone s) ⊎ RoundCases s
unfolding match_round
match_round-cases s c = elim (Bool-cases (leb_ℤ s.incoming.remaining_quantity (pos 0))) [
  | inl done ↦ inl (rw (match_round, done) refl, inl (ground (arith, done)))
  | inr unfilled ↦ elim (Option-cases (find_best_match s.incoming s.engine)) [
    | inl alone ↦ inl (rw (match_round, unfilled, alone) refl, inr alone)
    | inr (best_id, best) ↦ inr (found_round s c best_id unfilled best)
  ]
]

-- What a trade leaves as it was, and where it has put the rest.
abbrev Frames : (s t : Matching) → LimitOrder → TradeStore → OrderBook → Type 0
Frames s t resting store book =
    (t.incoming ≡ incoming_after s.incoming resting)
    × (t.incoming_added ≡ s.incoming_added)
    × (t.engine.trade_store ≡ store)
    × (t.engine.order_book ≡ book)
    × (t.engine.order_id_generator ≡ s.engine.order_id_generator)
    × (t.engine.next_sequence_number ≡ s.engine.next_sequence_number)

pub Round-frame :
    (s s' : Matching) (d : Round s s') → Frames s s' d.found.resting d.trades.store d.trades.book
unfolding note_mutation note_removal
Round-frame s s' d =
    let F : Matching → Type 0 = λ t. Frames s t d.found.resting d.trades.store d.trades.book in
    elim d.outcome [
      | inl (_, eq) ↦ subst F (sym eq) (refl, refl, refl, refl, refl, refl)
      | inr (_, r, m, _, eq) ↦ subst F (sym eq) (refl, refl, refl, refl, refl, refl)
    ]

-- A round that broke off has at most recorded a trade.
pub Broken-frame :
    (s s' : Matching)
    → Broken s s'
    → Grows s.engine.trade_store s'.engine.trade_store × (s'.incoming_added ≡ s.incoming_added)
unfolding note_mutation
Broken-frame s s' b = elim b [
  | inl eq ↦
      subst
        (λ t.
          Grows s.engine.trade_store t.engine.trade_store × (t.incoming_added ≡ s.incoming_added))
        (sym eq) ((λ old before. before), refl)
  | inr (f, t, grown, eq) ↦
      subst
        (λ t.
          Grows s.engine.trade_store t.engine.trade_store × (t.incoming_added ≡ s.incoming_added))
        (sym eq) (grown, refl)
]

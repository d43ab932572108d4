-- ===== src/OrderFlowImbalance/Remembers.antt =====
-- After any calls, the figures are those of the last events (include/order_flow_imbalance.hpp).
use cmarket.Prelude.{
  ℕ, zero, suc, ◌<◌, ◌≡◌, refl, sym, ap, subst, ◌∙◌, inl, inr, true, false, Option, none, some,
  List, [], ◌∷◌, arith, ltb, if◌then◌else◌, Bool-cases, length, take, push_back, ok, err,
  invalid_argument,
}
use cmarket.LongDouble.{LongDouble}
use cmarket.PositionManager.{same_symbol}
use cmarket.PositionManager.Entries.{same_symbol_iff}
use cmarket.SymbolMap.{find, put, find-put, find-erase}
use cmarket.OrderFlowImbalance.{
  OfiSnapshot, SymbolState, OrderFlowImbalance, make, next_state, state_of, update, latest_ofi,
  rolling_ofi, event_count, clear_symbol, clear,
}
use cmarket.OrderFlowImbalance.Window.{oldest_first, length-oldest_first, length-window}
use cmarket.OrderFlowImbalance.History.{
  Call, updated, symbol_cleared, all_cleared, accepts, history, validate_snapshot-accepts, call,
  run, changes, Tracks, next_state-Tracks, Represents,
}

module _ (F : LongDouble) where
  same_history :
      (w : ℕ) {h h' : List OfiSnapshot} {o o' : Option (SymbolState F)}
      → h ≡ h'
      → o ≡ o'
      → Tracks F w h o
      → Tracks F w h' o'
  same_history w {h} {h'} {o} {o'} p q t =
      subst (λ x. Tracks F w x o') p (subst (λ x. Tracks F w h x) q t)

  -- `update` throws exactly on a snapshot that it does not accept, and then changes nothing.
  pub update_accepted :
      (symbol : List ℕ) (snapshot : OfiSnapshot) (s : OrderFlowImbalance F)
      → accepts symbol snapshot ≡ true
      → update F symbol snapshot s ≡ (
        ok tt,
        record s {
          symbols =
              put symbol
                (next_state F s.window_size snapshot (state_of F (find symbol s.symbols)))
                s.symbols;
        },
      )
  unfolding update
  update_accepted symbol snapshot s h = ground (arith, validate_snapshot-accepts symbol snapshot, h)

  pub update_refused :
      (symbol : List ℕ) (snapshot : OfiSnapshot) (s : OrderFlowImbalance F)
      → accepts symbol snapshot ≡ false
      → update F symbol snapshot s ≡ (err invalid_argument, s)
  unfolding update
  update_refused symbol snapshot s h = ground (arith, validate_snapshot-accepts symbol snapshot, h)

  module _ (w : ℕ) (positive : 0 < w) (calls : List Call) (s : OrderFlowImbalance F)
      (r : Represents F w (history calls) s) where
    remembers_cleared :
        (symbol : List ℕ)
        → Represents F w (history (symbol_cleared symbol ∷ calls)) (clear_symbol F symbol s)
    unfolding history clear_symbol
    remembers_cleared symbol = record {
      window = r.window;
      tracks = λ other. elim (Bool-cases (same_symbol symbol other)) [
        | inl same ↦
            same_history w {h = []} {o = none} (ground (arith, same))
              (sym (find-erase symbol other s.symbols ∙ ground (arith, same))) refl
        | inr apart ↦
            same_history w (ground (arith, apart))
              (sym (find-erase symbol other s.symbols ∙ ground (arith, apart))) (r.tracks other)
      ];
    }

    remembers_accepted :
        (symbol : List ℕ) (snapshot : OfiSnapshot)
        → accepts symbol snapshot ≡ true
        → Represents F w (history (updated symbol snapshot ∷ calls)) (update F symbol snapshot s).1
    unfolding history
    remembers_accepted symbol snapshot h =
        subst (λ x. Represents F w (history (updated symbol snapshot ∷ calls)) x.1)
          (sym (update_accepted symbol snapshot s h))
          (record {
            window = r.window;
            tracks = λ other. elim (Bool-cases (same_symbol symbol other)) [
              | inl same ↦
                  same_history w
                    (ap (λ xs. snapshot ∷ history calls xs) ((same_symbol_iff symbol other).0 same)
                      ∙ ground (arith, same, h))
                    (sym (find-put symbol other next s.symbols ∙ ground (arith, same)))
                    (subst
                      (λ n.
                        Tracks F w (snapshot ∷ history calls symbol)
                          (some (next_state F n snapshot (state_of F (find symbol s.symbols)))))
                      (sym r.window)
                      (next_state-Tracks F w snapshot (history calls symbol) (find symbol s.symbols)
                        positive (r.tracks symbol)))
              | inr apart ↦
                  same_history w (ground (arith, apart, h))
                    (sym (find-put symbol other next s.symbols ∙ ground (arith, apart)))
                    (r.tracks other)
            ];
          })
      where
        next : SymbolState F
        next = next_state F s.window_size snapshot (state_of F (find symbol s.symbols))

    remembers_refused :
        (symbol : List ℕ) (snapshot : OfiSnapshot)
        → accepts symbol snapshot ≡ false
        → Represents F w (history (updated symbol snapshot ∷ calls)) (update F symbol snapshot s).1
    unfolding history
    remembers_refused symbol snapshot h =
        subst (λ x. Represents F w (history (updated symbol snapshot ∷ calls)) x.1)
          (sym (update_refused symbol snapshot s h))
          (record {
            window = r.window;
            tracks = λ other. same_history w (ground (arith, h)) refl (r.tracks other);
          })

    remembers : (c : Call) → Represents F w (history (c ∷ calls)) (call F c s)
    unfolding history call clear find
    remembers (symbol_cleared symbol) = remembers_cleared symbol
    remembers all_cleared = record { window = r.window; tracks = λ other. refl }
    remembers (updated symbol snapshot) = elim (Bool-cases (accepts symbol snapshot)) [
      | inl h ↦ remembers_accepted symbol snapshot h
      | inr h ↦ remembers_refused symbol snapshot h
    ]

  pub run-Represents :
      (w : ℕ) (calls : List Call) (s : OrderFlowImbalance F)
      → make F w ≡ ok s
      → Represents F w (history calls) (run F calls s)
  unfolding make run history find
  run-Represents w [] s h = record {
    window = ground (arith, h);
    tracks = λ other. ground (arith, h);
  }
  run-Represents w (c ∷ calls) s h =
      remembers w (ground (arith, h)) calls (run F calls s) (run-Represents w calls s h) c

  pub some_front :
      (xs : List F.Carrier) (c : F.Carrier)
      → (e : F.Carrier) × (es : List F.Carrier) × (push_back xs c ≡ e ∷ es)
  some_front [] c = (c, [], refl)
  some_front (x ∷ xs) c = (x, push_back xs c, refl)

  -- What the public methods return, from the events of a symbol.
  pub record Observes (w : ℕ) (cs : List F.Carrier) (symbol : List ℕ) (s : OrderFlowImbalance F)
      : Type 0 where
    pub count : event_count F symbol s ≡ (if ltb (length cs) w then length cs else w)
    pub nothing : cs ≡ [] → (latest_ofi F symbol s ≡ none) × (rolling_ofi F symbol s ≡ none)
    pub latest :
        (c : F.Carrier) (older : List F.Carrier) → cs ≡ c ∷ older → latest_ofi F symbol s ≡ some c

  Tracks-Observes :
      (w : ℕ) (h : List OfiSnapshot) (symbol : List ℕ) (s : OrderFlowImbalance F)
      → 0 < w
      → Tracks F w h (find symbol s.symbols)
      → Observes w (changes F h) symbol s
  unfolding event_count latest_ofi rolling_ofi changes oldest_first
  Tracks-Observes w [] symbol s positive t = record {
    count = ground (arith, t, positive);
    nothing = λ _. (ground (arith, t), ground (arith, t));
    latest = λ c older k. cc k;
  }
  Tracks-Observes zero (p ∷ h) symbol s positive t = absurd (omega (arith, positive))
  Tracks-Observes (suc w) (p ∷ h) symbol s positive (st, there, f) = record {
    count =
        ground (arith, there)
        ∙ ap length f.events
        ∙ length-oldest_first (take (suc w) (changes F (p ∷ h)))
        ∙ length-window (suc w) (changes F (p ∷ h));
    nothing = λ k.
        let empty = no_events k in (ground (arith, there, empty), ground (arith, there, empty));
    latest = λ c older k.
        let (e, es, front) = some_event c older k in
        ground (arith, there, front, f.latest c older k);
  }
    where
      no_events : changes F (p ∷ h) ≡ [] → st.events ≡ []
      no_events k = f.events ∙ ap (λ cs. oldest_first (take (suc w) cs)) k

      some_event :
          (c : F.Carrier) (older : List F.Carrier)
          → changes F (p ∷ h) ≡ c ∷ older
          → (e : F.Carrier) × (es : List F.Carrier) × (st.events ≡ e ∷ es)
      some_event c older k =
          let (e, es, front) = some_front (oldest_first (take w older)) c in
          (e, es, f.events ∙ ap (λ cs. oldest_first (take (suc w) cs)) k ∙ front)

-- With a window that the constructor accepted, after any calls, of updates, also of ones that
-- throw, and of both clears, for every symbol: the number of events is that of the changes between
-- consecutive snapshots that were accepted since the symbol was cleared, at most the window; the
-- latest imbalance is that of the latest change; and there is no figure where there is no change.
pub run-Observes :
    (F : LongDouble) (w : ℕ) (calls : List Call) (symbol : List ℕ) (s : OrderFlowImbalance F)
    → make F w ≡ ok s
    → Observes F w (changes F (history calls symbol)) symbol (run F calls s)
unfolding make
run-Observes F w calls symbol s made =
    Tracks-Observes F w (history calls symbol) symbol (run F calls s) (ground (arith, made))
      ((run-Represents F w calls s made).tracks symbol)

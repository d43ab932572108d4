-- ===== src/OrderFlowImbalance/History.antt =====
-- What the imbalance of order flow remembers of the calls (include/order_flow_imbalance.hpp).
use cmarket.Prelude.{
  ℕ, zero, suc, ◌<◌, ◌≡◌, refl, sym, ap, subst, ◌∙◌, inl, inr, Bool, true, false, ◌&&◌, Option,
  none, some, List, [], ◌∷◌, arith, ltb, ◌==◌, if◌then◌else◌, Bool-cases, length, take, ltb_ℤ, pos,
  ok, err, invalid_argument,
}
use cmarket.LongDouble.{LongDouble}
use cmarket.PositionManager.{same_symbol}
use cmarket.SymbolMap.{find}
use cmarket.OrderFlowImbalance.{
  OfiLevel, OfiSnapshot, validate_level, is_crossed, validate_snapshot, event_ofi, SymbolState,
  new_state, OrderFlowImbalance, make_room, add_event, next_state, state_of, update, clear_symbol,
  clear,
}
use cmarket.OrderFlowImbalance.Window.{
  oldest_first, pop_front, length-oldest_first, pop_front-take, length-window, take_short,
}

pub data Call : Type 0 where
  updated : List ℕ → OfiSnapshot → Call
  symbol_cleared : List ℕ → Call
  all_cleared : Call

abbrev is_positive : Option OfiLevel → Bool
is_positive none = true
is_positive (some level) = ltb_ℤ (pos 0) level.price_ticks && ltb_ℤ (pos 0) level.quantity

abbrev is_apart : Option OfiLevel → Option OfiLevel → Bool
is_apart (some bid) (some ask) = ltb_ℤ bid.price_ticks ask.price_ticks
is_apart bid ask = true

-- A symbol with a name, levels with positive numbers, and a bid below the ask.
unfoldable pub accepts : List ℕ → OfiSnapshot → Bool
accepts [] snapshot = false
accepts (c ∷ cs) snapshot =
    is_positive snapshot.best_bid
    && is_positive snapshot.best_ask
    && is_apart snapshot.best_bid snapshot.best_ask

-- The snapshots of a symbol that were accepted since it was cleared, the latest first, after the
-- calls, of which the latest stands first.
unfoldable pub history : List Call → List ℕ → List OfiSnapshot
history [] other = []
history (updated symbol snapshot ∷ calls) other =
    let before = history calls other in
    if accepts symbol snapshot && same_symbol symbol other then snapshot ∷ before else before
history (symbol_cleared symbol ∷ calls) other =
    let before = history calls other in if same_symbol symbol other then [] else before
history (all_cleared ∷ calls) other = []

pub validate_snapshot-accepts :
    (symbol : List ℕ) (snapshot : OfiSnapshot)
    → validate_snapshot symbol snapshot
      ≡ (if accepts symbol snapshot then ok tt else err invalid_argument)
unfolding validate_snapshot validate_level is_crossed accepts
validate_snapshot-accepts [] snapshot = refl
validate_snapshot-accepts (c ∷ cs) snapshot =
    by_levels snapshot.best_bid snapshot.best_ask refl refl
  where
    by_levels :
        (bid ask : Option OfiLevel)
        → snapshot.best_bid ≡ bid
        → snapshot.best_ask ≡ ask
        → validate_snapshot (c ∷ cs) snapshot
          ≡ (if accepts (c ∷ cs) snapshot then ok tt else err invalid_argument)
    by_levels none none b a = ground (arith, a, b)
    by_levels none (some ask) b a = ground (arith, a, b)
    by_levels (some bid) none b a = ground (arith, a, b)
    by_levels (some bid) (some ask) b a = ground (arith, a, b)

module _ (F : LongDouble) where
  unfoldable pub call : Call → OrderFlowImbalance F → OrderFlowImbalance F
  call (updated symbol snapshot) s = (update F symbol snapshot s).1
  call (symbol_cleared symbol) s = clear_symbol F symbol s
  call all_cleared s = clear F s

  -- The latest call stands first.
  unfoldable pub run : List Call → OrderFlowImbalance F → OrderFlowImbalance F
  run [] s = s
  run (c ∷ calls) s = call c (run calls s)

  -- The events between consecutive snapshots, the latest first.
  unfoldable pub changes : List OfiSnapshot → List F.Carrier
  changes [] = []
  changes (s ∷ []) = []
  changes (s ∷ p ∷ h) = event_ofi F p s ∷ changes (p ∷ h)

  -- The state of a symbol with a history.
  pub record Follows (w : ℕ) (s : OfiSnapshot) (h : List OfiSnapshot) (st : SymbolState F)
      : Type 0 where
    pub initialized : st.initialized ≡ true
    pub previous : st.previous ≡ s
    pub events : st.events ≡ oldest_first (take w (changes (s ∷ h)))
    pub latest :
        (c : F.Carrier) (cs : List F.Carrier) → changes (s ∷ h) ≡ c ∷ cs → st.latest_event ≡ c

  abbrev pub Tracks : ℕ → List OfiSnapshot → Option (SymbolState F) → Type 0
  Tracks w [] o = o ≡ none
  Tracks w (s ∷ h) o = (st : SymbolState F) × (o ≡ some st) × Follows w s h st

  make_room-events :
      (w : ℕ) (st : SymbolState F)
      → (make_room F w st).events
        ≡ (if length st.events == w then pop_front st.events else st.events)
  unfolding make_room pop_front
  make_room-events w st = by_events st.events refl
    where
      by_events :
          (es : List F.Carrier)
          → st.events ≡ es
          → (make_room F w st).events
            ≡ (if length st.events == w then pop_front st.events else st.events)
      by_events [] k = ground (arith, k)
      by_events (e ∷ es) k = ground (arith, k)

  -- What is left when there is room for one more event.
  made_room :
      (w : ℕ) (cs : List F.Carrier) (st : SymbolState F)
      → st.events ≡ oldest_first (take (suc w) cs)
      → (make_room F (suc w) st).events ≡ oldest_first (take w cs)
  made_room w cs st h = elim (Bool-cases (ltb (length cs) (suc w))) [
    | inl short ↦
        let all : take (suc w) cs ≡ cs = take_short (suc w) cs (ground (arith, short)) in
        let same : take w cs ≡ cs = take_short w cs (ground (arith, short)) in
        let size : length st.events ≡ length cs =
          ap length h ∙ length-oldest_first (take (suc w) cs) ∙ ap length all in
        make_room-events (suc w) st
        ∙ ground (arith, size, short)
        ∙ h
        ∙ ap oldest_first (all ∙ sym same)
    | inr long ↦
        let size : length st.events ≡ suc w =
          ap length h
          ∙ length-oldest_first (take (suc w) cs)
          ∙ length-window (suc w) cs
          ∙ ground (arith, long) in
        make_room-events (suc w) st
        ∙ ground (arith, size)
        ∙ ap pop_front h
        ∙ pop_front-take w cs (ground (arith, long))
  ]

  first_state : (w : ℕ) (s : OfiSnapshot) → Follows w s [] (next_state F w s (new_state F))
  unfolding next_state new_state changes oldest_first
  first_state zero s = record {
    initialized = refl;
    previous = refl;
    events = refl;
    latest = λ c cs h. cc h;
  }
  first_state (suc w) s = record {
    initialized = refl;
    previous = refl;
    events = refl;
    latest = λ c cs h. cc h;
  }

  later_state :
      (w : ℕ) (s p : OfiSnapshot) (h : List OfiSnapshot) (st : SymbolState F)
      → Follows (suc w) p h st
      → Follows (suc w) s (p ∷ h) (next_state F (suc w) s st)
  unfolding next_state add_event make_room changes oldest_first
  later_state w s p h st f = record {
    initialized = ground (arith, f.initialized);
    previous = ground (arith, f.initialized);
    events = ground (arith, f.initialized, f.previous, made_room w (changes (p ∷ h)) st f.events);
    latest = λ c cs k. ground (arith, f.initialized, f.previous, k);
  }

  pub next_state-Tracks :
      (w : ℕ) (s : OfiSnapshot) (h : List OfiSnapshot) (o : Option (SymbolState F))
      → 0 < w
      → Tracks w h o
      → Tracks w (s ∷ h) (some (next_state F w s (state_of F o)))
  unfolding state_of
  next_state-Tracks zero s h o positive t = absurd (omega (arith, positive))
  next_state-Tracks (suc w) s [] o positive none_there = (
    next_state F (suc w) s (state_of F o),
    refl,
    subst (λ x. Follows (suc w) s [] (next_state F (suc w) s (state_of F x))) (sym none_there)
        (first_state (suc w) s),
  )
  next_state-Tracks (suc w) s (p ∷ h) o positive (st, there, f) = (
    next_state F (suc w) s (state_of F o),
    refl,
    subst (λ x. Follows (suc w) s (p ∷ h) (next_state F (suc w) s (state_of F x))) (sym there)
        (later_state w s p h st f),
  )

  pub record Represents (w : ℕ) (h : List ℕ → List OfiSnapshot) (s : OrderFlowImbalance F)
      : Type 0 where
    pub window : s.window_size ≡ w
    pub tracks : (symbol : List ℕ) → Tracks w (h symbol) (find symbol s.symbols)

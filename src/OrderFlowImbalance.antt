-- ===== src/OrderFlowImbalance.antt =====
-- include/order_flow_imbalance.hpp. The sums of a `long double` are those of an argument.
pub mod Window
pub mod History
pub mod Remembers
pub mod Exact
use cmarket.Prelude.{
  ℕ, Bool, true, false, ◌||◌, Option, none, some, List, [], ◌∷◌, ◌==◌, if◌then◌else◌, length,
  push_back, ltb_ℤ, leb_ℤ, ℤ, throw_if, and_then, Action, lift, ◌>>=◌, ◌>>◌, modify, Result, pos,
  ok, err, invalid_argument,
}
use cmarket.LongDouble.{LongDouble}
use cmarket.SymbolMap.{find, put, erase}

pub record OfiLevel : Type 0 where
  pub price_ticks : ℤ
  pub quantity : ℤ

pub record OfiSnapshot : Type 0 where
  pub best_bid : Option OfiLevel
  pub best_ask : Option OfiLevel

unfoldable pub validate_level : Option OfiLevel → Result (Unit {0})
validate_level none = ok tt
validate_level (some level) =
    throw_if (leb_ℤ level.price_ticks (pos 0) || leb_ℤ level.quantity (pos 0)) invalid_argument

unfoldable pub is_crossed : OfiSnapshot → Bool
is_crossed snapshot = elim snapshot.best_bid [
  | none ↦ false
  | some bid ↦ elim snapshot.best_ask [
    | none ↦ false
    | some ask ↦ leb_ℤ ask.price_ticks bid.price_ticks
  ]
]

-- The checks of `update`.
unfoldable pub validate_snapshot : List ℕ → OfiSnapshot → Result (Unit {0})
validate_snapshot [] snapshot = err invalid_argument
validate_snapshot (c ∷ cs) snapshot = and_then (validate_level snapshot.best_bid) λ _.
    and_then (validate_level snapshot.best_ask) λ _. throw_if (is_crossed snapshot) invalid_argument

module _ (F : LongDouble) where
  unfoldable pub bid_contribution : Option OfiLevel → Option OfiLevel → F.Carrier
  bid_contribution none none = F.of_int64 (pos 0)
  bid_contribution none (some current) = F.of_int64 current.quantity
  bid_contribution (some previous) none = F.negated (F.of_int64 previous.quantity)
  bid_contribution (some previous) (some current) =
      if ltb_ℤ previous.price_ticks current.price_ticks
      then F.of_int64 current.quantity
      else if ltb_ℤ current.price_ticks previous.price_ticks
      then F.negated (F.of_int64 previous.quantity)
      else F.minus (F.of_int64 current.quantity) (F.of_int64 previous.quantity)

  unfoldable pub ask_contribution : Option OfiLevel → Option OfiLevel → F.Carrier
  ask_contribution none none = F.of_int64 (pos 0)
  ask_contribution none (some current) = F.of_int64 current.quantity
  ask_contribution (some previous) none = F.negated (F.of_int64 previous.quantity)
  ask_contribution (some previous) (some current) =
      if ltb_ℤ current.price_ticks previous.price_ticks
      then F.of_int64 current.quantity
      else if ltb_ℤ previous.price_ticks current.price_ticks
      then F.negated (F.of_int64 previous.quantity)
      else F.minus (F.of_int64 current.quantity) (F.of_int64 previous.quantity)

  unfoldable pub event_ofi : OfiSnapshot → OfiSnapshot → F.Carrier
  event_ofi previous snapshot =
      F.minus (bid_contribution previous.best_bid snapshot.best_bid)
        (ask_contribution previous.best_ask snapshot.best_ask)

  pub record SymbolState : Type 0 where
    pub initialized : Bool
    pub previous : OfiSnapshot
    pub events : List F.Carrier
    pub rolling_total : F.Carrier
    pub latest_event : F.Carrier

  unfoldable pub new_state : SymbolState
  new_state = record {
    initialized = false;
    previous = record { best_bid = none; best_ask = none };
    events = [];
    rolling_total = F.of_int64 (pos 0);
    latest_event = F.of_int64 (pos 0);
  }

  pub record OrderFlowImbalance : Type 0 where
    pub window_size : ℕ
    pub symbols : List (List ℕ × SymbolState)

  unfoldable pub make : ℕ → Result OrderFlowImbalance
  make window_size =
      if window_size == 0
      then err invalid_argument
      else ok (record { window_size = window_size; symbols = [] })

  -- The oldest event leaves a full window, which has one since its size is positive.
  unfoldable pub make_room : ℕ → SymbolState → SymbolState
  make_room window_size state =
      if length state.events == window_size
      then elim state.events [
        | [] ↦ state
        | front ∷ rest ↦ record state {
          rolling_total = F.minus state.rolling_total front;
          events = rest;
        }
      ]
      else state

  unfoldable pub add_event : F.Carrier → OfiSnapshot → SymbolState → SymbolState
  add_event event snapshot state = record state {
    previous = snapshot;
    events = push_back state.events event;
    rolling_total = F.plus state.rolling_total event;
    latest_event = event;
  }

  -- What `update` does with the state of its symbol.
  unfoldable pub next_state : ℕ → OfiSnapshot → SymbolState → SymbolState
  next_state window_size snapshot state =
      if state.initialized
      then add_event (event_ofi state.previous snapshot) snapshot (make_room window_size state)
      else record state { previous = snapshot; initialized = true }

  -- The state that `operator[]` refers to.
  unfoldable pub state_of : Option SymbolState → SymbolState
  state_of none = new_state
  state_of (some state) = state

  unfoldable pub update : List ℕ → OfiSnapshot → Action OrderFlowImbalance (Unit {0})
  update symbol snapshot = do
    lift (validate_snapshot symbol snapshot)
    modify (λ s. record s {
      symbols =
          put symbol (next_state s.window_size snapshot (state_of (find symbol s.symbols)))
            s.symbols;
    })

  unfoldable pub latest_ofi : List ℕ → OrderFlowImbalance → Option F.Carrier
  latest_ofi symbol s = elim (find symbol s.symbols) [
    | none ↦ none
    | some state ↦ elim state.events [ [] ↦ none | event ∷ events ↦ some state.latest_event ]
  ]

  unfoldable pub rolling_ofi : List ℕ → OrderFlowImbalance → Option F.Carrier
  rolling_ofi symbol s = elim (find symbol s.symbols) [
    | none ↦ none
    | some state ↦ elim state.events [ [] ↦ none | event ∷ events ↦ some state.rolling_total ]
  ]

  unfoldable pub event_count : List ℕ → OrderFlowImbalance → ℕ
  event_count symbol s = elim (find symbol s.symbols) [
    | none ↦ 0
    | some state ↦ length state.events
  ]

  unfoldable pub clear_symbol : List ℕ → OrderFlowImbalance → OrderFlowImbalance
  clear_symbol symbol s = record s { symbols = erase symbol s.symbols }

  unfoldable pub clear : OrderFlowImbalance → OrderFlowImbalance
  clear s = record s { symbols = [] }

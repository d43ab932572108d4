-- ===== src/OrderFlowImbalance/Exact.antt =====
-- The rolling total of include/order_flow_imbalance.hpp, where no addition rounds.
use cmarket.Prelude.{
  ℕ, zero, suc, ◌≡◌, refl, sym, ap, subst, ◌∙◌, inl, inr, Option, none, some, List, [], ◌∷◌, arith,
  ◌==◌, Bool-cases, length, take, push_back, pos_part, neg_part, ◌+ℤ◌, ◌-ℤ◌, +ℤ_parts, -ℤ_parts,
  eq_of_parts, ℤ, pos, ok,
}
use cmarket.LongDouble.{exact}
use cmarket.PositionManager.{same_symbol}
use cmarket.SymbolMap.{find, find-put, find-erase}
use cmarket.OrderFlowImbalance.{
  OfiSnapshot, event_ofi, SymbolState, new_state, OrderFlowImbalance, make, make_room, add_event,
  next_state, state_of, update, rolling_ofi, clear_symbol, clear,
}
use cmarket.OrderFlowImbalance.Window.{oldest_first}
use cmarket.OrderFlowImbalance.History.{
  Call, updated, symbol_cleared, all_cleared, accepts, history, call, run, changes, Tracks,
}
use cmarket.OrderFlowImbalance.Remembers.{
  update_accepted, update_refused, some_front, run-Represents,
}

unfoldable pub total : List ℤ → ℤ
total [] = pos 0
total (x ∷ xs) = x +ℤ total xs

total-push_back : (xs : List ℤ) (x : ℤ) → total (push_back xs x) ≡ total xs +ℤ x
unfolding total
total-push_back [] x = eq_of_parts _ _ (omega (arith, +ℤ_parts x (pos 0), +ℤ_parts (pos 0) x))
total-push_back (y ∷ ys) x = eq_of_parts _ _ (
    omega (
      arith,
      ap pos_part (total-push_back ys x),
      ap neg_part (total-push_back ys x),
      +ℤ_parts y (total (push_back ys x)),
      +ℤ_parts y (total ys),
      +ℤ_parts (total ys) x,
      +ℤ_parts (y +ℤ total ys) x,
    ))

total-oldest_first : (xs : List ℤ) → total (oldest_first xs) ≡ total xs
unfolding total oldest_first
total-oldest_first [] = refl
total-oldest_first (x ∷ xs) =
    total-push_back (oldest_first xs) x
    ∙ eq_of_parts _ _ (
        omega (
          arith,
          ap pos_part (total-oldest_first xs),
          ap neg_part (total-oldest_first xs),
          +ℤ_parts (total (oldest_first xs)) x,
          +ℤ_parts x (total xs),
        ))

front_leaves : (x t : ℤ) → (x +ℤ t) -ℤ x ≡ t
front_leaves x t = eq_of_parts _ _ (omega (arith, +ℤ_parts x t, -ℤ_parts (x +ℤ t) x))

abbrev IsSummed : SymbolState exact → Type 0
IsSummed st = st.rolling_total ≡ total st.events

make_room-IsSummed :
    (w : ℕ) (st : SymbolState exact) → IsSummed st → IsSummed (make_room exact w st)
unfolding make_room total
make_room-IsSummed w st h = by_events st.events refl
  where
    by_events : (es : List ℤ) → st.events ≡ es → IsSummed (make_room exact w st)
    by_events [] k = ground (arith, k, h)
    by_events (e ∷ es) k = elim (Bool-cases (length st.events == w)) [
      | inl full ↦
          let summed : st.rolling_total ≡ e +ℤ total es = h ∙ ap total k in
          ground (arith, full, k, ap (λ t. t -ℤ e) summed ∙ front_leaves e (total es))
      | inr room ↦ ground (arith, room, h)
    ]

next_state-IsSummed :
    (w : ℕ) (s : OfiSnapshot) (st : SymbolState exact)
    → IsSummed st
    → IsSummed (next_state exact w s st)
unfolding next_state add_event
next_state-IsSummed w s st h = elim (Bool-cases st.initialized) [
  | inl later ↦
      let event = event_ofi exact st.previous s in
      let room = make_room exact w st in
      ground (
        arith,
        later,
        ap (λ t. t +ℤ event) (make_room-IsSummed w st h),
        total-push_back room.events event,
      )
  | inr first ↦ ground (arith, first, h)
]

state_of-IsSummed :
    (o : Option (SymbolState exact))
    → ((st : SymbolState exact) → o ≡ some st → IsSummed st)
    → IsSummed (state_of exact o)
unfolding state_of new_state total
state_of-IsSummed none h = refl
state_of-IsSummed (some st) h = h st refl

abbrev IsAllSummed : OrderFlowImbalance exact → Type 0
IsAllSummed s =
    (symbol : List ℕ) (st : SymbolState exact) → find symbol s.symbols ≡ some st → IsSummed st

update-IsAllSummed :
    (symbol : List ℕ) (snapshot : OfiSnapshot) (s : OrderFlowImbalance exact)
    → IsAllSummed s
    → IsAllSummed (update exact symbol snapshot s).1
update-IsAllSummed symbol snapshot s h = elim (Bool-cases (accepts symbol snapshot)) [
  | inr refused ↦
      subst (λ x. IsAllSummed x.1) (sym (update_refused exact symbol snapshot s refused)) h
  | inl accepted ↦
      let next = next_state exact s.window_size snapshot (state_of exact (find symbol s.symbols)) in
      let summed : IsSummed next =
        next_state-IsSummed s.window_size snapshot (state_of exact (find symbol s.symbols))
          (state_of-IsSummed (find symbol s.symbols) (h symbol)) in
      subst (λ x. IsAllSummed x.1) (sym (update_accepted exact symbol snapshot s accepted))
        (λ other st there. elim (Bool-cases (same_symbol symbol other)) [
          | inl same ↦
              let same_state : some next ≡ some st =
                sym (find-put symbol other next s.symbols ∙ ground (arith, same)) ∙ there in
              ground (arith, same_state, summed)
          | inr apart ↦
              h other st
                (sym (find-put symbol other next s.symbols ∙ ground (arith, apart)) ∙ there)
        ])
]

run-IsAllSummed :
    (calls : List Call) (s : OrderFlowImbalance exact)
    → IsAllSummed s
    → IsAllSummed (run exact calls s)
unfolding run call clear_symbol clear find
run-IsAllSummed [] s h = h
run-IsAllSummed (updated symbol snapshot ∷ calls) s h =
    update-IsAllSummed symbol snapshot (run exact calls s) (run-IsAllSummed calls s h)
run-IsAllSummed (symbol_cleared symbol ∷ calls) s h = λ other st there.
    elim (Bool-cases (same_symbol symbol other)) [
      | inl same ↦
          absurd (ground (arith, same, there, find-erase symbol other (run exact calls s).symbols))
      | inr apart ↦ run-IsAllSummed calls s h other st (
          sym (find-erase symbol other (run exact calls s).symbols ∙ ground (arith, apart)) ∙ there)
    ]
run-IsAllSummed (all_cleared ∷ calls) s h = λ other st there. cc there

-- No figure for no events.
unfoldable pub sum_of : List ℤ → Option ℤ
sum_of [] = none
sum_of (x ∷ xs) = some (total (x ∷ xs))

Tracks-rolling :
    (w : ℕ) (h : List OfiSnapshot) (symbol : List ℕ) (s : OrderFlowImbalance exact)
    → Tracks exact w h (find symbol s.symbols)
    → IsAllSummed s
    → rolling_ofi exact symbol s ≡ sum_of (take w (changes exact h))
unfolding rolling_ofi changes sum_of oldest_first
Tracks-rolling zero [] symbol s t summed = ground (arith, t)
Tracks-rolling (suc w) [] symbol s t summed = ground (arith, t)
Tracks-rolling w (p ∷ h) symbol s (st, there, f) summed =
    by_window (take w (changes exact (p ∷ h))) refl
  where
    by_window :
        (xs : List ℤ)
        → take w (changes exact (p ∷ h)) ≡ xs
        → rolling_ofi exact symbol s ≡ sum_of (take w (changes exact (p ∷ h)))
    by_window [] k =
        let empty : st.events ≡ [] = f.events ∙ ap oldest_first k in ground (arith, there, empty, k)
    by_window (x ∷ xs) k =
        let (e, es, front) = some_front exact (oldest_first xs) x in
        let events : st.events ≡ oldest_first (x ∷ xs) = f.events ∙ ap oldest_first k in
        let sum : st.rolling_total ≡ total (x ∷ xs) =
          summed symbol st there ∙ ap total events ∙ total-oldest_first (x ∷ xs) in
        ground (arith, there, events ∙ front, sum, k)

-- With integers in place of a `long double`, so that nothing is rounded, a window that the
-- constructor accepted, and after any calls: the rolling imbalance of a symbol is the sum of the
-- last changes, as many as the window holds, between consecutive snapshots that were accepted since
-- the symbol was cleared, although only the running total is kept; without a change there is none.
pub run-rolling :
    (w : ℕ) (calls : List Call) (symbol : List ℕ) (s : OrderFlowImbalance exact)
    → make exact w ≡ ok s
    → rolling_ofi exact symbol (run exact calls s)
      ≡ sum_of (take w (changes exact (history calls symbol)))
unfolding make find
run-rolling w calls symbol s made =
    Tracks-rolling w (history calls symbol) symbol (run exact calls s)
      ((run-Represents exact w calls s made).tracks symbol)
      (run-IsAllSummed calls s λ other st there. absurd (ground (arith, made, there)))

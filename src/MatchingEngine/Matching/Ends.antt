-- ===== src/MatchingEngine/Matching/Ends.antt =====
-- The match loop of `place_limit_order` and `modify_order` (src/matching_engine.cpp) ends, and what
-- each of its rounds keeps holds at its end.
use cmarket.Prelude.{
  ℕ, zero, suc, ◌≤◌, ◌<◌, ◌≡◌, refl, sym, ap, subst, ◌≢◌, ◌⊎◌, inl, inr, true, false, some, arith,
  length, length-set, get_elem?-lt, ◌-ℤ◌, ◌≤ℤ◌, leb_ℤ, -ℤ_parts, eq_of_parts, Error, Result, pos,
  ok, err, out_of_fuel,
}
use cmarket.Execution.{LimitOrder, is_filled}
use cmarket.OrderManager.Invariant.{IsConsistent}
use cmarket.OrderManager.Fill.{cancel_order_into-shrinks}
use cmarket.OrderManager.Lookup.{find_order}
use cmarket.MatchingEngine.Priority.{IsMatch, IsBestMatch, find_best_match-IsBestMatch}
use cmarket.MatchingEngine.Matching.{
  Matching, match_round, match_loop, match_fuel, note_mutation, note_removal,
}
use cmarket.MatchingEngine.Matching.Trade.{incoming_after, resting_after}
use cmarket.MatchingEngine.Matching.Round.{
  orders_of, written, Round, Broken, IsDone, written-IsConsistent, written_at, match_round-cases,
}

-- From `s` a trade has led to `s'`.
abbrev pub Progress : Matching → Matching → Type 0
Progress s s' =
    IsConsistent s'.engine.order_manager
    × ((length (orders_of s) ≡ suc (length (orders_of s')))
        ⊎ ((s'.incoming.remaining_quantity ≤ℤ pos 0) × (1 ≤ length (orders_of s))))

-- A trade that leaves something of the resting order has filled the incoming one.
pub incoming-filled :
    (incoming resting : LimitOrder)
    → is_filled (resting_after incoming resting) ≡ false
    → (incoming_after incoming resting).remaining_quantity ≡ pos 0
unfolding is_filled
incoming-filled incoming resting h = ground (
  arith,
  h,
  -ℤ_parts resting.remaining_quantity resting.remaining_quantity,
  -ℤ_parts incoming.remaining_quantity incoming.remaining_quantity,
  eq_of_parts (resting.remaining_quantity -ℤ resting.remaining_quantity) (pos 0),
  eq_of_parts (incoming.remaining_quantity -ℤ incoming.remaining_quantity) (pos 0),
)

pub Round-Progress :
    (s s' : Matching) → IsConsistent s.engine.order_manager → Round s s' → Progress s s'
unfolding note_removal note_mutation
Round-Progress s s' c d = elim d.outcome [
  | inl (not_full, eq) ↦ subst (Progress s) (sym eq) (
    written-IsConsistent s c d.found,
    inr (
      ground (arith, incoming-filled s.incoming d.found.resting not_full),
      omega (arith, get_elem?-lt s.engine.order_manager.orders d.found.index d.found.here),
    ),
  )
  | inr (is_full, r, m, done, eq) ↦
      let (_, m', done', consistent, shorter) =
        cancel_order_into-shrinks (written s d.found.resting d.found.index) d.found.resting.order_id
          d.found.index (resting_after s.incoming d.found.resting)
          (written-IsConsistent s c d.found) d.found.held (written_at s c d.found) in
      let same : m' ≡ m = cc (done, done') in
      subst (Progress s) (sym eq) (
        rw (← same) consistent,
        inl (
            omega (
              arith,
              shorter,
              ap (λ n. length n.orders) same,
              length-set s.engine.order_manager.orders d.found.index
                  (resting_after s.incoming d.found.resting),
            )),
      )
]

-- What every trade keeps, and a round that breaks off does not spoil.
pub record IsKept (P Q : Matching → Type 0) : Type 0 where
  pub by_round : (s s' : Matching) → IsConsistent s.engine.order_manager → P s → Round s s' → P s'
  pub by_break : (s s' : Matching) → IsConsistent s.engine.order_manager → P s → Broken s s' → Q s'

module _ {P Q : Matching → Type 0} (k : IsKept P Q) where
  -- How the loop may end.
  abbrev pub KeptEnds : Result (Unit {0}) × Matching → Type 0
  KeptEnds (ok _, s) = IsConsistent s.engine.order_manager × IsDone s × P s
  KeptEnds (err x, s) = (x ≢ out_of_fuel) × Q s

  module _ (fuel : ℕ) (s : Matching) where
    failed :
        (x : Error) (s' : Matching)
        → match_round s ≡ (err x, s')
        → match_loop (suc fuel) s ≡ (err x, s')
    unfolding match_loop
    failed x s' h = ground (arith, h)

    stops : match_round s ≡ (ok false, s) → match_loop (suc fuel) s ≡ (ok tt, s)
    unfolding match_loop
    stops h = ground (arith, h)

    goes_on :
        (s' : Matching)
        → match_round s ≡ (ok true, s')
        → match_loop (suc fuel) s ≡ match_loop fuel s'
    unfolding match_loop
    goes_on s' h = ground (arith, h)

  -- A loop whose incoming order is filled ends at once.
  filled-KeptEnds :
      (fuel : ℕ) (s : Matching)
      → IsConsistent s.engine.order_manager
      → P s
      → 1 ≤ fuel
      → s.incoming.remaining_quantity ≤ℤ pos 0
      → KeptEnds (match_loop fuel s)
  unfolding match_round
  filled-KeptEnds zero s c p h full = absurd (omega (arith, h))
  filled-KeptEnds (suc fuel) s c p h full =
      let is_done : leb_ℤ s.incoming.remaining_quantity (pos 0) ≡ true = ground (arith, full) in
      rw (stops fuel s (rw (match_round, is_done) refl)) (c, inl full, p)

  match_loop_any :
      (fuel : ℕ) (s : Matching)
      → IsConsistent s.engine.order_manager
      → P s
      → length (orders_of s) < fuel
      → KeptEnds (match_loop fuel s)
  match_loop_any zero s c p h = absurd (omega (arith, h))
  match_loop_any (suc fuel) s c p h = elim (match_round-cases s c) [
    | inl (last_round, done) ↦ rw (stops fuel s last_round) (c, done, p)
    | inr (inl (x, ne, s', broken_off, b)) ↦
        rw (failed fuel s x s' broken_off) (ne, k.by_break s s' c p b)
    | inr (inr (s', next_round, d)) ↦
        let p' : P s' = k.by_round s s' c p d in
        let (c', progress) = Round-Progress s s' c d in
        rw (goes_on fuel s s' next_round) (elim progress [
          | inl shorter ↦ match_loop_any fuel s' c' p' (omega (arith, h, shorter))
          | inr (full, some_order) ↦
              filled-KeptEnds fuel s' c' p' (omega (arith, h, some_order)) full
        ])
  ]

  pub match_loop-KeptEnds :
      (s : Matching)
      → IsConsistent s.engine.order_manager
      → P s
      → KeptEnds (match_loop (match_fuel s.engine) s)
  unfolding match_fuel
  match_loop-KeptEnds s c p = match_loop_any (suc (length (orders_of s))) s c p (omega arith)

-- The incoming order is filled, or no active order of the other side has a price within its limit.
abbrev pub IsMatchedOut : Matching → Type 0
IsMatchedOut s =
    (s.incoming.remaining_quantity ≤ℤ pos 0)
    ⊎ ((id : ℕ) (p : LimitOrder)
        → find_order s.engine.order_manager id ≡ some p
        → ¬ IsMatch s.incoming p)

IsDone-IsMatchedOut :
    (s : Matching) → IsConsistent s.engine.order_manager → IsDone s → IsMatchedOut s
IsDone-IsMatchedOut s c done = elim done [
  | inl full ↦ inl full
  | inr nothing ↦ inr (
      subst (IsBestMatch s.engine s.incoming) nothing
        (find_best_match-IsBestMatch s.engine s.incoming c))
]

-- How the loop may end, whatever is kept.
abbrev pub Ends : Result (Unit {0}) × Matching → Type 0
Ends (ok _, s) = IsConsistent s.engine.order_manager × IsMatchedOut s
Ends (err x, s) = x ≢ out_of_fuel

Ends-KeptEnds :
    {P Q : Matching → Type 0} (k : IsKept P Q) (r : Result (Unit {0}) × Matching)
    → KeptEnds k r
    → Ends r
Ends-KeptEnds k (ok _, s) (c, done, p) = (c, IsDone-IsMatchedOut s c done)
Ends-KeptEnds k (err x, s) h = h.0

-- Over consistent orders, the match loop ends within the fuel that it is given. Where it
-- returns, the orders are consistent, and the incoming order is filled or no active order of the
-- other side has a price within its limit; where it throws, the error is not that of missing fuel.
pub match_loop-Ends :
    (s : Matching) → IsConsistent s.engine.order_manager → Ends (match_loop (match_fuel s.engine) s)
match_loop-Ends s c = Ends-KeptEnds nothing _ (match_loop-KeptEnds nothing s c tt)
  where
    nothing : IsKept (λ _. Unit {0}) (λ _. Unit {0})
    nothing = record { by_round = λ s s' c p d. tt; by_break = λ s s' c p b. tt }

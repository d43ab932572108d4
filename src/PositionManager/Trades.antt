-- ===== src/PositionManager/Trades.antt =====
-- The quantities that trades lead to (include/position_manager.hpp and
-- include/position_execution_handler.hpp).
use cmarket.Prelude.{
  ℕ, ◌≡◌, refl, sym, ap, subst, ◌∙◌, ◌⊎◌, inl, inr, true, false, none, some, List, [], ◌∷◌, arith,
  Option-cases, ◌+ℤ◌, ℤ, Result, pos, ok, err, invalid_argument, undefined_behaviour,
}
use cmarket.Position.{Position}
use cmarket.Position
use cmarket.Position.Sum.{Sums, apply_trade-Sums}
use cmarket.PositionManager.{same_symbol, find, put, erase, PositionManager, trade_at, apply_trade}
use cmarket.PositionManager.Entries.{same_symbol_iff, find-put, put_same}

-- What is held of a symbol, nothing where it has no position.
unfoldable pub held : List ℕ → PositionManager → ℤ
held symbol m = elim (find symbol m.positions) [ none ↦ pos 0 | some p ↦ p.quantity ]

-- Only one symbol is traded.
abbrev pub Trades : List ℕ → ℤ → PositionManager → PositionManager → Type 0
Trades symbol q m m' =
    (held symbol m' ≡ held symbol m +ℤ q)
    × ((other : List ℕ)
        → same_symbol symbol other ≡ false
        → find other m'.positions ≡ find other m.positions)

abbrev pub Traded : List ℕ → ℤ → PositionManager → Result (Unit {0}) × PositionManager → Type 0
Traded symbol q m (ok _, m') = Trades symbol q m m'
Traded symbol q m (err x, m') = ((x ≡ invalid_argument) × (m' ≡ m)) ⊎ (x ≡ undefined_behaviour)

self : (symbol : List ℕ) → same_symbol symbol symbol ≡ true
self symbol = (same_symbol_iff symbol symbol).1 refl

module _ (symbol : List ℕ) (q price : ℤ) (m : PositionManager) where
  at_held :
      (p : Position)
      → find symbol m.positions ≡ some p
      → (r : Result (Unit {0}) × Position) → Position.apply_trade q price p ≡ r
      → Sums q p r
      → Traded symbol q m (trade_at false symbol q price p m)
  unfolding trade_at held
  at_held p here (ok tt, p') e sum =
      let eq : trade_at false symbol q price p m
          ≡ (ok tt, record { positions = put symbol p' m.positions }) =
        ground (arith, e) in
      subst (Traded symbol q m) (sym eq) (
        ground (arith, here, find-put symbol symbol p' m.positions, self symbol, sum),
        λ other h. ground (arith, h, find-put symbol other p' m.positions),
      )
  at_held p here (err x, p') e h =
      let eq : trade_at false symbol q price p m
          ≡ (err x, record { positions = put symbol p' m.positions }) =
        ground (arith, e) in
      subst (Traded symbol q m) (sym eq) (elim h [
        | inl (refused, same) ↦ inl (
          refused,
          ap (λ es. record { positions = es })
              (ap (λ o. put symbol o m.positions) same ∙ put_same symbol p m.positions here),
        )
        | inr overflow ↦ inr overflow
      ])

  -- The trade of a symbol that has no position.
  abbrev new_trade : Result (Unit {0}) × PositionManager
  new_trade =
      trade_at true symbol q price (Position.make symbol)
        (record { positions = (symbol, Position.make symbol) ∷ m.positions })

  at_new :
      find symbol m.positions ≡ none
      → (r : Result (Unit {0}) × Position) → Position.apply_trade q price (Position.make symbol) ≡ r
      → Sums q (Position.make symbol) r
      → Traded symbol q m new_trade
  unfolding trade_at held put erase find Position.make
  at_new absent (ok tt, p') e sum =
      let eq : new_trade ≡ (ok tt, record { positions = (symbol, p') ∷ m.positions }) =
        ground (arith, e, self symbol) in
      subst (Traded symbol q m) (sym eq)
        (ground (arith, absent, self symbol, sum), λ other h. ground (arith, h))
  at_new absent (err x, p') e h =
      let eq : new_trade ≡ (err x, m) = ground (arith, e, self symbol) in
      subst (Traded symbol q m) (sym eq)
        (elim h [ inl (refused, _) ↦ inl (refused, refl) | inr overflow ↦ inr overflow ])

-- A trade of any quantity at any price adds its quantity to what is held of its symbol and to
-- nothing else, or it throws: where an argument is refused the manager is as it was, without a
-- position that the call has made.
pub apply_trade-Traded :
    (symbol : List ℕ) (q price : ℤ) (m : PositionManager)
    → Traded symbol q m (apply_trade symbol q price m)
unfolding apply_trade
apply_trade-Traded [] q price m = inl (refl, refl)
apply_trade-Traded (c ∷ cs) q price m = elim (Option-cases (find (c ∷ cs) m.positions)) [
  | inl absent ↦
      let eq : apply_trade (c ∷ cs) q price m ≡ new_trade (c ∷ cs) q price m =
        ground (arith, absent) in
      subst (Traded (c ∷ cs) q m) (sym eq) (
        at_new (c ∷ cs) q price m absent (Position.apply_trade q price (Position.make (c ∷ cs)))
          refl (apply_trade-Sums q price (Position.make (c ∷ cs))))
  | inr (p, here) ↦
      let eq : apply_trade (c ∷ cs) q price m ≡ trade_at false (c ∷ cs) q price p m =
        ground (arith, here) in
      subst (Traded (c ∷ cs) q m) (sym eq) (
        at_held (c ∷ cs) q price m p here (Position.apply_trade q price p) refl
          (apply_trade-Sums q price p))
]

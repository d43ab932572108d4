-- ===== src/PositionManager/Executions.antt =====
-- Executions and the limits of risk (include/position_execution_handler.hpp and
-- include/risk_validator.hpp).
use cmarket.Prelude.{
  ℕ, ◌≡◌, refl, sym, ap, subst, ◌∙◌, ◌⊎◌, inl, inr, true, List, [], ◌∷◌, arith, Option-cases,
  pos_part, neg_part, ◌+ℤ◌, neg, ◌≤ℤ◌, int64_max, +ℤ_parts, neg_parts, eq_of_parts, ℤ, Result, pos,
  ok, err, invalid_argument, undefined_behaviour,
}
use cmarket.Execution.{OrderSide, buy, sell, Trade, ExecutionResult}
use cmarket.Int64.{checked}
use cmarket.PositionManager.{
  find, has_position, position, PositionManager, apply_trade, signed_quantity, apply_trades,
  apply_execution,
}
use cmarket.RiskLimits.{RiskLimits, make, is_position_allowed}
use cmarket.RiskLimits
use cmarket.RiskValidator.{is_trade_allowed}
use cmarket.PositionManager.Trades.{held, Trades, Traded, apply_trade-Traded}

-- A purchase adds and a sale subtracts.
unfoldable pub signed : OrderSide → ℤ → ℤ
signed buy quantity = quantity
signed sell quantity = neg quantity

-- What the trades of a side add up to.
unfoldable pub signed_total : OrderSide → List Trade → ℤ
signed_total side [] = pos 0
signed_total side (trade ∷ trades) = signed side trade.quantity +ℤ signed_total side trades

-- What an execution leads to.
abbrev pub Executed : List ℕ → ℤ → PositionManager → Result (Unit {0}) × PositionManager → Type 0
Executed symbol q m (ok _, m') = Trades symbol q m m'
Executed symbol q m (err x, m') = (x ≡ invalid_argument) ⊎ (x ≡ undefined_behaviour)

-- One trade after another.
then_Trades :
    (symbol : List ℕ) (a b : ℤ) (m m' m'' : PositionManager)
    → Trades symbol a m m'
    → Trades symbol b m' m''
    → Trades symbol (a +ℤ b) m m''
then_Trades symbol a b m m' m'' (first, frame) (second, frame') = (
  eq_of_parts _ _ (
      omega (
        arith,
        ap pos_part second,
        ap neg_part second,
        ap pos_part first,
        ap neg_part first,
        +ℤ_parts a b,
        +ℤ_parts (held symbol m) a,
        +ℤ_parts (held symbol m') b,
        +ℤ_parts (held symbol m) (a +ℤ b),
      )),
  λ other h. frame' other h ∙ frame other h,
)

then_Executed :
    (symbol : List ℕ) (a b : ℤ) (m m' : PositionManager) (r : Result (Unit {0}) × PositionManager)
    → Trades symbol a m m'
    → Executed symbol b m' r
    → Executed symbol (a +ℤ b) m r
then_Executed symbol a b m m' (ok _, m'') t h = then_Trades symbol a b m m' m'' t h
then_Executed symbol a b m m' (err x, m'') t h = h

signed_quantity-cases :
    (side : OrderSide) (q : ℤ)
    → (signed_quantity side q ≡ ok (signed side q))
      ⊎ (signed_quantity side q ≡ err undefined_behaviour)
unfolding signed_quantity checked signed
signed_quantity-cases buy q = inl refl
signed_quantity-cases sell q = ground arith

module _ (symbol : List ℕ) (side : OrderSide) where
  apply_trades-Executed :
      (trades : List Trade) (m : PositionManager)
      → Executed symbol (signed_total side trades) m (apply_trades symbol side trades m)
  unfolding apply_trades signed_total
  apply_trades-Executed [] m =
      (eq_of_parts _ _ (omega (arith, +ℤ_parts (held symbol m) (pos 0))), λ other h. refl)
  apply_trades-Executed (trade ∷ trades) m = elim (signed_quantity-cases side trade.quantity) [
    | inr overflow ↦
        let eq : apply_trades symbol side (trade ∷ trades) m ≡ (err undefined_behaviour, m) =
          ground (arith, overflow) in
        subst (Executed symbol (signed_total side (trade ∷ trades)) m) (sym eq) (inr refl)
    | inl h ↦
        by_trade h (apply_trade symbol (signed side trade.quantity) trade.price_ticks m) refl
          (apply_trade-Traded symbol (signed side trade.quantity) trade.price_ticks m)
          (λ m'. apply_trades-Executed trades m')
  ]
    where
      by_trade :
          signed_quantity side trade.quantity ≡ ok (signed side trade.quantity)
          → (r : Result (Unit {0}) × PositionManager)
          → apply_trade symbol (signed side trade.quantity) trade.price_ticks m ≡ r
          → Traded symbol (signed side trade.quantity) m r
          → ((m' : PositionManager)
              → Executed symbol (signed_total side trades) m' (apply_trades symbol side trades m'))
          → Executed symbol
              (signed_total side (trade ∷ trades))
              m
              (apply_trades symbol side (trade ∷ trades) m)
      by_trade h (ok tt, m') e t later =
          let eq : apply_trades symbol side (trade ∷ trades) m
              ≡ apply_trades symbol side trades m' =
            ground (arith, h, e) in
          subst (Executed symbol (signed_total side (trade ∷ trades)) m) (sym eq) (
            then_Executed symbol (signed side trade.quantity) (signed_total side trades) m m'
              (apply_trades symbol side trades m') t (later m'))
      by_trade h (err x, m') e t later =
          let eq : apply_trades symbol side (trade ∷ trades) m ≡ (err x, m') =
            ground (arith, h, e) in
          subst (Executed symbol (signed_total side (trade ∷ trades)) m) (sym eq)
            (elim t [ inl (refused, _) ↦ inl refused | inr overflow ↦ inr overflow ])

-- An execution of any trades adds what they add up to, with the sign of its side, to what is held
-- of its symbol and to nothing else, or it throws since a number is refused or overflows.
pub apply_execution-Executed :
    (symbol : List ℕ) (result : ExecutionResult) (m : PositionManager)
    → Executed symbol (signed_total result.side result.trades) m (apply_execution symbol result m)
unfolding apply_execution
apply_execution-Executed [] result m = inl refl
apply_execution-Executed (c ∷ cs) result m =
    apply_trades-Executed (c ∷ cs) result.side result.trades m

-- Executed in part: as much as was asked for at most, in its direction.
abbrev pub IsPartOf : ℤ → ℤ → Type 0
IsPartOf done asked = ((pos 0 ≤ℤ done) × (done ≤ℤ asked)) ⊎ ((asked ≤ℤ done) × (done ≤ℤ pos 0))

validated :
    (m : PositionManager) (limits : RiskLimits) (symbol : List ℕ) (q : ℤ)
    → is_trade_allowed m limits symbol q ≡ ok true
    → RiskLimits.is_trade_allowed limits (held symbol m) q ≡ true
unfolding is_trade_allowed has_position position held
validated m limits [] q h = cc h
validated m limits (c ∷ cs) q h = elim (Option-cases (find (c ∷ cs) m.positions)) [
  | inl absent ↦ ground (arith, h, absent)
  | inr (p, here) ↦ ground (arith, h, here)
]

part_allowed :
    (max : ℤ) (limits : RiskLimits) (now asked done : ℤ)
    → max ≤ℤ int64_max
    → make max ≡ ok limits
    → is_position_allowed limits now ≡ true
    → RiskLimits.is_trade_allowed limits now asked ≡ true
    → IsPartOf done asked
    → is_position_allowed limits (now +ℤ done) ≡ true
unfolding make is_position_allowed RiskLimits.is_trade_allowed
part_allowed max limits now asked done bounded made before allowed part = ground (
  arith,
  bounded,
  made,
  before,
  allowed,
  part,
  neg_parts max,
  neg_parts now,
  neg_parts (now +ℤ done),
  +ℤ_parts now asked,
  +ℤ_parts now done,
)

-- With limits that the constructor returned for a 64-bit number, and a symbol whose position is
-- within them: if the risk validator has allowed a quantity, then an execution that is applied
-- without an error, of that quantity or of a part of it, leaves the position within the limits.
pub is_trade_allowed-executed :
    (max : ℤ) (limits : RiskLimits) (symbol : List ℕ) (asked : ℤ) (result : ExecutionResult)
    (m m' : PositionManager)
    → max ≤ℤ int64_max
    → make max ≡ ok limits
    → is_position_allowed limits (held symbol m) ≡ true
    → is_trade_allowed m limits symbol asked ≡ ok true
    → IsPartOf (signed_total result.side result.trades) asked
    → apply_execution symbol result m ≡ (ok tt, m')
    → is_position_allowed limits (held symbol m') ≡ true
is_trade_allowed-executed max limits symbol asked result m m' bounded made before allowed part
      done =
    let (sum, _) =
      subst (Executed symbol (signed_total result.side result.trades) m) done
        (apply_execution-Executed symbol result m) in
    subst (λ h. is_position_allowed limits h ≡ true) (sym sum)
      (part_allowed max limits (held symbol m) asked (signed_total result.side result.trades)
        bounded made before (validated m limits symbol asked allowed) part)

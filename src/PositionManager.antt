-- ===== src/PositionManager.antt =====
-- include/position_manager.hpp and include/position_execution_handler.hpp. A symbol is the list of
-- its bytes, and the hash map a list of entries, whose order nothing reads.
pub mod Entries
pub mod Trades
pub mod Executions
use cmarket.Prelude.{
  ◌>>=◌, ◌>>◌, ℕ, Bool, true, false, ◌&&◌, Option, none, some, List, [], ◌∷◌, ◌==◌, if◌then◌else◌,
  length, neg, ℤ, Action, lift, Result, ok, err, invalid_argument, out_of_range,
}
use cmarket.Execution.{OrderSide, buy, sell, Trade, ExecutionResult}
use cmarket.Int64.{checked}
use cmarket.Position.{Position}
use cmarket.Position

unfoldable pub same_symbol : List ℕ → List ℕ → Bool
same_symbol [] [] = true
same_symbol [] (y ∷ ys) = false
same_symbol (x ∷ xs) [] = false
same_symbol (x ∷ xs) (y ∷ ys) = x == y && same_symbol xs ys

abbrev pub Entries : Type 0
Entries = List (List ℕ × Position)

-- `find` of the hash map.
unfoldable pub find : List ℕ → Entries → Option Position
find symbol [] = none
find symbol ((key, p) ∷ entries) = if same_symbol key symbol then some p else find symbol entries

-- The entry of a symbol, after a change of its position.
unfoldable pub put : List ℕ → Position → Entries → Entries
put symbol p [] = []
put symbol p ((key, old) ∷ entries) =
    if same_symbol key symbol then (key, p) ∷ entries else (key, old) ∷ put symbol p entries

-- `erase` of the hash map.
unfoldable pub erase : List ℕ → Entries → Entries
erase symbol [] = []
erase symbol ((key, old) ∷ entries) =
    if same_symbol key symbol then entries else (key, old) ∷ erase symbol entries

pub record PositionManager : Type 0 where
  pub positions : Entries

-- The call of the position's method through the iterator, and what to do where it throws.
unfoldable pub trade_at : Bool → List ℕ → ℤ → ℤ → Position → Action PositionManager (Unit {0})
trade_at inserted symbol quantity price_ticks p m =
    let (r, p') = Position.apply_trade quantity price_ticks p in
    let written = put symbol p' m.positions in
    elim r [
      | ok _ ↦ (ok tt, record { positions = written })
      | err x ↦ (err x, record { positions = if inserted then erase symbol written else written })
    ]

unfoldable pub apply_trade : List ℕ → ℤ → ℤ → Action PositionManager (Unit {0})
apply_trade [] quantity price_ticks m = (err invalid_argument, m)
apply_trade (c ∷ cs) quantity price_ticks m =
    let symbol = c ∷ cs in
    elim (find symbol m.positions) [
      | none ↦
          trade_at true symbol quantity price_ticks (Position.make symbol)
            (record { positions = (symbol, Position.make symbol) ∷ m.positions })
      | some p ↦ trade_at false symbol quantity price_ticks p m
    ]

unfoldable pub has_position : List ℕ → PositionManager → Bool
has_position symbol m = elim (find symbol m.positions) [ none ↦ false | some p ↦ true ]

unfoldable pub position : List ℕ → PositionManager → Result Position
position symbol m = elim (find symbol m.positions) [ none ↦ err out_of_range | some p ↦ ok p ]

unfoldable pub size : PositionManager → ℕ
size m = length m.positions

-- The sign of the quantities of a side, `-trade.quantity` for a sale.
unfoldable pub signed_quantity : OrderSide → ℤ → Result ℤ
signed_quantity buy quantity = ok quantity
signed_quantity sell quantity = checked (neg quantity)

-- The loop of `PositionExecutionHandler::apply_execution`.
unfoldable pub apply_trades : List ℕ → OrderSide → List Trade → Action PositionManager (Unit {0})
apply_trades symbol side [] m = (ok tt, m)
apply_trades symbol side (trade ∷ trades) m =
    (do
      quantity ← lift (signed_quantity side trade.quantity)
      apply_trade symbol quantity trade.price_ticks
      apply_trades symbol side trades)
      m

unfoldable pub apply_execution : List ℕ → ExecutionResult → Action PositionManager (Unit {0})
apply_execution [] result m = (err invalid_argument, m)
apply_execution (c ∷ cs) result m = apply_trades (c ∷ cs) result.side result.trades m

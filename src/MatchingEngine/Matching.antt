-- ===== src/MatchingEngine/Matching.antt =====
-- The matching loop that `place_limit_order` and `modify_order` both contain, and the loop of
-- their handlers that undoes it (src/matching_engine.cpp).
pub mod Trade
pub mod Round
pub mod Ends
pub mod Undo
pub mod Synced
use cmarket.Prelude.{
  ℕ, zero, suc, Bool, true, false, Option, none, some, List, [], ◌∷◌, if◌then◌else◌, length, leb_ℤ,
  min_ℤ, ℤ, Action, pure, gets, lift, ◌>>=◌, ◌>>◌, modify, when, pos, ok, err, logic_error,
  out_of_fuel,
}
use cmarket.Execution.{OrderSide, LimitOrder, is_filled}
use cmarket.OrderManager.Lookup.{find_order, write_order}
use cmarket.OrderManager.Removal.{Removal, cancel_order_into, restore_removal}
use cmarket.MatchingEngine.Defs.{
  MatchingEngine, on_orders, adjust_order_book, find_best_match, execute_limit_trade,
}

-- `removal` is `none` until the order is taken out, as `removed` is false until then. The copy of
-- the record in `place_limit_order` lacks `side`, `price_ticks` and `executed_quantity`, which
-- its handler does not read.
pub record OrderMutation : Type 0 where
  pub order_id : ℕ
  pub side : OrderSide
  pub price_ticks : ℤ
  pub executed_quantity : ℤ
  pub original_remaining_quantity : ℤ
  pub removal : Option Removal

-- The variables of the `try` block; the last mutation stands first.
pub record Matching : Type 0 where
  pub engine : MatchingEngine
  pub incoming : LimitOrder
  pub mutations : List OrderMutation
  pub incoming_added : Bool

abbrev pub in_engine : {A : Type 0} → Action MatchingEngine A → Action Matching A
in_engine call s = let (r, e) = call s.engine in (r, record s { engine = e })

-- `mutations.push_back`, before anything is changed.
unfoldable pub note_mutation : LimitOrder → Matching → Matching
note_mutation resting s = record s {
  mutations =
      (record {
        order_id = resting.order_id;
        side = resting.side;
        price_ticks = resting.price_ticks;
        executed_quantity = min_ℤ s.incoming.remaining_quantity resting.remaining_quantity;
        original_remaining_quantity = resting.remaining_quantity;
        removal = none;
      })
      ∷ s.mutations;
}

-- `mutation.removed = true`, with the removal that the cancellation filled in.
unfoldable pub note_removal : Removal → Matching → Matching
note_removal r s = elim s.mutations [
  | [] ↦ s
  | mutation ∷ rest ↦ record s { mutations = record mutation { removal = some r } ∷ rest }
]

-- Whether the order under an identifier is filled.
unfoldable pub filled_at : ℕ → Matching → Bool
filled_at order_id s = elim (find_order s.engine.order_manager order_id) [
  | none ↦ false
  | some o ↦ is_filled o
]

-- The cancellation of a filled resting order.
unfoldable pub remove_filled : ℕ → Action Matching (Unit {0})
remove_filled order_id = do
  removed ← in_engine (on_orders (cancel_order_into order_id))
  removal ← lift (elim removed [ none ↦ err logic_error | some r ↦ ok r ])
  modify (note_removal removal)

-- One match against the resting order.
unfoldable pub match_order : LimitOrder → Action Matching (Unit {0})
match_order resting = do
  modify (note_mutation resting)
  incoming ← gets (λ s. s.incoming)
  incoming' ← in_engine (execute_limit_trade incoming resting)
  modify (λ s. record s { incoming = incoming' })
  filled ← gets (filled_at resting.order_id)
  when filled (remove_filled resting.order_id)

-- One round of the loop; false where it breaks or its test fails.
unfoldable pub match_round : Action Matching Bool
match_round s =
    if leb_ℤ s.incoming.remaining_quantity (pos 0)
    then (ok false, s)
    else elim (find_best_match s.incoming s.engine) [
      | none ↦ (ok false, s)
      | some best_match_id ↦ elim (find_order s.engine.order_manager best_match_id) [
        | none ↦ (err logic_error, s)
        | some resting ↦ (do match_order resting; pure true) s
      ]
    ]

-- The loop, on fuel.
unfoldable pub match_loop : ℕ → Action Matching (Unit {0})
match_loop zero s = (err out_of_fuel, s)
match_loop (suc fuel) s =
    let (r, s') = match_round s in
    elim r [ err e ↦ (err e, s') | ok true ↦ match_loop fuel s' | ok false ↦ (ok tt, s') ]

-- A round matches one resting order and ends the loop or takes that order out, so that the
-- number of active orders and one more round suffice.
unfoldable pub match_fuel : MatchingEngine → ℕ
match_fuel e = suc (length e.order_manager.orders)

-- One round of the handler's loop.
unfoldable pub undo_mutation : OrderMutation → Action MatchingEngine (Unit {0})
undo_mutation mutation e = elim mutation.removal [
  | some r ↦
      let order : LimitOrder = record r.removed_order {
        remaining_quantity = mutation.original_remaining_quantity;
      } in
      on_orders (restore_removal (record r { removed_order = order })) e
  | none ↦ elim (find_order e.order_manager mutation.order_id) [
    | none ↦ (err logic_error, e)
    | some o ↦
        let order : LimitOrder = record o {
          remaining_quantity = mutation.original_remaining_quantity;
        } in
        (ok tt, record e { order_manager = write_order mutation.order_id order e.order_manager })
  ]
]

-- The handler of `place_limit_order`.
unfoldable pub undo_mutations : List OrderMutation → Action MatchingEngine (Unit {0})
undo_mutations [] = pure tt
undo_mutations (mutation ∷ mutations) = do undo_mutation mutation; undo_mutations mutations

-- The handler of `modify_order`, which takes the quantities back into the book too.
unfoldable pub undo_mutations_in_book : List OrderMutation → Action MatchingEngine (Unit {0})
undo_mutations_in_book [] = pure tt
undo_mutations_in_book (mutation ∷ mutations) = do
  undo_mutation mutation
  adjust_order_book mutation.side mutation.price_ticks mutation.executed_quantity
  undo_mutations_in_book mutations

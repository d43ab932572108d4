-- ===== src/MatchingEngine/Modify.antt =====
-- `modify_order` (src/matching_engine.cpp).
use cmarket.Prelude.{
  ℕ, Bool, true, false, not, Option, none, some, [], if◌then◌else◌, ◌-ℤ◌, neg, ltb_ℤ, eqb_ℤ, ℤ,
  Action, pure, gets, lift, ◌>>=◌, ◌>>◌, modify, when, on_throw, pos, ok, err, logic_error,
}
use cmarket.Execution.{LimitOrder, is_filled}
use cmarket.Validation.{validate_modify_order}
use cmarket.TradeStore.{Checkpoint, checkpoint, rollback}
use cmarket.OrderManager.Defs.{add_order}
use cmarket.OrderManager.Lookup.{find_order, write_order, update_sequence_number}
use cmarket.OrderManager.Removal.{Removal, cancel_order_into, restore_removal}
use cmarket.MatchingEngine.Defs.{MatchingEngine, on_orders, on_trades, adjust_order_book}
use cmarket.MatchingEngine.Matching.{
  Matching, in_engine, match_loop, match_fuel, undo_mutations_in_book,
}
use cmarket.MatchingEngine.Place.{cancel_or_throw, take_sequence_number}

-- `adjust_order_book` by a delta that is not 0.
unfoldable pub adjust_by : LimitOrder → ℤ → Action MatchingEngine (Unit {0})
adjust_by order quantity_delta =
    when (not (eqb_ℤ quantity_delta (pos 0)))
      (adjust_order_book order.side order.price_ticks quantity_delta)

-- A new sequence number for an order whose quantity grows.
unfoldable pub renumber : LimitOrder → ℤ → Action MatchingEngine (Unit {0})
renumber order quantity_delta = do
  on_throw
      (do
        sequence_number ← gets (λ e. e.next_sequence_number)
        updated ← on_orders (update_sequence_number order.order_id sequence_number)
        lift (if updated then ok tt else err logic_error))
      (adjust_by order (neg quantity_delta))
  take_sequence_number
  pure tt

-- The write to both quantities of the order that is looked up again.
unfoldable pub requantify : ℕ → ℤ → Action MatchingEngine Bool
requantify order_id new_quantity e = elim (find_order e.order_manager order_id) [
  | none ↦ (err logic_error, e)
  | some o ↦
      let order : LimitOrder = record o {
        original_quantity = new_quantity;
        remaining_quantity = new_quantity;
      } in
      (ok true, record e { order_manager = write_order order_id order e.order_manager })
]

-- The branch for an unchanged price.
unfoldable pub modify_quantity : LimitOrder → ℤ → Action MatchingEngine Bool
modify_quantity original_order new_quantity = do
  adjust_by original_order (new_quantity -ℤ original_order.remaining_quantity)
  when (ltb_ℤ original_order.remaining_quantity new_quantity)
      (renumber original_order (new_quantity -ℤ original_order.remaining_quantity))
  requantify original_order.order_id new_quantity

-- The variables of the `try` block of the other branch; the flags say how far it came.
pub record Modifying : Type 0 where
  pub matching : Matching
  pub original_removal : Option Removal
  pub original_book_adjusted : Bool
  pub modified_book_adjusted : Bool

abbrev while_modifying : {A : Type 0} → Action Matching A → Action Modifying A
while_modifying call s = let (r, m) = call s.matching in (r, record s { matching = m })

abbrev in_modified : {A : Type 0} → Action MatchingEngine A → Action Modifying A
in_modified call = while_modifying (in_engine call)

-- What is left of the modified order rests in the book.
unfoldable pub rest_modified : Action Modifying (Unit {0})
rest_modified s =
    let order = s.matching.incoming in
    if is_filled order
    then (ok tt, s)
    else (do
      in_modified (on_orders (add_order order))
      while_modifying (modify (λ m. record m { incoming_added = true }))
      in_modified (adjust_order_book order.side order.price_ticks order.remaining_quantity)
      modify (λ s. record s { modified_book_adjusted = true }))
        s

-- The `try` block after the original order has been taken out.
unfoldable pub replace_original : LimitOrder → Removal → Action Modifying Bool
replace_original original_order removal = do
  modify (λ s. record s { original_removal = some removal })
  in_modified (
      adjust_order_book original_order.side original_order.price_ticks
        (neg original_order.remaining_quantity))
  modify (λ s. record s { original_book_adjusted = true })
  in_modified take_sequence_number
  fuel ← gets (λ s. match_fuel s.matching.engine)
  while_modifying (match_loop fuel)
  rest_modified
  pure true

unfoldable pub modify_body : LimitOrder → Action Modifying Bool
modify_body original_order s =
    let (r, s') = in_modified (on_orders (cancel_order_into original_order.order_id)) s in
    elim r [
      | err e ↦ (err e, s')
      | ok none ↦ (ok false, s')
      | ok (some removal) ↦ replace_original original_order removal s'
    ]

-- `original_removal.removed_order = original_order` and the restoration.
unfoldable pub restore_original : LimitOrder → Option Removal → Action MatchingEngine (Unit {0})
restore_original original_order none = pure tt
restore_original original_order (some r) =
    on_orders (restore_removal (record r { removed_order = original_order }))

-- The handler.
unfoldable pub undo_modify : LimitOrder → ℕ → Checkpoint → Action Modifying (Unit {0})
undo_modify original_order sequence_number trades s =
    let modified = s.matching.incoming in
    in_modified
      (do
        when s.modified_book_adjusted
            (adjust_order_book modified.side modified.price_ticks (neg modified.remaining_quantity))
        when s.matching.incoming_added (cancel_or_throw modified.order_id)
        undo_mutations_in_book s.matching.mutations
        when s.original_book_adjusted (
            adjust_order_book original_order.side original_order.price_ticks
              original_order.remaining_quantity)
        restore_original original_order s.original_removal
        modify (λ e. record e { next_sequence_number = sequence_number })
        on_trades (rollback trades))
      s

-- The branch for a changed price.
unfoldable pub modify_price : LimitOrder → ℤ → ℤ → Action MatchingEngine Bool
modify_price original_order new_price_ticks new_quantity e =
    let modified : LimitOrder = record original_order {
      price_ticks = new_price_ticks;
      original_quantity = new_quantity;
      remaining_quantity = new_quantity;
      sequence_number = e.next_sequence_number;
    } in
    let start : Modifying = record {
      matching = record { engine = e; incoming = modified; mutations = []; incoming_added = false };
      original_removal = none;
      original_book_adjusted = false;
      modified_book_adjusted = false;
    } in
    let (r, s) =
      on_throw (modify_body original_order)
        (undo_modify original_order e.next_sequence_number (checkpoint e.trade_store)) start in
    (r, s.matching.engine)

unfoldable pub modify_found : LimitOrder → ℤ → ℤ → Action MatchingEngine Bool
modify_found original_order new_price_ticks new_quantity =
    if eqb_ℤ new_price_ticks original_order.price_ticks
    then modify_quantity original_order new_quantity
    else modify_price original_order new_price_ticks new_quantity

unfoldable pub modify_order : ℕ → ℤ → ℤ → Action MatchingEngine Bool
modify_order order_id new_price_ticks new_quantity e =
    elim (validate_modify_order new_price_ticks new_quantity) [
      | err x ↦ (err x, e)
      | ok _ ↦ elim (find_order e.order_manager order_id) [
        | none ↦ (ok false, e)
        | some original_order ↦ modify_found original_order new_price_ticks new_quantity e
      ]
    ]

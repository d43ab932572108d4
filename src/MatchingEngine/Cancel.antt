-- ===== src/MatchingEngine/Cancel.antt =====
-- `MatchingEngine::cancel_order` (src/matching_engine.cpp).
pub mod Release
pub mod Refines
use cmarket.Prelude.{
  ℕ, Bool, true, false, none, some, if◌then◌else◌, neg, Action, pure, ◌>>=◌, ◌>>◌, on_throw, ok,
}
use cmarket.Execution.{LimitOrder}
use cmarket.OrderManager.Defs.{OrderManager, add_order}
use cmarket.OrderManager.Defs
use cmarket.OrderManager.Lookup.{find_order}
use cmarket.MatchingEngine.Defs.{MatchingEngine, on_orders, adjust_order_book}

-- After the manager has let the order go, the book does; if it throws, the order goes back.
unfoldable pub release_quantity : LimitOrder → Action MatchingEngine Bool
release_quantity order_to_cancel = do
  on_throw
      (adjust_order_book order_to_cancel.side order_to_cancel.price_ticks
        (neg order_to_cancel.remaining_quantity))
      (on_orders (add_order order_to_cancel))
  pure true

unfoldable pub cancel_order : ℕ → Action MatchingEngine Bool
cancel_order order_id e = elim (find_order e.order_manager order_id) [
  | none ↦ (ok false, e)
  | some order_to_cancel ↦
      (do
        cancelled ← on_orders (Defs.cancel_order order_id)
        if cancelled then release_quantity order_to_cancel else pure false)
        e
]

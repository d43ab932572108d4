-- ===== src/Tests/Analytics.antt =====
-- An order flow imbalance with a window of two (include/order_flow_imbalance.hpp), and the theorems
-- at it.
use cmarket.Prelude.{◌≡◌, refl, some, List, [], ◌∷◌, take, ℤ, pos, ok}
use cmarket.LongDouble.{exact}
use cmarket.OrderFlowImbalance.{OfiSnapshot, OrderFlowImbalance, make, rolling_ofi}
use cmarket.OrderFlowImbalance.History.{Call, updated, symbol_cleared, history, run, changes}
use cmarket.OrderFlowImbalance.Remembers.{Observes, run-Observes}
use cmarket.OrderFlowImbalance.Exact.{sum_of, run-rolling}

abbrev quotes : ℤ → ℤ → OfiSnapshot
quotes bid ask = record {
  best_bid = some (record { price_ticks = bid; quantity = pos 5 });
  best_ask = some (record { price_ticks = ask; quantity = pos 7 });
}

-- The latest call stands first; one of them is refused, since the book is crossed.
abbrev calls : List Call
calls =
    updated (65 ∷ []) (quotes (pos 12) (pos 14))
    ∷ updated (65 ∷ []) (quotes (pos 11) (pos 14))
    ∷ updated (65 ∷ []) (quotes (pos 15) (pos 14))
    ∷ updated (66 ∷ []) (quotes (pos 3) (pos 4))
    ∷ updated (65 ∷ []) (quotes (pos 10) (pos 13))
    ∷ symbol_cleared (65 ∷ [])
    ∷ []

abbrev window : OrderFlowImbalance exact
window = record { window_size = 2; symbols = [] }

window_made : make exact 2 ≡ ok window
unfolding make
window_made = refl

run-Observes_example :
    Observes exact 2 (changes exact (history calls (65 ∷ []))) (65 ∷ []) (run exact calls window)
run-Observes_example = run-Observes exact 2 calls (65 ∷ []) window window_made

run-rolling_example :
    rolling_ofi exact (65 ∷ []) (run exact calls window)
    ≡ sum_of (take 2 (changes exact (history calls (65 ∷ []))))
run-rolling_example = run-rolling 2 calls (65 ∷ []) window window_made

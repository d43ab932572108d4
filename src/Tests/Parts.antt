-- ===== src/Tests/Parts.antt =====
-- A concrete trade store, queue and limit (include/trade_store.hpp, include/blocking_queue.hpp,
-- include/risk_limits.hpp), and the theorems at them.
use cmarket.Prelude.{
  ℕ, ◌+◌, ◌*◌, ◌≡◌, refl, false, ◌&&◌, none, some, List, [], ◌∷◌, arith, leb, ◌+ℤ◌, pos, negsuc, ok,
}
use cmarket.Execution.{buy}
use cmarket.TradeStore.{empty_store, rollback, checkpoint}
use cmarket.TradeStore.Rollback.{Fill, record_all, rollback-record_all}
use cmarket.RiskLimits
use cmarket.RiskLimits.{is_trade_allowed, is_position_allowed}
use cmarket.Int64.{is_int64}
use cmarket.RiskLimits.Agreement.{is_trade_allowed-agrees}
use cmarket.ReconnectBackoff.{fail, fail-reset}
use cmarket.ReconnectBackoff
use cmarket.HeartbeatState.{pong_timed_out, should_send_ping}
use cmarket.HeartbeatState
use cmarket.HeartbeatState.Events.{
  ping_sent, pong_received, first_unanswered, last_restart, run-timers,
}
use cmarket.HeartbeatState.Events
use cmarket.BlockingQueue.{BlockingQueue}
use cmarket.BlockingQueue.Fifo.{
  push_call, pop_call, try_pop_call, close_call, run, RunFifo, run-RunFifo,
}

abbrev fills : List Fill
fills =
    record { side = buy; price = pos 500; quantity = pos 3; buyer = some 8; seller = some 7 } ∷ []

rollback-record_all_example :
    rollback (checkpoint empty_store) (record_all fills empty_store) ≡ (ok tt, empty_store)
rollback-record_all_example = rollback-record_all empty_store fills

abbrev one_value : BlockingQueue ℕ
one_value = record { queue = 1 ∷ []; is_closed = false }

run-RunFifo_example : RunFifo one_value (
    run
      (push_call 2 ∷ pop_call ∷ close_call ∷ push_call 3 ∷ try_pop_call ∷ pop_call ∷ [])
      one_value)
run-RunFifo_example =
    run-RunFifo (push_call 2 ∷ pop_call ∷ close_call ∷ push_call 3 ∷ try_pop_call ∷ pop_call ∷ [])
      one_value

limits_made : RiskLimits.make (pos 10) ≡ ok (record { max_absolute_position = pos 10 })
unfolding RiskLimits.make
limits_made = refl

is_trade_allowed-agrees_example :
    is_trade_allowed (record { max_absolute_position = pos 10 }) (pos 4) (negsuc 14) ≡ (
      is_int64 (pos 4 +ℤ negsuc 14)
      && is_position_allowed (record { max_absolute_position = pos 10 }) (pos 4 +ℤ negsuc 14))
is_trade_allowed-agrees_example =
    is_trade_allowed-agrees (pos 10) (pos 4) (negsuc 14) (record { max_absolute_position = pos 10 })
      (omega arith) limits_made

fail-reset_example :
    (fail 6 (ReconnectBackoff.reset ReconnectBackoff.make)).current_delay_seconds ≡ 30
fail-reset_example = fail-reset ReconnectBackoff.make 6

-- A ping that was answered, and two that were not.
abbrev events : List Events.Event
events = ping_sent 10 ∷ pong_received ∷ ping_sent 20 ∷ ping_sent 30 ∷ []

run-timers_example :
    (pong_timed_out 1 41 (Events.run 1 events (HeartbeatState.make 1 0))
      ≡ elim (first_unanswered events) [ none ↦ false | some t ↦ leb (t + 20 * 1) 41 ])
    × (should_send_ping 41 (Events.run 1 events (HeartbeatState.make 1 0))
        ≡ leb (last_restart 0 events + 10 * 1) 41)
run-timers_example = run-timers 1 0 41 events

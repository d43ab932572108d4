-- ===== src/HeartbeatState.antt =====
-- include/heartbeat_state.hpp. A time is a number of ticks of the steady clock, of which a second
-- has `second`.
pub mod Events
use cmarket.Prelude.{ℕ, ◌+◌, ◌*◌, Bool, true, false, ◌&&◌, leb, if◌then◌else◌}

pub record HeartbeatState : Type 0 where
  pub next_ping_at : ℕ
  pub ping_sent_at : ℕ
  pub awaiting_pong : Bool

module _ (second : ℕ) where
  abbrev pub heartbeat_interval : ℕ
  heartbeat_interval = 10 * second

  abbrev pub pong_timeout : ℕ
  pong_timeout = 20 * second

  unfoldable pub make : ℕ → HeartbeatState
  make now = record {
    next_ping_at = now + heartbeat_interval;
    ping_sent_at = 0;
    awaiting_pong = false;
  }

  unfoldable pub on_ping_sent : ℕ → HeartbeatState → HeartbeatState
  on_ping_sent now s = record {
    next_ping_at = now + heartbeat_interval;
    ping_sent_at = if s.awaiting_pong then s.ping_sent_at else now;
    awaiting_pong = true;
  }

  -- A difference of times is not below a positive number of ticks exactly if the sum is not.
  unfoldable pub pong_timed_out : ℕ → HeartbeatState → Bool
  pong_timed_out now s = s.awaiting_pong && leb (s.ping_sent_at + pong_timeout) now

  unfoldable pub reset : ℕ → HeartbeatState → HeartbeatState
  reset now s = record {
    next_ping_at = now + heartbeat_interval;
    ping_sent_at = now;
    awaiting_pong = false;
  }

unfoldable pub on_pong_received : HeartbeatState → HeartbeatState
on_pong_received s = record s { awaiting_pong = false }

unfoldable pub should_send_ping : ℕ → HeartbeatState → Bool
should_send_ping now s = leb s.next_ping_at now

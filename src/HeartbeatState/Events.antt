-- ===== src/HeartbeatState/Events.antt =====
-- Sequences of calls of include/heartbeat_state.hpp, in the order of the calls.
use cmarket.Prelude.{
  ℕ, ◌+◌, ◌*◌, ◌≡◌, refl, ap, ◌∙◌, Bool, true, false, Option, none, some, List, [], ◌∷◌, arith, leb,
  if◌then◌else◌,
}
use cmarket.HeartbeatState.{
  HeartbeatState, make, on_ping_sent, on_pong_received, reset, pong_timed_out, should_send_ping,
}

pub data Event : Type 0 where
  ping_sent : ℕ → Event
  pong_received : Event
  reset_at : ℕ → Event

-- A pong, or a reset.
unfoldable pub is_answered : List Event → Bool
is_answered [] = false
is_answered (ping_sent t ∷ es) = is_answered es
is_answered (pong_received ∷ es) = true
is_answered (reset_at t ∷ es) = true

-- The first ping after the last answer.
unfoldable pub first_unanswered : List Event → Option ℕ
first_unanswered [] = none
first_unanswered (ping_sent t ∷ es) = if is_answered es then first_unanswered es else some t
first_unanswered (pong_received ∷ es) = first_unanswered es
first_unanswered (reset_at t ∷ es) = first_unanswered es

-- The last ping or reset, where there is one.
unfoldable pub last_restart : ℕ → List Event → ℕ
last_restart start [] = start
last_restart start (ping_sent t ∷ es) = last_restart t es
last_restart start (pong_received ∷ es) = last_restart start es
last_restart start (reset_at t ∷ es) = last_restart t es

module _ (second : ℕ) where
  unfoldable pub run : List Event → HeartbeatState → HeartbeatState
  run [] s = s
  run (ping_sent t ∷ es) s = run es (on_ping_sent second t s)
  run (pong_received ∷ es) s = run es (on_pong_received s)
  run (reset_at t ∷ es) s = run es (reset second t s)

  -- The ping that a state waits for.
  abbrev pending : HeartbeatState → Option ℕ
  pending s = if s.awaiting_pong then some s.ping_sent_at else none

  abbrev first_of : Option ℕ → List Event → Option ℕ
  first_of before es =
      if is_answered es
      then first_unanswered es
      else elim before [ some t ↦ some t | none ↦ first_unanswered es ]

  pending-run :
      (es : List Event) (s : HeartbeatState) → pending (run es s) ≡ first_of (pending s) es
  unfolding run is_answered first_unanswered on_ping_sent on_pong_received reset
  pending-run [] s = ground arith
  pending-run (ping_sent t ∷ es) s = ground (arith, pending-run es (on_ping_sent second t s))
  pending-run (pong_received ∷ es) s = ground (arith, pending-run es (on_pong_received s))
  pending-run (reset_at t ∷ es) s = ground (arith, pending-run es (reset second t s))

  next-run :
      (es : List Event) (s : HeartbeatState) (start : ℕ)
      → s.next_ping_at ≡ start + 10 * second
      → (run es s).next_ping_at ≡ last_restart start es + 10 * second
  unfolding run last_restart on_ping_sent on_pong_received reset
  next-run [] s start h = h
  next-run (ping_sent t ∷ es) s start h = next-run es (on_ping_sent second t s) t refl
  next-run (pong_received ∷ es) s start h = next-run es (on_pong_received s) start h
  next-run (reset_at t ∷ es) s start h = next-run es (reset second t s) t refl

  timed-pending :
      (now : ℕ) (s : HeartbeatState)
      → pong_timed_out second now s
        ≡ elim (pending s) [ none ↦ false | some t ↦ leb (t + 20 * second) now ]
  unfolding pong_timed_out
  timed-pending now s = ground arith

-- After any calls from the constructor, at any time: the connection has timed out exactly if the
-- first ping after the last pong or reset is 20 seconds old, however many were sent after it, and a
-- ping is due exactly if the last ping or reset, or the construction, is 10 seconds old.
pub run-timers :
    (second start now : ℕ) (es : List Event)
    → (pong_timed_out second now (run second es (make second start))
        ≡ elim (first_unanswered es) [ none ↦ false | some t ↦ leb (t + 20 * second) now ])
      × (should_send_ping now (run second es (make second start))
          ≡ leb (last_restart start es + 10 * second) now)
unfolding make should_send_ping
run-timers second start now es = (
  timed-pending second now (run second es (make second start))
      ∙ ap (λ o. elim o [ none ↦ false | some t ↦ leb (t + 20 * second) now ]) waits,
  ap (λ t. leb t now) (next-run second es (make second start) start refl),
)
  where
    waits : pending second (run second es (make second start)) ≡ first_unanswered es
    waits = ground (arith, pending-run second es (make second start))

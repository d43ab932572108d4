-- ===== src/ReconnectBackoff.antt =====
-- include/reconnect_backoff.hpp. The delay is never negative and at most doubled once past 30, so
-- that an `int` does not overflow.
use cmarket.Prelude.{ℕ, zero, suc, ◌*◌, ◌^◌, ◌≡◌, refl, arith, ltb, if◌then◌else◌}

abbrev pub initial_delay_seconds : ℕ
initial_delay_seconds = 1

abbrev pub maximum_delay_seconds : ℕ
maximum_delay_seconds = 30

pub record ReconnectBackoff : Type 0 where
  pub current_delay_seconds : ℕ

unfoldable pub make : ReconnectBackoff
make = record { current_delay_seconds = initial_delay_seconds }

unfoldable pub advance : ReconnectBackoff → ReconnectBackoff
advance b = record {
  current_delay_seconds =
      if ltb maximum_delay_seconds (b.current_delay_seconds * 2)
      then maximum_delay_seconds
      else b.current_delay_seconds * 2;
}

unfoldable pub reset : ReconnectBackoff → ReconnectBackoff
reset b = record { current_delay_seconds = initial_delay_seconds }

-- A connection that fails a number of times in a row.
unfoldable pub fail : ℕ → ReconnectBackoff → ReconnectBackoff
fail zero b = b
fail (suc n) b = advance (fail n b)

capped : ℕ → ℕ
capped n = if ltb 30 n then 30 else n

doubled : (n : ℕ) → (fail n (reset make)).current_delay_seconds ≡ capped (2 ^ n)
unfolding fail reset advance capped
doubled zero = refl
doubled (suc n) = ground (arith, doubled n)

-- After a reset and any number of failures in a row the delay is the power of two with that
-- exponent, or 30 seconds where that is more.
pub fail-reset :
    (b : ReconnectBackoff) (n : ℕ)
    → (fail n (reset b)).current_delay_seconds ≡ (if ltb 30 (2 ^ n) then 30 else 2 ^ n)
unfolding reset capped
fail-reset b n = doubled n

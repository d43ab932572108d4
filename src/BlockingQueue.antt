-- ===== src/BlockingQueue.antt =====
-- include/blocking_queue.hpp. Every method holds the mutex from its first to its last access, so
-- that calls of several threads are steps of one sequence; only `pop` may wait, until its test
-- holds.
pub mod Fifo
use cmarket.Prelude.{
  ℕ, Bool, true, false, not, ◌||◌, Option, none, some, List, [], ◌∷◌, if◌then◌else◌, length,
  push_back,
}

pub record BlockingQueue (T : Type 0) : Type 0 where
  pub queue : List T
  pub is_closed : Bool

module _ {T : Type 0} where
  unfoldable pub empty_queue : BlockingQueue T
  empty_queue = record { queue = []; is_closed = false }

  -- Both forms of `push`.
  unfoldable pub push : T → BlockingQueue T → Bool × BlockingQueue T
  push value q =
      if q.is_closed then (false, q) else (true, record q { queue = push_back q.queue value })

  unfoldable pub empty : BlockingQueue T → Bool
  empty q = elim q.queue [ [] ↦ true | x ∷ xs ↦ false ]

  unfoldable pub try_pop : BlockingQueue T → Option T × BlockingQueue T
  try_pop q = elim q.queue [
    | [] ↦ (none, q)
    | value ∷ rest ↦ (some value, record q { queue = rest })
  ]

  -- `none` while the call waits.
  unfoldable pub pop : BlockingQueue T → Option (Option T × BlockingQueue T)
  pop q = if q.is_closed || not (empty q) then some (try_pop q) else none

  unfoldable pub close : BlockingQueue T → BlockingQueue T
  close q = if q.is_closed then q else record q { is_closed = true }

  unfoldable pub size : BlockingQueue T → ℕ
  size q = length q.queue

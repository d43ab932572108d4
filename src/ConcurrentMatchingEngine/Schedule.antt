-- ===== src/ConcurrentMatchingEngine/Schedule.antt =====
-- Sequences of calls of the clients and rounds of the worker (src/concurrent_matching_engine.cpp), as
-- the threads make them.
use cmarket.Prelude.{ℕ, suc, Option, none, some, List, [], ◌∷◌}
use cmarket.LongDouble.{LongDouble}
use cmarket.MatchingEngine.Defs.{MatchingEngine}
use cmarket.ConcurrentMatchingEngine.{
  Command, Reply, ConcurrentMatchingEngine, submit, close_queue, process_command, worker_round,
}

pub data Event : Type 0 where
  -- Any of the public methods that send a command.
  submitted : Command → Event
  shut_down worked : Event

-- The commands that are accepted, all before the first shutdown, numbered in the order of the calls.
unfoldable pub accepted : ℕ → List Event → List (ℕ × Command)
accepted n [] = []
accepted n (submitted c ∷ es) = (n, c) ∷ accepted (suc n) es
accepted n (shut_down ∷ es) = []
accepted n (worked ∷ es) = accepted n es

module _ (F : LongDouble) where
  -- `none` where the worker has to wait, so that its round is not the next one to run.
  unfoldable pub run : List Event → ConcurrentMatchingEngine → Option ConcurrentMatchingEngine
  run [] s = some s
  run (submitted c ∷ es) s = run es (submit c s).1
  run (shut_down ∷ es) s = run es (close_queue s)
  run (worked ∷ es) s = elim (worker_round F s) [ none ↦ none | some t ↦ run es t ]

  -- One thread alone: the commands one after the other, with their replies.
  unfoldable pub serve : List (ℕ × Command) → MatchingEngine → List (ℕ × Reply) × MatchingEngine
  serve [] e = ([], e)
  serve ((promise, c) ∷ cs) e =
      let (reply, e') = process_command F c e in
      let (replies, e'') = serve cs e' in ((promise, reply) ∷ replies, e'')

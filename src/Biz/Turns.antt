-- ===== src/Biz/Turns.antt =====
-- The HTTP thread, the workers and the schedule thread of injectService/pull/src/app/serverBiz.cpp,
-- in serial runs, where no handling overlaps another, with the history of what was put and what was handled; against the
-- set of streams of Process/Registry.
pub mod Ready
pub mod Settles
use pull_stream.Base.{
  Bool, append_assoc, get_elem?-some_lt, All-append, ℕ, ◌+◌, ◌%◌, ◌<◌, List, [], ◌∷◌, ◌≢◌, sym, map,
  arith, length, inl, inr, Bool-cases, ◌==◌, ==_iff, if◌then◌else◌, get_elem?_lt,
}
use mathlib.Core.Path.{subst}
use pull_stream.Biz.{put_data, worker_round, process_alive_detect, pop}
use pull_stream.Biz.Drain.{Queue, worker_round_lem, worker_round_empty}
use pull_stream.Biz.Queues.{IsRunning, put_data_runs, after_put}
use pull_stream.Biz.Refines.{Runs-append, Registered, worker_round-Registered}
use pull_stream.Biz.Robin.{queued, put_data-queued}
use pull_stream.Cache.Streams.{IsStorable}
use pull_stream.Common.{terminate_process, ErrorCode, Event}
use pull_stream.External.{External}
use pull_stream.Process.Views.{IsConsistent}
use pull_stream.World.{World, Outcome}

module _ ⦃x : External⦄ where
  -- The serial runs of the threads, from a state to another: those in which no handling of an event
  -- and no look overlaps another (Process/Race has what can go wrong where they do). The HTTP thread puts an event, worker `i` handles the event in
  -- front of its queue or finds the queue empty, the schedule thread looks for dead processes. With
  -- the events that were put, and those handled with who did, in their order.
  pub data SerialRun : World → List Event → List (ℕ × Event) → World → Type 0 where
    here : {w : World} → SerialRun w [] [] w
    ask :
        (ev : Event) {ps : List Event} {hs : List (ℕ × Event)} {w v : World}
        → SerialRun (put_data ev w).1 ps hs v
        → SerialRun w (ev ∷ ps) hs v
    work :
        (i : ℕ) (ev : Event) (q : List Event) {ps : List Event} {hs : List (ℕ × Event)}
        {w v : World}
        → Queue w i (ev ∷ q)
        → SerialRun (worker_round i w).1 ps hs v
        → SerialRun w ps ((i, ev) ∷ hs) v
    find_empty :
        (i : ℕ) {ps : List Event} {hs : List (ℕ × Event)} {w v : World}
        → Queue w i []
        → SerialRun (worker_round i w).1 ps hs v
        → SerialRun w ps hs v
    look :
        {ps : List Event} {hs : List (ℕ × Event)} {w v : World}
        → SerialRun (process_alive_detect w).1 ps hs v
        → SerialRun w ps hs v

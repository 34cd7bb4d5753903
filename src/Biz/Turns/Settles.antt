-- ===== src/Biz/Turns/Settles.antt =====
-- The workers of injectService/pull/src/app/serverBiz.cpp with nothing more put: each empties its
-- queue (the inner loop of `worker_loop`).
use pull_stream.Base.{ℕ, ◌<◌, List, [], ◌∷◌, ◌≡◌, ◌≢◌, some, get_elem?}
use pull_stream.Biz.{worker_round}
use pull_stream.Biz.Drain.{Queue}
use pull_stream.Biz.Turns.Ready.{IsServing}
use pull_stream.Common.{Event}
use pull_stream.External.{External}
use pull_stream.External.Laws.{MongoLaws, JsonLaws}
use pull_stream.Process.Views.{IsReliable}
use pull_stream.World.{WorkerContext, World}

-- No event waits in a worker's queue.
abbrev pub IsEmptied : WorkerContext → Type 0
IsEmptied c = c.queue ≡ []

module _ ⦃x : External⦄ where
  -- Turns of the workers alone: each handles the event in front of a queue.
  pub data Works : World → List (ℕ × Event) → World → Type 0 where
    here : {w : World} → Works w [] w
    work :
        (i : ℕ) (ev : Event) (q : List Event) {hs : List (ℕ × Event)} {w v : World}
        → Queue w i (ev ∷ q)
        → Works (worker_round i w).1 hs v
        → Works w ((i, ev) ∷ hs) v

module _ ⦃x : External⦄ (db : MongoLaws) (json : JsonLaws) (ok : IsReliable) where
  -- Turns from a state at work, after which the workers before worker `k` have empty queues.
  record Settled (n k : ℕ) (w : World) : Type 0 where
    handled : List (ℕ × Event)
    last : World
    turns : Works w handled last
    serving : IsServing db json n last
    emptied :
        (i : ℕ)
        → i < k
        → (c : WorkerContext) × (get_elem? last.worker_list i ≡ some c) × IsEmptied c

  -- One worker empties its queue, and the other queues are as they were.
  record Emptied (n i : ℕ) (w : World) : Type 0 where
    handled : List (ℕ × Event)
    last : World
    turns : Works w handled last
    serving : IsServing db json n last
    queue : Queue last i []
    others : (j : ℕ) → i ≢ j → get_elem? last.worker_list j ≡ get_elem? w.worker_list j

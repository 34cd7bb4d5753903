-- ===== src/Examples/Threads.antt =====
-- The queues and the workers, at examples.
use pull_stream.Base.{List, [], ◌∷◌, ◌≢◌, refl, arith}
use pull_stream.Biz.{worker_drain}
use pull_stream.Biz.Drain.{Drained, worker_drain_empties}
use pull_stream.Biz.Queues.{idle_worker, idle_workers}
use pull_stream.Common.{create_process, remove_process, terminate_process, Event}
use pull_stream.Examples.Machine.{toy, toy_mongo}
use pull_stream.Examples.Setting.{service, service-IsConnected, camera_event}
use pull_stream.Process.Unique.{IsSound}
use pull_stream.World.{World}

abbrev three_events : List Event
three_events =
    camera_event create_process ∷ camera_event remove_process ∷ camera_event create_process ∷ []

-- Worker 0 has the events, worker 1 has none.
abbrev busy : List Event → World
busy q = record service { worker_list = record (idle_worker 0) { queue = q } ∷ idle_workers 1 1 }

create_ne : create_process ≢ terminate_process
create_ne e = cc

remove_ne : remove_process ≢ terminate_process
remove_ne e = cc

worker_drain_empties_example : Drained (busy three_events) 0 (worker_drain 4 0 (busy three_events))
worker_drain_empties_example =
    worker_drain_empties 4 (busy three_events) 0 three_events
      (record { client = refl; handle = λ _ _. refl })
      (record (idle_worker 0) { queue = three_events }, refl, refl)
      (create_ne, (remove_ne, (create_ne, tt))) (omega arith)

abbrev ends_badly : List Event
ends_badly = camera_event create_process ∷ camera_event terminate_process ∷ []

abbrev fresh : World
fresh = record service { worker_list = [] }

pub service-IsSound : IsSound toy_mongo service
service-IsSound = record {
  connected = service-IsConnected;
  unique = record { at_most_one = λ _. omega arith };
}

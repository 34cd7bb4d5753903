-- ===== src/Examples/Overtakes.antt =====
-- Two requests for one stream that are handled in the other order, at an example.
use pull_stream.Base.{[], ◌∷◌, ◌≡◌, refl, arith}
use pull_stream.Biz.Overtakes.{start, stop, started_last, start_after_stop}
use pull_stream.Biz.Queues.{idle_worker}
use pull_stream.Biz.Turns.{SerialRun}
use pull_stream.Cache.Connected.{process_at}
use pull_stream.Cache.Streams.{streams}
use pull_stream.Examples.Machine.{toy, toy_mongo}
use pull_stream.Examples.Setting.{service, service-IsRunning, camera, camera-Starts}
use pull_stream.World.{World}

abbrev last : World
last = started_last camera toy_mongo 2 service service-IsRunning (omega arith) camera-Starts

start_after_stop_example :
    SerialRun service
      (start camera ∷ stop camera ∷ [])
      ((1, stop camera) ∷ (0, start camera) ∷ [])
      last
    × (streams toy_mongo last.server (process_at service) camera.sid ≡ 1)
start_after_stop_example =
    start_after_stop camera toy_mongo 2 service service-IsRunning (omega arith) camera-Starts
      (idle_worker 0, refl, refl) (idle_worker 1, refl, refl)

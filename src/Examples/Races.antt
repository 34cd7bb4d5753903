-- ===== src/Examples/Races.antt =====
-- Two workers that start one stream, at an example.
use pull_stream.Base.{◌≡◌, refl}
use pull_stream.Cache.Connected.{process_at}
use pull_stream.Cache.Streams.{streams, IsUnique}
use pull_stream.Common.{error_ok}
use pull_stream.Examples.Machine.{toy, toy_mongo, machine_fork}
use pull_stream.Examples.Setting.{service, camera, camera-Starts}
use pull_stream.Process.Lifecycle.{started}
use pull_stream.Process.Race.{Turns, looking, done, spawn_process_race}

spawn_process_race_example :
    let twice = started (started service camera) camera in
    Turns service (looking camera) (looking camera) twice (done error_ok) (done error_ok)
    × (streams toy_mongo twice.server (process_at service) camera.sid ≡ 2)
    × ¬ IsUnique toy_mongo (process_at service) twice.server
unfolding machine_fork
spawn_process_race_example =
    spawn_process_race toy_mongo service camera camera-Starts
      (record { forked = refl; stored = refl })

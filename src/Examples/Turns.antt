-- ===== src/Examples/Turns.antt =====
-- The turns of the threads, at an example.
use pull_stream.Base.{ℕ, List, [], ◌∷◌}
use pull_stream.Biz.{put_data, worker_round, process_alive_detect}
use pull_stream.Common.{create_process, remove_process, Event}
use pull_stream.Examples.Machine.{toy}
use pull_stream.Examples.Setting.{service, camera_event}
use pull_stream.World.{World}

abbrev create_camera : Event
create_camera = camera_event create_process

abbrev remove_camera : Event
remove_camera = camera_event remove_process

-- Both workers have an event.
abbrev both_asked : World
both_asked = (put_data remove_camera (put_data create_camera service).1).1

abbrev history : List (ℕ × Event)
history = (0, create_camera) ∷ (1, remove_camera) ∷ []

abbrev final : World
final = (process_alive_detect (worker_round 1 (worker_round 0 both_asked).1).1).1

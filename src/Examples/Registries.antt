-- ===== src/Examples/Registries.antt =====
-- The refinement of the set of streams, at examples.
use pull_stream.Base.{pos, refl, arith, [], List, ◌∷◌}
use pull_stream.Process.Respawns.{Unchanged}
use pull_stream.Biz.Revives.{process_alive_detect-Unchanged}
use pull_stream.Biz.{process_alive_detect}
use pull_stream.Biz.Queues.{idle_worker, idle_workers}
use pull_stream.Common.{create_process, remove_process, reload_process, Event}
use pull_stream.Examples.Machine.{toy, toy_mongo, toy_json, machine_fork}
use pull_stream.Examples.Setting.{
  service, service-IsConnected, camera, camera_event, camera-IsStorable,
}
use pull_stream.Process
use pull_stream.Process.{spawn_process, process_reload}
use pull_stream.Process.Refines.{spawn_process-Refines, remove_process-Refines}
use pull_stream.Process.Registry.{Request}
use pull_stream.Process.Reloads.{process_reload-Refines}
use pull_stream.Process.Views.{IsReliable, IsConsistent, Refines}
use pull_stream.World.{World}

pub toy-IsReliable : IsReliable
unfolding machine_fork
toy-IsReliable = record {
  inserts = λ s c d. refl;
  removes = λ s c q. refl;
  child_pid = λ o command. omega arith;
  own_pid = λ o. omega arith;
}

pub service-IsConsistent : IsConsistent toy_mongo toy_json service
service-IsConsistent = record {
  connected = service-IsConnected;
  unique = record { at_most_one = λ _. omega arith };
  records = tt;
}

abbrev with_camera : World
with_camera = (spawn_process camera service).1

with_camera-IsConsistent : IsConsistent toy_mongo toy_json with_camera
with_camera-IsConsistent =
    let r : Refines toy_mongo toy_json service (Request.start camera.sid)
        (spawn_process camera service) =
      spawn_process-Refines toy_mongo toy_json toy-IsReliable service service-IsConsistent camera
        (camera-IsStorable (pos 0) (omega arith)) in
    r.consistent

remove_process-Refines_example :
    Refines toy_mongo toy_json with_camera
      (Request.stop camera.sid)
      (Process.remove_process camera with_camera)
remove_process-Refines_example =
    remove_process-Refines toy_mongo toy_json toy-IsReliable with_camera with_camera-IsConsistent
      camera

process_reload-Refines_example :
    Refines toy_mongo toy_json with_camera
      (Request.reload camera.sid)
      (process_reload camera.sid with_camera)
process_reload-Refines_example =
    process_reload-Refines toy_mongo toy_json toy-IsReliable with_camera with_camera-IsConsistent
      camera.sid

abbrev four_events : List Event
four_events =
    camera_event create_process
    ∷ camera_event reload_process
    ∷ camera_event create_process
    ∷ camera_event remove_process
    ∷ []

abbrev busy : World
busy = record service {
  worker_list = record (idle_worker 0) { queue = four_events } ∷ idle_workers 1 1;
}

-- The camera's child has died.
abbrev dead_camera : World
dead_camera = record with_camera { os = record with_camera.os { alive = [] } }

process_alive_detect-Unchanged_example :
    Unchanged toy_mongo toy_json dead_camera (process_alive_detect dead_camera)
process_alive_detect-Unchanged_example =
    process_alive_detect-Unchanged toy_mongo toy_json toy-IsReliable dead_camera (record {
      connected = record {
        client = with_camera-IsConsistent.connected.client;
        handle = with_camera-IsConsistent.connected.handle;
      };
      unique = with_camera-IsConsistent.unique;
      records = with_camera-IsConsistent.records;
    })

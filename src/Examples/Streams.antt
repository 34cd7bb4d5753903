-- ===== src/Examples/Streams.antt =====
-- The cache and the children, at examples.
use pull_stream.Base.{pos, true, false, ◌≡◌, refl, none, some, IsInt32, arith, bytes}
use pull_stream.Cache.{
  by_host, by_sid, get_process_info, host_record, host_register, is_host_exist, parser,
  process_record, remove_host,
}
use pull_stream.Cache.Hosts.{host_register_exclusive}
use pull_stream.Cache.Streams.{parser-process_record}
use pull_stream.Common.{error_ok, new_process_info}
use pull_stream.Examples.Machine.{toy, toy_mongo, toy_json, machine_fork, machine_kill}
use pull_stream.External.{bson_as_json}
use pull_stream.Examples.Setting.{
  service, service-IsConnected, camera, camera-IsStorable, camera-Starts,
}
use pull_stream.Process.{spawn_process, remove_process, ffmpeg_command, sigkill}
use pull_stream.Process.Lifecycle.{
  started, running, get_process_info-spawn_process, remove_process-spawn_process,
}
use pull_stream.World.{ret}

forked_pid : IsInt32 (machine_fork service.os (ffmpeg_command camera)).0
unfolding machine_fork
forked_pid = omega arith

parser-process_record_example :
    parser
      (bson_as_json (process_record (record camera { pid = pos 5 }) (pos 77)))
      (new_process_info (pos 3))
    ≡ (error_ok, record camera { pid = pos 5; ppid = pos 77; status = bytes "active" })
parser-process_record_example =
    parser-process_record toy_json (record camera { pid = pos 5 }) (pos 77)
      (camera-IsStorable (pos 5) (omega arith)) (omega arith) (new_process_info (pos 3))

get_process_info-spawn_process_example :
    (spawn_process camera service ≡ (ret error_ok, started service camera))
    × (get_process_info camera.sid (spawn_process camera service).1
        ≡ (ret (some (running service camera)), started service camera))
get_process_info-spawn_process_example =
    get_process_info-spawn_process toy_mongo toy_json service camera camera-Starts
      (camera-IsStorable _ forked_pid) (omega arith)

remove_process-spawn_process_example :
    let w' = (remove_process camera (spawn_process camera service).1).1 in
    ((remove_process camera (spawn_process camera service).1).0 ≡ ret error_ok)
    × (w'.os ≡ (machine_kill (started service camera).os (running service camera).pid sigkill).1)
    × (get_process_info camera.sid w' ≡ (ret none, w'))
remove_process-spawn_process_example =
    remove_process-spawn_process toy_mongo toy_json service camera camera-Starts
      (camera-IsStorable _ forked_pid) (omega arith) camera refl refl

free : is_host_exist (bytes "h") service ≡ (ret false, service)
unfolding is_host_exist pull_stream.Cache.open_collection
free = refl

host_register_exclusive_example :
    let v = record service { server = (host_register (bytes "h") (pos 80) service).1.server } in
    ((host_register (bytes "h") (pos 80) service).0 ≡ ret true)
    × (host_register (bytes "h") (pos 81) v ≡ (ret false, v))
host_register_exclusive_example =
    host_register_exclusive toy_mongo service service-IsConnected (bytes "h") (pos 80) free refl
      (record service { server = (host_register (bytes "h") (pos 80) service).1.server }) (pos 81)
      (record { client = refl; handle = λ _ _. refl }) refl refl

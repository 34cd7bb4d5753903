-- ===== src/Examples/Served.antt =====
-- A request from the body to the cache, at an example.
use pull_stream.Base.{ℕ, ℤ, pos, ◌≡◌, refl, inr, some, true, bytes, arith, IsInt32, [], c_str}
use pull_stream.Biz.{worker_drain}
use pull_stream.Biz.Queues.{idle_worker}
use pull_stream.Bson.{doc_get}
use pull_stream.Cache.{get_process_info}
use pull_stream.Cache.Streams.{IsStorable}
use pull_stream.Common.{ProcessInfo}
use pull_stream.Examples.Machine.{
  parse-body, toy, toy_mongo, toy_json, toy_utf8, toy_int32, machine_fork,
}
use pull_stream.Examples.Paths.{start_doc}
use pull_stream.Examples.Reader.{flat, object}
use pull_stream.Examples.Setting.{service, service-IsConnected, service-IsRunning, app, start_body}
use pull_stream.Process.{ffmpeg_command}
use pull_stream.Process.Lifecycle.{Starts, running}
use pull_stream.RestApi.{start, success_reply}
use pull_stream.RestApi.Served.{asked_for, start-worker_drain}
use pull_stream.World.{ret}

abbrev wanted : ProcessInfo
wanted = asked_for (bytes "rtsp://c") (bytes "rtmp://d") (bytes "s1") (pos 1) (bytes "h")

wanted-Starts : Starts service wanted
unfolding machine_fork
wanted-Starts = record {
  connected = service-IsConnected;
  absent = refl;
  forked = refl;
  stored = refl;
}

wanted-IsStorable : (pid : ℤ) → IsInt32 pid → IsStorable toy_json (record wanted { pid = pid })
unfolding bytes c_str
wanted-IsStorable pid h = record {
  sid_text = (refl, refl);
  src_text = (refl, refl);
  dest_text = (refl, refl);
  host_text = (refl, refl);
  active_text = refl;
  type_int = omega arith;
  pid_int = h;
}

wanted_pid : IsInt32 (machine_fork service.os (ffmpeg_command wanted)).0
unfolding machine_fork
wanted_pid = omega arith

start-worker_drain_example :
    let asked = start (some start_body) (some app) service in
    let worked = worker_drain 2 0 asked.1 in
    (asked.0 ≡ ret (success_reply "SUCCESS"))
    × (worked.0 ≡ ret true)
    × (get_process_info (bytes "s1") worked.1 ≡ (ret (some (running service wanted)), worked.1))
unfolding doc_get pull_stream.Base.text_eq bytes
start-worker_drain_example =
    start-worker_drain toy_mongo toy_json 2 start_body (bytes "rtsp://c") (bytes "rtmp://d")
      (bytes "s1") (pos 1) (object (flat start_doc)) app service (idle_worker 0) service-IsRunning
      refl refl (parse-body start_doc) (toy_utf8 start_doc (bytes "src") (bytes "rtsp://c") refl)
      (toy_utf8 start_doc (bytes "dest") (bytes "rtmp://d") refl)
      (toy_utf8 start_doc (bytes "sid") (bytes "s1") refl)
      (toy_int32 start_doc (bytes "type") (pos 1) refl) (λ e. cc) (λ e. cc) (λ e. cc) (inr refl)
      wanted-Starts (wanted-IsStorable _ wanted_pid) (omega arith)

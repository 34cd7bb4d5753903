-- ===== src/Examples/Requests.antt =====
-- The handlers, at examples.
use pull_stream.Base.{pos, ◌⊎◌, ◌≡◌, refl, some, bytes, text_eq, arith}
use pull_stream.Biz.{worker_drain}
use pull_stream.Biz.Queues.{idle_worker}
use pull_stream.Bson.{nil, field, int32, doc_get}
use pull_stream.Common.{create_process, remove_process}
use pull_stream.Examples.Machine.{parse-body, toy, toy_int32}
use pull_stream.Examples.Reader.{flat, object}
use pull_stream.Examples.Setting.{
  service, service-IsConnected, service-IsRunning, app, start_body, stop_body, stop_i_body,
}
use pull_stream.RestApi.{success_reply, start, stop, stop_i}
use pull_stream.RestApi.Ends.{Accepted, Refused}
use pull_stream.RestApi.Start.{IsStartable, start_ends}
use pull_stream.RestApi.Stop.{HasId, stop_ends, stop_i_aborts}
use pull_stream.World.{ret, aborted}

start_ends_example :
    Accepted 2 create_process
      (IsStartable app.host)
      "SUCCESS"
      service
      (start (some start_body) (some app) service)
    ⊎ Refused service (start (some start_body) (some app) service)
start_ends_example = start_ends 2 (some start_body) app service service-IsRunning

stop_ends_example :
    Accepted 2 remove_process HasId "SUCCESS" service (stop (some stop_body) service)
    ⊎ Refused service (stop (some stop_body) service)
stop_ends_example = stop_ends 2 (some stop_body) service service-IsRunning

stop_i_aborts_example :
    ((stop_i (some stop_i_body) (some app) service).0 ≡ ret (success_reply "ok"))
    × ((worker_drain 1 0 (stop_i (some stop_i_body) (some app) service).1).0 ≡ aborted)
unfolding doc_get text_eq bytes
stop_i_aborts_example =
    stop_i_aborts 2 1 stop_i_body (pos 1000)
      (object (flat (field (bytes "pid") (int32 (pos 1000)) nil))) app service (idle_worker 0)
      service-IsRunning service-IsConnected
      (parse-body (field (bytes "pid") (int32 (pos 1000)) nil))
      (toy_int32 (field (bytes "pid") (int32 (pos 1000)) nil) (bytes "pid") (pos 1000) refl) refl tt
      (omega arith)

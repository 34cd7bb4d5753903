-- ===== src/Examples/Setting.antt =====
-- A service on the external world of these examples, with two workers and an empty database.
use pull_stream.Base.{ℤ, pos, false, [], refl, Text, bytes, c_str, IsInt32, arith}
use pull_stream.Biz.Queues.{IsRunning, idle_workers}
use pull_stream.Bson.{nil, field, utf8, int32}
use pull_stream.Cache.Connected.{IsConnected}
use pull_stream.Cache.Streams.{IsStorable}
use pull_stream.Common.{ProcessInfo, new_process_info, AppData, Event, EventType}
use pull_stream.Examples.Machine.{toy, toy_json, machine_fork}
use pull_stream.Examples.Reader.{printed}
use pull_stream.Process.Lifecycle.{Starts}
use pull_stream.World.{World}

abbrev pub service : World
service = record {
  server = λ _. [];
  os = record {
    next = 0;
    alive = [];
    next_fd = 3;
    locked = false;
    clock = record { tm_year = 124; tm_mon = 0; tm_mday = 1; tm_hour = 9; tm_min = 0; tm_sec = 0 };
    conf = [];
  };
  db_address = bytes "mongodb://h";
  _host = [];
  _port = pos 0;
  worker_list = idle_workers 2 0;
  worker_index = 0;
  worker_max = pos 2;
}

pub service-IsConnected : IsConnected service
service-IsConnected = record { client = refl; handle = λ _ _. refl }

pub service-IsRunning : IsRunning 2 service
service-IsRunning = record { max = refl; workers = refl; index = omega arith }

abbrev pub camera : ProcessInfo
camera = record (new_process_info (pos 0)) {
  sid = bytes "s1";
  src_url = bytes "rtsp://c";
  dest_url = bytes "rtmp://d";
  type = pos 1;
  host = bytes "h";
}

abbrev pub camera_event : EventType → Event
camera_event type = record { process = camera; type = type }

abbrev pub app : AppData
app = record { host = bytes "h"; port = pos 8080 }

abbrev pub start_body : Text
start_body = printed (
    field (bytes "src") (utf8 (bytes "rtsp://c")) (
      field (bytes "dest") (utf8 (bytes "rtmp://d"))
        (field (bytes "sid") (utf8 (bytes "s1")) (field (bytes "type") (int32 (pos 1)) nil))))

abbrev pub stop_body : Text
stop_body = printed (field (bytes "sid") (utf8 (bytes "s1")) nil)

abbrev pub stop_i_body : Text
stop_i_body = printed (field (bytes "pid") (int32 (pos 1000)) nil)

pub camera-IsStorable : (pid : ℤ) → IsInt32 pid → IsStorable toy_json (record camera { pid = pid })
unfolding bytes c_str
camera-IsStorable pid h = record {
  sid_text = (refl, refl);
  src_text = (refl, refl);
  dest_text = (refl, refl);
  host_text = (refl, refl);
  active_text = refl;
  type_int = omega arith;
  pid_int = h;
}

pub camera-Starts : Starts service camera
unfolding machine_fork
camera-Starts = record {
  connected = service-IsConnected;
  absent = refl;
  forked = refl;
  stored = refl;
}

-- ===== src/Examples/Serving.antt =====
-- The start of the service, at an example.
use pull_stream.Base.{ℕ, pos, List, [], ◌∷◌, ◌≡◌, refl, true, bytes, c_str, arith, length, Text}
use pull_stream.Biz.Turns.Ready.{IsServing}
use pull_stream.Examples.Machine.{toy, toy_mongo, toy_json, Machine}
use pull_stream.Examples.Setting.{service}
use pull_stream.Ini.{MainKeyMap, get_int, get_str}
use pull_stream.Main.{main_with}
use pull_stream.Main.Serves.{HasSettings, main_with-IsServing}
use pull_stream.Process.Views.{IsConsistent}
use pull_stream.RestApi.Boot.{IsBooting}
use pull_stream.Utils.{get_local_ip}
use pull_stream.World.{World, ret}

abbrev service_map : MainKeyMap
service_map =
    (
      bytes "system",
      (bytes "daemon", bytes "off")
          ∷ (bytes "net_type", bytes "eth0")
          ∷ (bytes "worker", bytes "2")
          ∷ (bytes "listen", bytes "80")
          ∷ [],
    )
    ∷ (bytes "mongodb", (bytes "address", bytes "mongodb://h") ∷ [])
    ∷ []

abbrev not_started : World
not_started = record service { worker_list = []; db_address = [] }

abbrev socket_used : Machine
socket_used = record service.os { next_fd = 4 }

service_map-HasSettings : HasSettings service_map
unfolding get_int get_str pull_stream.Ini.get_key pull_stream.Ini.lookup pull_stream.Base.text_eq
    bytes pull_stream.Ini.atoi pull_stream.Ini.number_from pull_stream.Ini.section_added
    pull_stream.Ini.assign c_str
service_map-HasSettings = record {
  dae = bytes "off";
  net_type = bytes "eth0";
  workers = 2;
  m_1 = service_map;
  m_2 = service_map;
  m_3 = service_map;
  read_daemon = refl;
  foreground = refl;
  read_net = refl;
  read_worker = refl;
  some_worker = omega arith;
}

service_map-IsBooting : (u : World) → IsBooting service_map (bytes "mongodb://h") (pos 80) u
unfolding get_int get_str pull_stream.Ini.get_key pull_stream.Ini.lookup pull_stream.Base.text_eq
    bytes pull_stream.Ini.atoi pull_stream.Ini.number_from pull_stream.Ini.section_added
    pull_stream.Ini.assign c_str
service_map-IsBooting u = record {
  after_port = service_map;
  after_address = service_map;
  listen = refl;
  port_ne = λ e. cc;
  read = refl;
  connected = record { client = refl; handle = λ _ _. refl };
}

found_address :
    get_local_ip (bytes "eth0") [] not_started
    ≡ (ret (pos 0, bytes "10.0.0.1"), record not_started { os = socket_used })
unfolding get_local_ip bytes c_str
found_address = refl

not_started-IsConsistent :
    IsConsistent toy_mongo toy_json (record not_started { db_address = bytes "mongodb://h" })
not_started-IsConsistent = record {
  connected = record { client = refl; handle = λ _ _. refl };
  unique = record { at_most_one = λ _. omega arith };
  records = tt;
}

main_with-IsServing_example :
    ((main_with service_map (bytes "log/pid") not_started).0
      ≡ ret (record { host = bytes "10.0.0.1"; port = pos 80 }))
    × IsServing toy_mongo toy_json 2 (main_with service_map (bytes "log/pid") not_started).1
unfolding service_map-HasSettings bytes
main_with-IsServing_example =
    main_with-IsServing toy_mongo toy_json service_map service_map-HasSettings (λ _. refl)
      (λ _ _. refl) not_started (pos 0) (bytes "10.0.0.1") socket_used found_address
      (bytes "mongodb://h") (pos 80) (service_map-IsBooting _) (bytes "log/pid") refl
      not_started-IsConsistent refl

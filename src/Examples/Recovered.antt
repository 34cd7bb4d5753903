-- ===== src/Examples/Recovered.antt =====
-- The service and the watchdog on one database, at an example.
use pull_stream.Base.{true, false, [], ◌∷◌, ◌++◌, arith, ℕ, pos, ◌≡◌, refl, Text, bytes}
use pull_stream.Cache.Connected.{host_at}
use pull_stream.Cache.Hosts.{hosts}
use pull_stream.Examples.Machine.{toy, toy_mongo}
use pull_stream.Examples.Paths.{conf_map}
use pull_stream.Examples.Watched.{watched, watchdog, watched-IsConnected}
use pull_stream.Ini.{MainKeyMap, get_int, get_str}
use pull_stream.Main
use pull_stream.Pulld.{Settings, watch, watch_round, read_settings}
use pull_stream.Pulld.Loop.{quiet, rounds, watch-quiet}
use pull_stream.Pulld.Meets.{HasSettings, main_in, main-read_settings}
use pull_stream.Pulld.Watch.{freed}
use pull_stream.RestApi.Boot.{IsBooting}
use pull_stream.Pulld.Recovers.{IsLeftBehind, init-watch_round}
use pull_stream.RestApi.Init
use pull_stream.World.{World, ret, exited}

watched-IsLeftBehind : IsLeftBehind toy_mongo watchdog (bytes "h") watched 3 refl refl
unfolding pull_stream.Examples.Store.fits pull_stream.Bson.doc_get pull_stream.Base.text_eq bytes
    pull_stream.Base.c_str
watched-IsLeftBehind = record {
  dead = refl;
  connected = watched-IsConnected;
  one = refl;
  removes = refl;
}

conf_map-IsBooting : (u : World) → IsBooting conf_map (bytes "mongodb://h") (pos 80) u
unfolding get_int pull_stream.Ini.get_key pull_stream.Base.c_str pull_stream.Ini.lookup
    pull_stream.Base.text_eq bytes pull_stream.Ini.atoi pull_stream.Ini.number_from
    pull_stream.Ini.section_added pull_stream.Ini.assign get_str
conf_map-IsBooting u = record {
  after_port = conf_map;
  after_address = conf_map;
  listen = refl;
  port_ne = λ e. cc;
  read = refl;
  connected = record { client = refl; handle = λ _ _. refl };
}

-- The world in which the round runs its command.
abbrev after_round : World
after_round = freed toy_mongo watchdog (bytes "h") watched 3 refl refl

init-watch_round_example :
    ((Init.init conf_map (bytes "h") watched).0 ≡ exited 0)
    × ((Init.init conf_map (bytes "h") after_round).0
        ≡ ret (record { host = bytes "h"; port = pos 80 }))
    × (hosts toy_mongo
          (Init.init conf_map (bytes "h") after_round).1.server
          (host_at watched)
          (bytes "h")
        ≡ 1)
    × ((watch_round watchdog (bytes "h") watched).1.server ≡ after_round.server)
init-watch_round_example =
    init-watch_round toy_mongo watchdog (bytes "h") watched 3 refl refl conf_map (pos 80) watched
      after_round watched-IsLeftBehind (conf_map-IsBooting watched) (conf_map-IsBooting after_round)
      refl refl refl

-- The fourth round gets the signal.
watch-quiet_example :
    watch (quiet 3 (false ∷ [])) true watchdog (bytes "h") watched
    ≡ (ret false, rounds 4 watchdog (bytes "h") watched)
watch-quiet_example =
    watch-quiet watchdog (bytes "h") toy_mongo 3 (false ∷ []) watched (λ o. (o.next_fd, refl)) refl
      watched-IsConnected

abbrev watchdog_map : MainKeyMap
watchdog_map =
    (bytes "system", (bytes "daemon", bytes "on") ∷ (bytes "net_type", bytes "eth0") ∷ [])
    ∷ (bytes "child", (bytes "bin_dir", bytes "/opt/") ∷ [])
    ∷ (bytes "mongodb", (bytes "address", bytes "mongodb://h") ∷ [])
    ∷ []

watchdog_map-HasSettings : HasSettings (bytes "/opt/") watchdog_map
unfolding get_str pull_stream.Ini.get_key pull_stream.Base.c_str pull_stream.Ini.lookup
    pull_stream.Base.text_eq bytes pull_stream.Ini.section_added pull_stream.Ini.assign
watchdog_map-HasSettings = record {
  dae = bytes "on";
  net_type = bytes "eth0";
  mongo_addr = bytes "mongodb://h";
  m_1 = watchdog_map;
  m_2 = watchdog_map;
  m_3 = watchdog_map;
  m_4 = watchdog_map;
  read_daemon = refl;
  read_folder = refl;
  read_net = refl;
  read_mongo = refl;
  net = refl;
  mongo = refl;
}

main-read_settings_example :
    (s : Settings) × (read_settings watchdog_map watched ≡ (ret s, watched))
    × (s.rec_pid_dir ≡ bytes "/opt/" ++ bytes "log/pid")
    × (Main.main s.rec_bin_dir watched ≡ main_in (bytes "/opt/") watched)
unfolding bytes pull_stream.Base.c_str
main-read_settings_example =
    main-read_settings (bytes "/opt/") watchdog_map watchdog_map-HasSettings watched watched refl
      (omega arith)

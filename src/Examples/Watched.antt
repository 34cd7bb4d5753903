-- ===== src/Examples/Watched.antt =====
-- The pid file and the watchdog, at examples.
use pull_stream.Base.{
  ◌≤◌, ℕ, ℤ, pos, Bool, true, false, ◌≡◌, ◌⊎◌, refl, some, Text, bytes, arith, [], ◌∷◌,
}
use pull_stream.Bson.{nil, field, utf8}
use pull_stream.Cache.Hosts.{hosts}
use pull_stream.Cache.Connected.{IsConnected, host_at}
use pull_stream.Common.{error_ok}
use pull_stream.Examples.Machine.{toy, toy_mongo}
use pull_stream.Examples.Setting.{service}
use pull_stream.Pulld.{Settings, watch_round}
use pull_stream.Pulld.Watch.{watch_round_lem, lock_answer, tried, Restarted}
use pull_stream.Utils.PidFile.{get_pid_from_file-pid_line}
use pull_stream.Utils.{pid_line, get_pid_from_file}
use pull_stream.World.{World, ret}

-- The service's host is registered, and nothing holds the lock.
abbrev pub watched : World
watched = record service { server = λ c. field (bytes "host") (utf8 (bytes "h")) nil ∷ [] }

abbrev pub watchdog : Settings
watchdog = record {
  is_daemon = false;
  rec_bin_dir = bytes "sbin/pull";
  rec_pid_dir = bytes "log/pid";
  net_type = bytes "eth0";
  mongo_addr = bytes "mongodb://h";
}

one_host : hosts toy_mongo watched.server (host_at watched) (bytes "h") ≤ 1
unfolding pull_stream.Examples.Store.fits pull_stream.Bson.doc_get pull_stream.Base.text_eq bytes
    pull_stream.Base.c_str
one_host = omega arith

pub watched-IsConnected : IsConnected watched
watched-IsConnected = record { client = refl; handle = λ _ _. refl }

watch_round_lem_example :
    ((lock_answer watched.os (bytes "log/pid") 3 ≡ true)
      × (watch_round watchdog (bytes "h") watched
          ≡ (ret tt, record watched { os = tried watched.os (bytes "log/pid") 3 })))
    ⊎ ((lock_answer watched.os (bytes "log/pid") 3 ≡ false)
        × Restarted toy_mongo watchdog
            (bytes "h")
            watched
            3
            refl
            refl
            (watch_round watchdog (bytes "h") watched))
watch_round_lem_example =
    watch_round_lem toy_mongo watchdog (bytes "h") watched 3 refl refl watched-IsConnected one_host
      refl

-- The machine whose files hold the line of a pid.
abbrev with_pid : World
with_pid = record service { os = record service.os { conf = pid_line (pos 4711) } }

get_pid_from_file-pid_line_example :
    (get_pid_from_file (bytes "log/pid") with_pid).0 ≡ ret (error_ok, some (pos 4711))
get_pid_from_file-pid_line_example =
    get_pid_from_file-pid_line (bytes "log/pid") with_pid 3 4711 refl refl (omega arith)

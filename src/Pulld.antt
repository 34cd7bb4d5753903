-- ===== src/Pulld.antt =====
-- The watchdog (injectService/pulld/src/main.cpp): every five seconds it looks whether the service
-- holds the lock of its pid file, and if not it frees the service's host in the database and starts
-- the service. Its `MongoAdaptor` (injectService/pulld/src/mongodb/mongo_adaptor.cpp) is the
-- service's, modelled in Mongo; the address is an argument. Its start is in Pulld/Start.
mod Start
pub mod Freed
pub mod Watch
pub mod Recovers
pub mod Loop
pub mod Meets
unfoldable pub use Start.{write_pid_to_file, daemon, get_local_ip}
use pull_stream.Base.{
  List, ◌∷◌, eq_ℤ, ℕ, zero, suc, ℤ, pos, is_negative, Bool, true, false, Option, none, some, [],
  ◌++◌, Text, bytes, c_str, null, take, ltb, length, text_eq, if◌then◌else◌,
}
use pull_stream.Cache.{by_host, checked, collection_hostinfo, database, found}
use pull_stream.Common.{ErrorCode, error_ok}
use pull_stream.External.{External, read_write_create}
use pull_stream.Ini.{MainKeyMap, get_str}
use pull_stream.Mongo.{connect, collection, find_one, remove}
use pull_stream.Main.{settings, beside, zeros}
use pull_stream.Ini.{load}
use pull_stream.Paths.{Located, located, path_too_long, get_cur_path_or_exit}
use pull_stream.World.{
  World, ret, Action, pure, undefined_behaviour, gets, exit, on_os, deref, ◌>>=◌, ◌>>◌,
}

-- The settings that the watchdog keeps.
pub record Settings : Type 0 where
  pub is_daemon : Bool
  pub rec_bin_dir : Text
  pub rec_pid_dir : Text
  pub net_type : Text
  pub mongo_addr : Text

module _ ⦃x : External⦄ where
  open x use {fopen, open_file, close, lock_file, unlock_file, system, realpath, sleep}

  unfoldable pub is_host_exist : Text → Text → Action Bool
  is_host_exist host mdb = do
    client ← connect mdb
    c ← collection client database collection_hostinfo
    (r, item) ← find_one c (by_host host) []
    pure (found r)

  unfoldable pub remove_host : Text → Text → Action ErrorCode
  remove_host host mdb = do
    client ← connect mdb
    c ← collection client database collection_hostinfo
    n ← remove c (by_host host)
    pure (checked n)

  -- The service does not hold the lock: its host is freed.
  unfoldable pub free_host : Text → Text → Action (Unit {0})
  free_host host mdb = do
    there ← is_host_exist host mdb
    if there then (remove_host host mdb >> pure tt) else pure tt

  -- The lock is tried and the file closed at once, which gives the lock up; the calls on the
  -- descriptor behind that find it closed.
  unfoldable pub check_process_alive : Text → Text → Text → Action Bool
  check_process_alive file host mdb = do
    opened ← on_os (λ s. open_file s file read_write_create)
    elim opened [
      | none ↦ exit 0
      | some fd ↦ do
        locked ← on_os (λ s. lock_file s fd)
        on_os (λ s. close s fd)
        if is_negative locked then (on_os (λ s. close s fd) >> pure true) else (do
          on_os (λ s. unlock_file s fd)
          free_host host mdb
          on_os (λ s. close s fd)
          pure false)
    ]

  -- `system`: the command may change the database, as the service does that it starts.
  unfoldable pub run_command : Text → Action ℤ
  run_command command w =
      let (r, (o, s)) = system w.os w.server command in (ret r, record w { os = o; server = s })

  -- One round of `while(is_running)`.
  unfoldable pub watch_round : Settings → Text → Action (Unit {0})
  watch_round s local_ip = do
    alive ← check_process_alive s.rec_pid_dir local_ip s.mongo_addr
    if alive then pure tt else (run_command s.rec_bin_dir >> pure tt)
    on_os (λ o. sleep o 5)

  -- What the handler of SIGINT and SIGTERM makes of `is_running`.
  abbrev pub sig_terminal : Bool → Bool
  sig_terminal is_running = false

  -- `while(is_running)`, for as many rounds as there are entries at most; an entry says whether a
  -- signal comes during its round. What `is_running` is at the end.
  unfoldable pub watch : List Bool → Bool → Settings → Text → Action Bool
  watch [] is_running s local_ip = pure is_running
  watch (signal ∷ signals) is_running s local_ip = elim is_running [
    | true ↦ do
      watch_round s local_ip
      watch signals (if signal then sig_terminal true else true) s local_ip
    | false ↦ pure false
  ]

  -- `main`, from the settings it reads; `GetStr` is never null, and an empty `bin_dir` is taken.
  unfoldable pub read_settings : MainKeyMap → Action Settings
  read_settings ini_reader = do
    (dae, ini_1) ← deref (get_str ini_reader (bytes "system") (bytes "daemon"))
    (child_bin_dir, ini_2) ← deref (get_str ini_1 (bytes "child") (bytes "bin_dir"))
    (net_type, ini_3) ← deref (get_str ini_2 (bytes "system") (bytes "net_type"))
    if null net_type then exit 0 else (do
      (mongo_addr, ini_4) ← deref (get_str ini_3 (bytes "mongodb") (bytes "address"))
      if null mongo_addr
          then exit 0
          else pure (record {
            is_daemon = text_eq dae (bytes "on");
            rec_bin_dir = take 1023 (child_bin_dir ++ bytes "sbin/pull");
            rec_pid_dir = take 1023 (child_bin_dir ++ bytes "log/pid");
            net_type = net_type;
            mongo_addr = mongo_addr;
          }))

  -- The watchdog in the background, or as it is: whether it goes on.
  unfoldable pub background : Bool → Text → Action Bool
  unfolding daemon
  background false pid_path = pure true
  background true pid_path = do failed ← daemon pid_path; pure (eq_ℤ failed (pos 0))

  -- What `main` does with the settings; the buffer of the address is empty before. Whether the loop
  -- would go on.
  unfoldable pub run : List Bool → Settings → Text → Action Bool
  unfolding background
  run signals s pid_path = do
    on ← background s.is_daemon pid_path
    if on
        then (do (r, local_ip) ← get_local_ip s.net_type []; watch signals true s local_ip)
        else pure false

  -- `realpath` into 256 bytes, which nothing reads: a longer path is written past them.
  unfoldable pub resolve : Text → Action (Unit {0})
  resolve argv_0 = do
    bin_dir ← gets (λ w. realpath w.os argv_0)
    if ltb (length bin_dir) 256 then pure tt else undefined_behaviour

  -- `main` from its `argv[0]`; the log is left out.
  unfoldable pub main : List Bool → Text → Action Bool
  unfolding read_settings run zeros resolve
  main signals argv_0 = do
    resolve argv_0
    found ← deref (get_cur_path_or_exit argv_0 (zeros 256) 256)
    elim found [
      | path_too_long ↦ exit 0
      | located sbin_path ↦ do
        conf ← gets (λ w. fopen w.os (beside sbin_path (bytes "../conf/1.conf")))
        ini_reader ← settings (load conf)
        s ← read_settings ini_reader
        run signals s (beside sbin_path (bytes "../log/pid"))
    ]

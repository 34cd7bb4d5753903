-- ===== src/Main.antt =====
-- The service's `main` (injectService/pull/src/main.cpp) and its signal handler, with `CRestApi::run`
-- up to libevent's loop: which handler answers which path. The log is left out.
pub mod Routes
pub mod Serves
use pull_stream.Base.{
  ℕ, pos, ◌==◌, [], ◌++◌, Bool, true, false, Option, none, some, Text, bytes, c_str, eq_ℤ, take,
  text_eq, if◌then◌else◌,
}
use pull_stream.Biz
use pull_stream.Cache.{remove_host}
use pull_stream.Common.{AppData, error_ok}
use pull_stream.External.{External}
use pull_stream.Ini.{
  MainKeyMap, Loaded, ini_success, ini_openfile_error, thrown, load, get_int, get_str,
}
use pull_stream.Paths.{get_cur_path}
use pull_stream.RestApi.{Reply, start, stop, start_i, stop_i, check_alive_i}
use pull_stream.RestApi.Init
use pull_stream.Utils.{daemon, get_local_ip}
use pull_stream.World.{
  World, Action, pure, gets, exit, assert, deref, on_os, undefined_behaviour, ◌>>=◌, ◌>>◌,
}

-- `char …[MAX_PATH_LENGTH] = {0}`
unfoldable pub zeros : ℕ → Text
zeros n = pull_stream.PString.padded n []

-- `snprintf(…, MAX_PATH_LENGTH, "%s/%s", sbin_path, name)`
abbrev pub beside : Text → Text → Text
beside sbin_path name = take 255 (c_str sbin_path ++ (bytes "/" ++ name))

module _ ⦃x : External⦄ where
  open x use {fopen, evhttp_start, pthread_create}

  unfoldable pub sig_handler_terminal : Action (Unit {0})
  sig_handler_terminal = remove_host >> exit 0

  -- The reader after `Load`, whose result is not looked at: an exception ends the process.
  abbrev pub settings : Loaded → Action MainKeyMap
  settings (ini_success m) = pure m
  settings ini_openfile_error = pure []
  settings thrown = assert false >> pure []

  -- `if (is_daemon) { if (ERROR_OK != CUtils::daemon(…)) exit(0); }`
  abbrev in_background : Bool → Text → Action (Unit {0})
  in_background false pid_path = pure tt
  in_background true pid_path = do e ← daemon pid_path; elim e [ error_ok ↦ pure tt | _ ↦ exit 0 ]

  -- The thread that looks for dead processes; what `create_schedule_thread` returns is not read.
  unfoldable pub create_schedule_thread : Action ℕ
  create_schedule_thread = do ret ← on_os pthread_create; if ret == 0 then pure 0 else pure 1

  -- The handlers that `run` registers, by path. For any other libevent answers.
  abbrev pub route : Text → Option (Option Text → AppData → Action Reply)
  route path =
      if text_eq path (bytes "/pull/inject/start")
      then some (λ body data'. start body (some data'))
      else if text_eq path (bytes "/pull/inject/stop")
      then some (λ body data'. stop body)
      else if text_eq path (bytes "/pull/inject/i/start")
      then some (λ body data'. start_i body (some data'))
      else if text_eq path (bytes "/pull/inject/i/stop")
      then some (λ body data'. stop_i body (some data'))
      else if text_eq path (bytes "/health/live")
      then some (λ body data'. check_alive_i)
      else none

  -- `CRestApi::run` up to `event_dispatch`. Where the port cannot be bound the log call hands the
  -- port, a number, to `%s`.
  unfoldable pub run : AppData → Action AppData
  run app_data = do
    bound ← on_os (λ s. evhttp_start s app_data.port)
    if bound then pure app_data else undefined_behaviour

  -- From the settings on.
  unfoldable pub main_with : MainKeyMap → Text → Action AppData
  unfolding run create_schedule_thread
  main_with ini_reader pid_path = do
    (dae, ini_1) ← deref (get_str ini_reader (bytes "system") (bytes "daemon"))
    in_background (text_eq dae (bytes "on")) pid_path
    (net_type, ini_2) ← deref (get_str ini_1 (bytes "system") (bytes "net_type"))
    (r, local_ip) ← get_local_ip net_type []
    (worker_num, ini_3) ← deref (get_int ini_2 (bytes "system") (bytes "worker"))
    if eq_ℤ worker_num (pos 0) then exit 0 else (do
      Biz.init worker_num
      app_data ← Init.init ini_3 local_ip
      create_schedule_thread
      run app_data)

  unfoldable pub main : Text → Action AppData
  unfolding main_with zeros
  main argv_0 = do
    (r, sbin_path) ← deref (get_cur_path argv_0 (zeros 256) 256)
    conf ← gets (λ w. fopen w.os (beside sbin_path (bytes "../conf/1.conf")))
    ini_reader ← settings (load conf)
    main_with ini_reader (beside sbin_path (bytes "../log/pid"))

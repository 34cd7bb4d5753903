-- ===== src/RestApi/Init.antt =====
-- `CRestApi::init`: the service is given its settings and registers its host.
use pull_stream.Base.{
  ℤ, pos, Bool, false, ◌≡◌, ◌≢◌, some, Text, bytes, eq_ℤ, eq_ℤ_iff, arith, if◌then◌else◌,
}
use pull_stream.Cache.{host_register, is_host_exist, register_host_to_cache, set_mongodb}
use pull_stream.Cache.Connected.{IsConnected, register_host_to_cache-connected}
use pull_stream.Common.{AppData}
use pull_stream.External.{External}
use pull_stream.Ini.{MainKeyMap, get_int, get_str}
use pull_stream.World.{World, ret, exited, Action, pure, exit, deref, ◌>>=◌, ◌>>◌}

module _ ⦃x : External⦄ where
  -- `app_data`, which the call sets, is its result; the call's own is 0. `GetStr` gives a pointer that
  -- is never null, so the test of the address is dead.
  unfoldable pub init : MainKeyMap → Text → Action AppData
  init ini_reader host = do
    (port, ini_reader') ← deref (get_int ini_reader (bytes "system") (bytes "listen"))
    if eq_ℤ port (pos 0) then exit 0 else (do
      (address, rest) ← deref (get_str ini_reader' (bytes "mongodb") (bytes "address"))
      set_mongodb address
      registered ← host_register host port
      if registered then pure (record { host = host; port = port }) else exit 0)

  -- With settings that give a port other than 0, `init` ends in one of two ways, by what the database
  -- at the address of the settings says of the host: it registers the host and returns, or, if the
  -- host is there already, exits with nothing registered.
  pub init_lem :
      (m m' m'' : MainKeyMap) (host address : Text) (port : ℤ) (there : Bool) (w : World)
      → get_int m (bytes "system") (bytes "listen") ≡ some (port, m')
      → port ≢ pos 0
      → get_str m' (bytes "mongodb") (bytes "address") ≡ some (address, m'')
      → IsConnected (record w { db_address = address })
      → let w' = record w { db_address = address } in
        is_host_exist host w' ≡ (ret there, w')
        → init m host w ≡ (
            if there then (exited 0, w') else (
              ret (record { host = host; port = port }),
              (register_host_to_cache host port w').1,
            ))
  unfolding init set_mongodb host_register
  init_lem m m' m'' host address port there w listen ne addr c answer =
      let b : eq_ℤ port (pos 0) ≡ false = ground (arith, eq_ℤ_iff port (pos 0)) in
      ground (
        arith,
        listen,
        b,
        addr,
        answer,
        register_host_to_cache-connected (record w { db_address = address }) c host port,
      )

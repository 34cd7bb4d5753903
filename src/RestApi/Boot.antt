-- ===== src/RestApi/Boot.antt =====
-- The service as it calls `CRestApi::init` (injectService/pull/src/app/rest_api.cpp), by the number of
-- its host's registrations in the database.
use pull_stream.Base.{
  if◌then◌else◌, Bool, ◌∙◌, ℤ, pos, ◌≡◌, ◌≢◌, refl, ap, true, false, some, Text, bytes, ltb,
}
use pull_stream.Cache.{register_host_to_cache, host_record}
use pull_stream.Cache.Connected.{register_host_to_cache-connected, IsConnected, host_at}
use pull_stream.Cache.Hosts.{hosts, is_host_exist-hosts, registered-hosts}
use pull_stream.Common.{ErrorCode}
use pull_stream.External.{External}
use pull_stream.External.Laws.{MongoLaws}
use pull_stream.Ini.{MainKeyMap, get_int, get_str}
use pull_stream.RestApi.Init
use pull_stream.RestApi.Init.{init_lem}
use pull_stream.World.{World, Outcome, ret, exited}

module _ ⦃x : External⦄ where
  open x use {collection_insert}

  -- A service that is about to call `init`, with the address of a database and a port in its
  -- settings, and a connection to that database at hand.
  pub record IsBooting (settings : MainKeyMap) (address : Text) (port : ℤ) (u : World)
      : Type 0 where
    pub after_port : MainKeyMap
    pub after_address : MainKeyMap
    pub listen : get_int settings (bytes "system") (bytes "listen") ≡ some (port, after_port)
    pub port_ne : port ≢ pos 0
    pub read :
        get_str after_port (bytes "mongodb") (bytes "address") ≡ some (address, after_address)
    pub connected : IsConnected (record u { db_address = address })

  module _ (laws : MongoLaws) (settings : MainKeyMap) (address host : Text) (port : ℤ) (u : World)
      (b : IsBooting settings address port u) where
    -- The service at the database of its settings.
    abbrev pub at_database : World
    at_database = record u { db_address = address }

    found_there :
        (there : Bool)
        → ltb 0 (hosts laws u.server (host_at at_database) host) ≡ there
        → Init.init settings host u ≡ (
            if there then (exited 0, at_database) else (
              ret (record { host = host; port = port }),
              (register_host_to_cache host port at_database).1,
            ))
    found_there there e =
        init_lem settings b.after_port b.after_address host address port there u b.listen b.port_ne
          b.read b.connected
          (is_host_exist-hosts laws at_database host b.connected
            ∙ ap (λ (q : Bool). (ret q, at_database)) e)

    pub init_exits :
        hosts laws u.server (host_at at_database) host ≡ 1
        → Init.init settings host u ≡ (exited 0, at_database)
    init_exits one = found_there true (rw one refl)

    -- The service once its host is registered.
    abbrev pub at_work : World
    at_work = record at_database {
      server = (collection_insert u.server (host_at at_database) (host_record host port)).1;
      _host = host;
      _port = port;
    }

    pub init_registers :
        hosts laws u.server (host_at at_database) host ≡ 0
        → Init.init settings host u ≡ (ret (record { host = host; port = port }), at_work)
    init_registers none_left =
        found_there false (rw none_left refl)
        ∙ ap (λ (q : Outcome ErrorCode × World). (ret (record { host = host; port = port }), q.1))
            (register_host_to_cache-connected at_database b.connected host port)

    pub at_work-hosts :
        hosts laws u.server (host_at at_database) host ≡ 0
        → (collection_insert u.server (host_at at_database) (host_record host port)).0 ≡ true
        → hosts laws at_work.server (host_at at_database) host ≡ 1
    at_work-hosts none_left stored =
        registered-hosts laws at_database b.connected host port
          (rw (is_host_exist-hosts laws at_database host b.connected, none_left) refl) stored

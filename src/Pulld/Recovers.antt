-- ===== src/Pulld/Recovers.antt =====
-- The watchdog's round (injectService/pulld/src/main.cpp) between two starts of the service
-- (`CRestApi::init` of injectService/pull/src/app/rest_api.cpp).
use pull_stream.Base.{inl, inr, ℕ, ℤ, ◌≡◌, ap, true, false, some, Text, arith}
use pull_stream.Cache.{host_record}
use pull_stream.Cache.Connected.{IsConnected, host_at}
use pull_stream.Cache.Hosts.{hosts}
use pull_stream.Common.{AppData}
use pull_stream.External.{External, read_write_create}
use pull_stream.External.Laws.{MongoLaws}
use pull_stream.Ini.{MainKeyMap}
use pull_stream.Pulld.{Settings, watch_round}
use pull_stream.Pulld.Freed.{Removes}
use pull_stream.Pulld.Watch.{tried, freed, lock_answer, watch_round_lem}
use pull_stream.RestApi.Init
use pull_stream.RestApi.Boot.{IsBooting, init_exits, init_registers, at_work-hosts}
use pull_stream.RestApi.Init.{init_lem}
use pull_stream.World.{World, Outcome, ret, exited}

module _ ⦃x : External⦄ where
  open x use {Server, system, close, unlock_file, open_file, collection_insert}

  module _ (laws : MongoLaws) (s : Settings) (host : Text) (v : World) (fd : ℕ)
      (here : s.mongo_addr ≡ v.db_address)
      (opened : (open_file v.os s.rec_pid_dir read_write_create).0 ≡ some fd) where
    -- A service has died: its host is registered, and nothing holds the lock of its pid file.
    pub record IsLeftBehind : Type 0 where
      pub dead : lock_answer v.os s.rec_pid_dir fd ≡ false
      pub connected : IsConnected v
      pub one : hosts laws v.server (host_at v) host ≡ 1
      pub removes : Removes laws v connected host

    -- The database as the round hands it to the command that it runs.
    abbrev pub freed_server : Server
    freed_server = (freed laws s host v fd here opened).server

    watch_round-none_left :
        IsLeftBehind
        → (hosts laws freed_server (host_at v) host ≡ 0)
          × ((watch_round s host v).1.server
              ≡ (system
                  (close (unlock_file (tried v.os s.rec_pid_dir fd) fd).1 fd).1
                  freed_server
                  s.rec_bin_dir).1.1)
    watch_round-none_left left =
        elim (watch_round_lem laws s host v fd here opened left.connected (omega (arith, left.one))
          left.removes) [
            | inl (held, r) ↦ cc (held, left.dead)
            | inr (dead, r) ↦ (r.none_left, r.server)
          ]

    -- Where a service has died, its pid file can be opened, and the database reports the removal of
    -- its registration: a service with the same address of the database and the same host exits in
    -- `init` on the database as it was left; a round of the watchdog runs its command on a database
    -- on which `init` returns, and the host is registered once if the database stores the
    -- registration.
    pub init-watch_round :
        (settings : MainKeyMap) (port : ℤ) (before after : World)
        → IsLeftBehind
        → IsBooting settings v.db_address port before
        → IsBooting settings v.db_address port after
        → before.server ≡ v.server
        → after.server ≡ freed_server
        → (collection_insert after.server (host_at v) (host_record host port)).0 ≡ true
        → ((Init.init settings host before).0 ≡ exited 0)
          × ((Init.init settings host after).0 ≡ ret (record { host = host; port = port }))
          × (hosts laws (Init.init settings host after).1.server (host_at v) host ≡ 1)
          × ((watch_round s host v).1.server
              ≡ (system
                  (close (unlock_file (tried v.os s.rec_pid_dir fd) fd).1 fd).1
                  after.server
                  s.rec_bin_dir).1.1)
    init-watch_round settings port before after left b a same same' stored =
        let none_left : hosts laws after.server (host_at v) host ≡ 0 =
          rw same' (watch_round-none_left left).0 in
        let started = init_registers laws settings v.db_address host port after a none_left in
        (
          ap (λ (q : Outcome AppData × World). q.0)
              (init_exits laws settings v.db_address host port before b (rw same (left.one))),
          ap (λ (q : Outcome AppData × World). q.0) started,
          rw started (at_work-hosts laws settings v.db_address host port after a none_left stored),
          rw same' (watch_round-none_left left).1,
        )

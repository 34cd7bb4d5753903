-- ===== src/Main/Serves.antt =====
-- The start of the service (`main` of injectService/pull/src/main.cpp, behind the look for its folder),
-- up to libevent's loop.
use pull_stream.Base.{
  All, ℕ, zero, suc, ◌+◌, ◌<◌, ℤ, pos, ◌≡◌, ◌≢◌, refl, sym, ap, ◌∙◌, true, false, List, [], some,
  Text, bytes, text_eq, eq_ℤ, get_elem?, arith,
}
use mathlib.Core.Path.{subst}
use pull_stream.Biz
use pull_stream.Biz.Queues.{idle_worker, ThreadsStart, init-IsRunning, init-server, idle_workers}
use pull_stream.Bson.{Doc}
use pull_stream.Cache.{by_sid, host_record, collection_process, collection_hostinfo}
use pull_stream.Cache.Records.{IsRecord}
use pull_stream.External.Counts.{count}
use pull_stream.Biz.Turns.Ready.{IsServing}
use pull_stream.Cache.Connected.{host_at, process_at}
use pull_stream.Cache.Hosts.{hosts}
use pull_stream.External.{External, Collection}
use pull_stream.External.Laws.{MongoLaws, JsonLaws}
use pull_stream.Ini.{MainKeyMap, get_int, get_str}
use pull_stream.Main.{main_with}
use pull_stream.Process.Views.{IsConsistent}
use pull_stream.RestApi.Boot.{IsBooting, at_work, init_registers}
use pull_stream.Utils.{get_local_ip}
use pull_stream.World.{WorkerContext, World, ret}

-- Settings of a service in the foreground, as `main` reads them one after another.
pub record HasSettings (m : MainKeyMap) : Type 0 where
  pub dae : Text
  pub net_type : Text
  pub workers : ℕ
  pub m_1 : MainKeyMap
  pub m_2 : MainKeyMap
  pub m_3 : MainKeyMap
  pub read_daemon : get_str m (bytes "system") (bytes "daemon") ≡ some (dae, m_1)
  pub foreground : text_eq dae (bytes "on") ≡ false
  pub read_net : get_str m_1 (bytes "system") (bytes "net_type") ≡ some (net_type, m_2)
  pub read_worker : get_int m_2 (bytes "system") (bytes "worker") ≡ some (pos workers, m_3)
  pub some_worker : 0 < workers

module _ ⦃x : External⦄ where
  nothing_waits :
      (n k i : ℕ) (c : WorkerContext) → get_elem? (idle_workers n k) i ≡ some c → c.queue ≡ []
  nothing_waits zero k i c e = cc
  nothing_waits (suc n) k zero c e =
      let same : idle_worker k ≡ c = cc in ap (λ (d : WorkerContext). d.queue) (sym same)
  nothing_waits (suc n) k (suc i) c e = nothing_waits n (k + 1) i c e

module _ ⦃x : External⦄ (db : MongoLaws) (json : JsonLaws) where
  open x use {Os, Server, evhttp_start, pthread_create}
  open db use {docs, matches, insert_elsewhere}

  -- Every port can be bound.
  abbrev pub Binds : Type 0
  Binds = (o : Os) (port : ℤ) → (evhttp_start o port).0 ≡ true

  module _ (m : MainKeyMap) (s : HasSettings m) (ok : ThreadsStart) (binds : Binds) (w : World)
      (r : ℤ) (ip : Text) (o : Os)
      (got : get_local_ip s.net_type [] w ≡ (ret (r, ip), record w { os = o })) (address : Text)
      (port : ℤ) where
    -- The service with its workers.
    abbrev pub with_workers : World
    with_workers = (Biz.init (pos s.workers) (record w { os = o })).1

    module _ (b : IsBooting s.m_3 address port with_workers) where
      abbrev registered : World
      registered = at_work db s.m_3 address ip port with_workers b

      abbrev at_end : World
      at_end = record registered { os = (evhttp_start (pthread_create registered.os).1 port).1 }

      main_with-at_end :
          (pid_path : Text)
          → hosts db with_workers.server (host_at (record with_workers { db_address = address })) ip
            ≡ 0
          → main_with m pid_path w ≡ (ret (record { host = ip; port = port }), at_end)
      unfolding main_with
      main_with-at_end pid_path free =
          let started = (init-server ok s.workers (record w { os = o })).0 in
          let init' = init_registers db s.m_3 address ip port with_workers b free in
          let some_number : eq_ℤ (pos s.workers) (pos 0) ≡ false = ground (arith, s.some_worker) in
          ground (
            arith,
            s.read_daemon,
            s.foreground,
            s.read_net,
            got,
            s.read_worker,
            some_number,
            started,
            init',
            binds (pthread_create registered.os).1 port,
          )

      elsewhere : process_at at_end ≢ host_at at_end
      unfolding bytes
      elsewhere e =
          let name : collection_process ≡ collection_hostinfo = ap (λ (c : Collection). c.name) e in
          cc

      same_docs :
          docs at_end.server (process_at at_end)
          ≡ docs w.server (process_at (record w { db_address = address }))
      same_docs =
          insert_elsewhere with_workers.server (host_at at_end) (process_at at_end)
            (host_record ip port) elsewhere
          ∙ ap (λ (v : Server). docs v (process_at at_end))
              (init-server ok s.workers (record w { os = o })).1

      at_end-IsConsistent :
          IsConsistent db json (record w { db_address = address }) → IsConsistent db json at_end
      at_end-IsConsistent k = record {
        connected = record { client = k.connected.client; handle = k.connected.handle };
        unique = record {
          at_most_one = λ sid.
              omega (arith, ap (count (matches (by_sid sid))) same_docs, k.unique.at_most_one sid);
        };
        records = subst (λ (ds : List Doc). All (IsRecord db json) ds) (sym same_docs) k.records;
      }

      -- With settings of a service in the foreground, threads that start and a port that can be bound,
      -- on a database that is consistent, and where the address that the service finds for itself is
      -- not registered: `main` gets to libevent's loop, as the host of that address, and the service is
      -- at work, with as many workers as the settings say and no event before them.
      pub main_with-IsServing :
          (pid_path : Text)
          → w.worker_list ≡ []
          → IsConsistent db json (record w { db_address = address })
          → hosts db w.server (host_at (record w { db_address = address })) ip ≡ 0
          → ((main_with m pid_path w).0 ≡ ret (record { host = ip; port = port }))
            × IsServing db json s.workers (main_with m pid_path w).1
      main_with-IsServing pid_path fresh k free =
          let still = (init-server ok s.workers (record w { os = o })).1 in
          let (running, list, index) =
            init-IsRunning ok s.workers (record w { os = o }) s.some_worker fresh in
          rw (main_with-at_end pid_path (rw still free)) (
            refl,
            record {
              running = record {
                max = running.max;
                workers = running.workers;
                index = running.index;
              };
              consistent = at_end-IsConsistent k;
              waiting = λ i c e.
                  let empty =
                    nothing_waits s.workers 0 i c (sym (ap (λ l. get_elem? l i) list) ∙ e) in
                  rw empty tt;
            },
          )

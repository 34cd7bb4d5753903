-- ===== src/Process/Unique.antt =====
-- The number of records of a stream, through the operations of `ProcessCtlModule`
-- (injectService/pull/src/app/processCommonApi.cpp), run one after another.
use pull_stream.Base.{
  Bool, true, false, is_negative, List, [], ◌∷◌, ◌≡◌, refl, sym, Text, if◌then◌else◌,
}
use pull_stream.Bson.{Doc}
use pull_stream.Cache.{by_sid}
use pull_stream.Cache.Connected.{IsConnected, process_at, first}
use pull_stream.Cache.Streams.{streams, IsUnique, insert-IsUnique, remove-IsUnique, update-IsUnique}
use pull_stream.Common.{ProcessInfo}
use pull_stream.External.{External}
use pull_stream.External.Laws.{MongoLaws}
use pull_stream.Process.{
  ffmpeg_command, fork_and_add, spawn_process, spawn_process_i, process_reload, remove_process,
}
use pull_stream.Process.Calls.{
  cached, fork_and_add-connected, spawn_process-connected, spawn_process_i-connected,
  remove_process-connected, process_reload-connected,
}
use pull_stream.World.{World, Outcome}

module _ ⦃x : External⦄ (laws : MongoLaws) where
  open x use {Os, Server, collection_find, collection_insert, collection_remove, fork, getpid}
  open laws use {docs, matches, find_lem}

  -- A connected service whose cache has at most one record for each stream.
  pub record IsSound (w : World) : Type 0 where
    pub connected : IsConnected w
    pub unique : IsUnique laws (process_at w) w.server

  -- The state after a call, whatever its outcome.
  abbrev pub Keeps : {A : Type 0} → Outcome A × World → Type 0
  Keeps r = IsSound r.1

  pub os-IsSound : (w : World) (o : Os) → IsSound w → IsSound (record w { os = o })
  os-IsSound w o h = record {
    connected = record { client = h.connected.client; handle = h.connected.handle };
    unique = record { at_most_one = h.unique.at_most_one };
  }

  pub server-IsSound :
      (w : World) (s : Server)
      → IsSound w
      → IsUnique laws (process_at w) s
      → IsSound (record w { server = s })
  server-IsSound w s h u = record {
    connected = record { client = h.connected.client; handle = h.connected.handle };
    unique = record { at_most_one = u.at_most_one };
  }

  pub Keeps-if :
      {A : Type 0} (b : Bool) (r q : Outcome A × World)
      → Keeps r
      → Keeps q
      → Keeps (if b then r else q)
  Keeps-if true r q hr hq = hr
  Keeps-if false r q hr hq = hq

  Keeps-first :
      {A : Type 0} (ds : List Doc) (r : Outcome A × World) (f : Doc → Outcome A × World)
      → (ds ≡ [] → Keeps r)
      → ((d : Doc) → Keeps (f d))
      → Keeps (first ds r f)
  Keeps-first [] r f hr hf = hr refl
  Keeps-first (d ∷ ds) r f hr hf = hf d

  found_none :
      (w : World) (sid : Text)
      → collection_find w.server (process_at w) (by_sid sid) ≡ []
      → streams laws w.server (process_at w) sid ≡ 0
  found_none w sid e = rw (sym (find_lem w.server (process_at w) (by_sid sid)), e)

  fork_and_add-IsSound :
      (w : World) (info : ProcessInfo)
      → IsSound w
      → streams laws w.server (process_at w) info.sid ≡ 0
      → Keeps (fork_and_add info w)
  fork_and_add-IsSound w info h absent = rw (fork_and_add-connected w h.connected info) (
      let (pid, o) = fork w.os (ffmpeg_command info) in
      Keeps-if (is_negative pid) _ _ (os-IsSound w o h) (
        server-IsSound (record w { os = o }) _ (os-IsSound w o h)
          (insert-IsUnique laws w.server (process_at w) (record info { pid = pid }) (getpid o)
            absent h.unique)))

  pub spawn_process-IsSound :
      (w : World) (info : ProcessInfo) → IsSound w → Keeps (spawn_process info w)
  spawn_process-IsSound w info h =
      rw (spawn_process-connected w h.connected info)
        (Keeps-first _ _ _ (λ e. fork_and_add-IsSound w info h (found_none w info.sid e)) (λ d. h))

  pub spawn_process_i-IsSound :
      (w : World) (info : ProcessInfo) → IsSound w → Keeps (spawn_process_i info w)
  spawn_process_i-IsSound w info h = rw (spawn_process_i-connected w h.connected info) (
      let (pid, o) = fork w.os (ffmpeg_command info) in
      Keeps-if (is_negative pid) _ _ (os-IsSound w o h) (
        server-IsSound (record w { os = o }) _ (os-IsSound w o h)
          (update-IsUnique laws w.server (process_at w) (by_sid info.sid) pid h.unique)))

  pub process_reload-IsSound : (w : World) (sid : Text) → IsSound w → Keeps (process_reload sid w)
  process_reload-IsSound w sid h =
      rw (process_reload-connected w h.connected sid)
        (Keeps-first _ _ _ (λ _. h) (λ d. spawn_process_i-IsSound w (cached d) h))

  pub remove_process-IsSound :
      (w : World) (info : ProcessInfo) → IsSound w → Keeps (remove_process info w)
  remove_process-IsSound w info h = rw (remove_process-connected w h.connected info) (
      Keeps-first _ _ _ (λ _. h)
        (λ d.
          server-IsSound _ _ (os-IsSound w _ h)
            (remove-IsUnique laws w.server (process_at w) (by_sid (cached d).sid) h.unique)))

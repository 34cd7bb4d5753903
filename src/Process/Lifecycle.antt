-- ===== src/Process/Lifecycle.antt =====
-- A stream from its start to its removal, as the cache and the kernel see it.
use pull_stream.Base.{
  IsInt32, Bool, true, false, is_negative, List, [], ◌∷◌, ◌++◌, ◌≡◌, refl, ap, sym, ◌∙◌, length,
  none, some, Text, bytes, arith,
}
use pull_stream.Bson.{Doc}
use pull_stream.Cache.{by_sid, get_process_info}
use pull_stream.Cache.Connected.{IsConnected, process_at, get_process_info-connected}
use pull_stream.Cache.Streams.{
  streams, IsStorable, parser-process_record, matches-process_record, streams-remove_done,
}
use pull_stream.Common.{ErrorCode, error_ok, stream_exist, ProcessInfo, new_process_info}
use pull_stream.External.{External}
use pull_stream.External.Counts.{keep-append}
use pull_stream.External.Laws.{MongoLaws, JsonLaws, Inserted, keep}
use pull_stream.Process.{ffmpeg_command, spawn_process, remove_process, sigkill}
use pull_stream.Process.Calls.{
  cached, forked_record, fork_and_add-connected, spawn_process-connected, remove_process-connected,
}
use pull_stream.World.{World, Outcome, ret}

nil_of_length : (ds : List Doc) → length ds ≡ 0 → ds ≡ []
nil_of_length [] h = refl
nil_of_length (d ∷ ds) h = absurd (omega arith)

-- In a collection with no document for a query, a matching one that is inserted is the only one.
append_nil_parts : (as' bs : List Doc) → as' ++ bs ≡ [] → (as' ≡ []) × (bs ≡ [])
append_nil_parts [] bs h = (refl, h)
append_nil_parts (a ∷ as') bs h = cc

keep-Inserted :
    (p : Doc → Bool) (d : Doc) {before after : List Doc}
    → Inserted d before after
    → p d ≡ true
    → keep p before ≡ []
    → keep p after ≡ d ∷ []
keep-Inserted p d {before} i h e =
    let parts =
      append_nil_parts (keep p i.pre) (keep p i.post)
        (sym (keep-append p i.pre i.post) ∙ ap (keep p) (sym i.was) ∙ e) in
    rw i.is (keep-append p i.pre (d ∷ i.post) ∙ ground (arith, parts, h))

module _ ⦃x : External⦄ where
  open x use {
    Os, Server, collection_insert, collection_update, collection_remove, collection_find, fork,
    kill, getpid, junk,
  }

  -- The database has no record of a stream, the fork succeeds, and the record is stored.
  pub record Starts (w : World) (info : ProcessInfo) : Type 0 where
    pub connected : IsConnected w
    pub absent : collection_find w.server (process_at w) (by_sid info.sid) ≡ []
    pub forked : is_negative (fork w.os (ffmpeg_command info)).0 ≡ false
    pub stored : (collection_insert w.server (process_at w) (forked_record w info)).0 ≡ true

  -- The service after it.
  abbrev pub started : World → ProcessInfo → World
  started w info = record w {
    os = (fork w.os (ffmpeg_command info)).1;
    server = (collection_insert w.server (process_at w) (forked_record w info)).1;
  }

  pub spawn_process-Starts :
      (w : World) (info : ProcessInfo)
      → Starts w info
      → spawn_process info w ≡ (ret error_ok, started w info)
  spawn_process-Starts w info s = ground (
    arith,
    spawn_process-connected w s.connected info,
    fork_and_add-connected w s.connected info,
    s.absent,
    s.forked,
  )

  started-IsConnected :
      (w : World) (info : ProcessInfo) → IsConnected w → IsConnected (started w info)
  started-IsConnected w info c = record { client = c.client; handle = c.handle }

  -- What the cache should say of the stream then.
  abbrev pub running : World → ProcessInfo → ProcessInfo
  running w info =
      let (pid, o) = fork w.os (ffmpeg_command info) in
      record info { pid = pid; ppid = getpid o; status = bytes "active" }

  module _ (db : MongoLaws) (json : JsonLaws) (w : World) (info : ProcessInfo) (s : Starts w info)
      (ok : IsStorable json (record info { pid = (fork w.os (ffmpeg_command info)).0 }))
      (me : IsInt32 (getpid (fork w.os (ffmpeg_command info)).1)) where
    open db use {matches, find_lem, insert_true}

    found_after :
        collection_find (started w info).server (process_at w) (by_sid info.sid)
        ≡ forked_record w info ∷ []
    found_after =
        find_lem (started w info).server (process_at w) (by_sid info.sid)
        ∙ keep-Inserted (matches (by_sid info.sid)) (forked_record w info)
            (insert_true w.server (process_at w) (forked_record w info) s.stored)
            ((matches-process_record db (record info { pid = (fork w.os (ffmpeg_command info)).0 })
                (getpid (fork w.os (ffmpeg_command info)).1) info.sid).1
              refl)
            (sym (find_lem w.server (process_at w) (by_sid info.sid)) ∙ s.absent)

    cached_after : cached (forked_record w info) ≡ running w info
    cached_after =
        ap (λ (p : ErrorCode × ProcessInfo). p.1)
          (parser-process_record json (record info { pid = (fork w.os (ffmpeg_command info)).0 })
            (getpid (fork w.os (ffmpeg_command info)).1) ok me (new_process_info junk))

    -- Where the database holds no record of a stream, its texts are UTF-8 without null bytes and the
    -- numbers and both pids of 32 bits, the fork succeeds and the record is stored: `spawn_process`
    -- succeeds, and then `get_process_info` gives back what was asked for, with the
    -- child's pid, this process's pid and the status `active`.
    pub get_process_info-spawn_process :
        (spawn_process info w ≡ (ret error_ok, started w info))
        × (get_process_info info.sid (spawn_process info w).1
            ≡ (ret (some (running w info)), started w info))
    get_process_info-spawn_process =
        let spawned = spawn_process-Starts w info s in
        (
          spawned,
          rw spawned (
              get_process_info-connected (started w info) (started-IsConnected w info s.connected)
                info.sid
              ∙ ground (arith, found_after, cached_after)),
        )

    -- Then another `spawn_process` of that stream is refused, with nothing forked and nothing stored.
    pub spawn_process_again :
        (again : ProcessInfo)
        → again.sid ≡ info.sid
        → spawn_process again (started w info) ≡ (ret stream_exist, started w info)
    spawn_process_again again e = ground (
      arith,
      spawn_process-connected (started w info) (started-IsConnected w info s.connected) again,
      ap (λ (sid : Text). collection_find (started w info).server (process_at w) (by_sid sid)) e,
      found_after,
    )

    abbrev stopped : World
    stopped = record (started w info) {
      server = (collection_remove (started w info).server (process_at w) (by_sid info.sid)).1;
      os = (kill (started w info).os (running w info).pid sigkill).1;
    }

    remove_process_stops :
        (stop : ProcessInfo)
        → stop.sid ≡ info.sid
        → remove_process stop (started w info) ≡ (ret error_ok, stopped)
    remove_process_stops stop e =
        remove_process-connected (started w info) (started-IsConnected w info s.connected) stop
        ∙ rw (e, found_after, cached_after)

    streams_before : streams db (started w info).server (process_at w) info.sid ≡ 1
    streams_before =
        ap length
          (sym (find_lem (started w info).server (process_at w) (by_sid info.sid)) ∙ found_after)

    stopped-found :
        (collection_remove (started w info).server (process_at w) (by_sid info.sid)).0 ≡ true
        → collection_find stopped.server (process_at w) (by_sid info.sid) ≡ []
    stopped-found done =
        find_lem stopped.server (process_at w) (by_sid info.sid)
        ∙ nil_of_length _ (
            omega (
              arith,
              streams_before,
              streams-remove_done db (started w info).server (process_at w) info.sid done
                  (omega (arith, streams_before)),
            ))

    -- Where the database holds no record of a stream, its texts are UTF-8 without null bytes and the
    -- numbers and both pids of 32 bits, the fork succeeds and the record is stored: a
    -- `remove_process` of that stream behind its `spawn_process`, where the database reports the
    -- removal, succeeds; the child gets SIGKILL, under the pid that the fork returned, and the stream
    -- is not in the cache.
    pub remove_process-spawn_process :
        (stop : ProcessInfo)
        → stop.sid ≡ info.sid
        → (collection_remove (started w info).server (process_at w) (by_sid info.sid)).0 ≡ true
        → let w' = (remove_process stop (spawn_process info w).1).1 in
          ((remove_process stop (spawn_process info w).1).0 ≡ ret error_ok)
          × (w'.os ≡ (kill (started w info).os (running w info).pid sigkill).1)
          × (get_process_info info.sid w' ≡ (ret none, w'))
    remove_process-spawn_process stop e done =
        let gone =
          ap (λ (p : Outcome ErrorCode × World). remove_process stop p.1)
            (spawn_process-Starts w info s)
          ∙ remove_process_stops stop e in
        rw gone (
          refl,
          refl,
          get_process_info-connected stopped
                (record { client = s.connected.client; handle = s.connected.handle }) info.sid
              ∙ rw (stopped-found done),
        )

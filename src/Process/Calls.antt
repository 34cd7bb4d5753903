-- ===== src/Process/Calls.antt =====
-- What each operation of `ProcessCtlModule` does on a connected service, on every branch.
use pull_stream.Base.{is_negative, List, [], ◌∷◌, ◌≡◌, refl, Text, arith, if◌then◌else◌}
use pull_stream.Bson.{Doc}
use pull_stream.Cache.{by_sid, set_pid, process_record, parser}
use pull_stream.Cache.Connected.{
  IsConnected, process_at, first, is_process_exist-connected, get_process_info-connected,
  add_process_to_cache-connected, update_process_info-connected, remove_process_by_stream-connected,
}
use pull_stream.Common.{
  ErrorCode, error_ok, stream_exist, fork_failed, stream_not_exist, ProcessInfo, new_process_info,
}
use pull_stream.External.{bson_as_json, External}
use pull_stream.Process.{
  ffmpeg_command, fork_and_add, spawn_process, spawn_process_i, process_reload, remove_process,
  sigkill,
}
use pull_stream.World.{World, Outcome, ret}

module _ ⦃x : External⦄ where
  open x use {
    Os, Server, collection_insert, collection_update, collection_remove, collection_find, fork,
    kill, getpid, junk,
  }

  -- The world after a fork, or a signal.
  abbrev pub with_os : World → Os → World
  with_os w o = record w { os = o }

  abbrev pub with_server : World → Server → World
  with_server w s = record w { server = s }

  with_os-IsConnected : (w : World) (o : Os) → IsConnected w → IsConnected (with_os w o)
  with_os-IsConnected w o c = record { client = c.client; handle = c.handle }

  -- The record that a fork in world `w` leaves for `info`.
  abbrev pub forked_record : World → ProcessInfo → Doc
  forked_record w info =
      let (pid, o) = fork w.os (ffmpeg_command info) in
      process_record (record info { pid = pid }) (getpid o)

  -- What the cache says of a stream, from the first document found under its id.
  abbrev pub cached : Doc → ProcessInfo
  cached d = (parser (bson_as_json d) (new_process_info junk)).1

  module _ (w : World) (c : IsConnected w) (info : ProcessInfo) where
    pub fork_and_add-connected : fork_and_add info w ≡ (
        let (pid, o) = fork w.os (ffmpeg_command info) in
        if is_negative pid then (ret fork_failed, with_os w o) else (
          ret error_ok,
          record w {
            os = o;
            server = (collection_insert w.server (process_at w) (forked_record w info)).1;
          },
        ))
    unfolding fork_and_add
    fork_and_add-connected =
        let (pid, o) = fork w.os (ffmpeg_command info) in
        ground (
          arith,
          add_process_to_cache-connected (with_os w o) (with_os-IsConnected w o c)
              (record info { pid = pid }),
        )

    pub spawn_process-connected :
        spawn_process info w
        ≡ first
            (collection_find w.server (process_at w) (by_sid info.sid))
            (fork_and_add info w)
            (λ _. (ret stream_exist, w))
    unfolding spawn_process
    spawn_process-connected =
        ground (arith, is_process_exist-connected w c info.sid (new_process_info junk))

    pub spawn_process_i-connected : spawn_process_i info w ≡ (
        let (pid, o) = fork w.os (ffmpeg_command info) in
        if is_negative pid then (ret fork_failed, with_os w o) else (
          ret error_ok,
          record w {
            os = o;
            server = (collection_update w.server (process_at w) (by_sid info.sid) (set_pid pid)).1;
          },
        ))
    unfolding spawn_process_i
    spawn_process_i-connected =
        let (pid, o) = fork w.os (ffmpeg_command info) in
        ground (
          arith,
          update_process_info-connected (with_os w o) (with_os-IsConnected w o c)
              (record info { pid = pid }),
        )

    -- `remove_process`, by what is found under the stream's id.
    abbrev pub removed : List Doc → Outcome ErrorCode × World
    removed ds =
        first ds (ret stream_not_exist, w)
          (λ d. (
            ret error_ok,
            record w {
              server = (collection_remove w.server (process_at w) (by_sid (cached d).sid)).1;
              os = (kill w.os (cached d).pid sigkill).1;
            },
          ))

    remove_process-removed :
        (ds : List Doc)
        → collection_find w.server (process_at w) (by_sid info.sid) ≡ ds
        → remove_process info w ≡ removed ds
    unfolding remove_process
    remove_process-removed [] e = ground (arith, get_process_info-connected w c info.sid)
    remove_process-removed (d ∷ ds) e = ground (
      arith,
      get_process_info-connected w c info.sid,
      remove_process_by_stream-connected w c (cached d).sid,
    )

    pub remove_process-connected :
        remove_process info w ≡ removed (collection_find w.server (process_at w) (by_sid info.sid))
    remove_process-connected = remove_process-removed _ refl

  module _ (w : World) (c : IsConnected w) (sid : Text) where
    -- `process_reload`, by what is found under the stream's id.
    abbrev pub reloaded : List Doc → Outcome ErrorCode × World
    reloaded ds =
        first ds (ret stream_not_exist, w) (λ d. (ret error_ok, (spawn_process_i (cached d) w).1))

    process_reload-reloaded :
        (ds : List Doc)
        → collection_find w.server (process_at w) (by_sid sid) ≡ ds
        → process_reload sid w ≡ reloaded ds
    unfolding process_reload
    process_reload-reloaded [] e =
        ground (arith, is_process_exist-connected w c sid (new_process_info junk))
    process_reload-reloaded (d ∷ ds) e = ground (
      arith,
      is_process_exist-connected w c sid (new_process_info junk),
      spawn_process_i-connected w c (cached d),
    )

    pub process_reload-connected :
        process_reload sid w ≡ reloaded (collection_find w.server (process_at w) (by_sid sid))
    process_reload-connected = process_reload-reloaded _ refl

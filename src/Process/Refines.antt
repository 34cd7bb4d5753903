-- ===== src/Process/Refines.antt =====
-- `spawn_process` and `remove_process` (injectService/pull/src/app/processCommonApi.cpp), against the
-- set of streams of Process/Registry.
use pull_stream.Base.{
  false, is_negative, List, [], ◌∷◌, ◌≡◌, inl, inr, refl, ap, ◌∙◌, Text, c_str, arith, Bool-cases,
}
use pull_stream.Bson.{Doc}
use pull_stream.Cache.{by_sid}
use pull_stream.Cache.Connected.{process_at, first}
use pull_stream.Cache.Records.{
  All-Inserted, All-Replaced, IsRecord, process_record-IsRecord, parser-IsRecord, matches-IsRecord,
  with_pid-IsStorable,
}
use pull_stream.Cache.Streams.{IsStorable, insert-IsUnique, remove-IsUnique}
use pull_stream.Common.{
  ErrorCode, error_ok, stream_exist, fork_failed, stream_not_exist, ProcessInfo, new_process_info,
}
use pull_stream.External.{External}
use pull_stream.External.Laws.{MongoLaws, JsonLaws}
use pull_stream.Process.{ffmpeg_command, fork_and_add, spawn_process, remove_process, sigkill}
use pull_stream.Process.Calls.{
  forked_record, cached, fork_and_add-connected, spawn_process-connected, remove_process-connected,
  removed,
}
use pull_stream.Process.Registry.{Request, Registers}
use pull_stream.World.{World, ret}
use pull_stream.Process.Views.{
  IsReliable, IsConsistent, view, Refines, streams-inserted, streams-removed, view-absent,
  view-found, found-IsRecord, Refines-same,
}

module _ ⦃x : External⦄ (db : MongoLaws) (json : JsonLaws) where
  open x use {
    Os, collection_insert, collection_update, collection_remove, collection_find, fork, kill,
    getpid, junk,
  }
  open db use {docs, matches, updated, insert_true, remove_any, update_any}

  module _ (reliable : IsReliable) (w : World) (k : IsConsistent db json w) where
    -- A child that runs, with its record.
    forked-Refines :
        (info : ProcessInfo)
        → IsStorable json info
        → view db json w info.sid ≡ false
        → let (pid, o) = fork w.os (ffmpeg_command info) in
          Refines db json w (Request.start info.sid) (
            ret error_ok,
            record w {
              os = o;
              server = (collection_insert w.server (process_at w) (forked_record w info)).1;
            },
          )
    forked-Refines info ok absent =
        let (pid, o) = fork w.os (ffmpeg_command info) in
        let c = process_at w in
        let d = forked_record w info in
        let pid_ok = reliable.child_pid w.os (ffmpeg_command info) in
        let stored = reliable.inserts w.server c d in
        let grown =
          streams-inserted db json w.server c (record info { pid = pid }) (getpid o) stored in
        record {
          code = error_ok;
          result = refl;
          refines = Registers.started info.sid absent (λ t. ground (arith, grown t));
          consistent = record {
            connected = record { client = k.connected.client; handle = k.connected.handle };
            unique =
                insert-IsUnique db w.server c (record info { pid = pid }) (getpid o)
                  (ground (arith, absent)) k.unique;
            records =
                All-Inserted (IsRecord db json) d (insert_true w.server c d stored)
                  (process_record-IsRecord db json (record info { pid = pid }) (getpid o)
                    (with_pid-IsStorable db json info pid pid_ok ok) (reliable.own_pid o))
                  k.records;
          };
        }

    pub spawn_process-Refines :
        (info : ProcessInfo)
        → IsStorable json info
        → Refines db json w (Request.start info.sid) (spawn_process info w)
    spawn_process-Refines info ok =
        rw (spawn_process-connected w k.connected info)
          (go (collection_find w.server (process_at w) (by_sid info.sid)) refl)
      where
        fork_it :
            view db json w info.sid ≡ false
            → Refines db json w (Request.start info.sid) (fork_and_add info w)
        fork_it absent =
            rw (fork_and_add-connected w k.connected info)
              (elim (Bool-cases (is_negative (fork w.os (ffmpeg_command info)).0)) [
                | inl failed ↦ rw failed (
                    Refines-same db json w (fork w.os (ffmpeg_command info)).1
                      (Request.start info.sid) fork_failed k
                      (Registers.not_forked info.sid absent (λ t. refl)))
                | inr forked ↦ rw forked (forked-Refines info ok absent)
              ])

        go :
            (ds : List Doc)
            → collection_find w.server (process_at w) (by_sid info.sid) ≡ ds
            → Refines db json w
                (Request.start info.sid)
                (first ds (fork_and_add info w) (λ _. (ret stream_exist, w)))
        go [] e = fork_it (view-absent db json w k info.sid e)
        go (d ∷ ds) e =
            Refines-same db json w w.os (Request.start info.sid) stream_exist k (
              Registers.there_already info.sid (view-found db json w k info.sid d ds e) (λ t. refl))

    -- What `remove_process` does with a record that it finds.
    stopped-Refines :
        (sid : Text) (d : Doc) (ds : List Doc)
        → collection_find w.server (process_at w) (by_sid sid) ≡ d ∷ ds
        → Refines db json w (Request.stop sid) (
          ret error_ok,
          record w {
            server = (collection_remove w.server (process_at w) (by_sid (cached d).sid)).1;
            os = (kill w.os (cached d).pid sigkill).1;
          },
        )
    stopped-Refines sid d ds e =
        let c = process_at w in
        let (fits, r) = found-IsRecord db json w k sid d ds e in
        let id : c_str (cached d).sid ≡ c_str sid =
          ap (λ (p : ErrorCode × ProcessInfo). c_str p.1.sid)
            (parser-IsRecord db json d r (new_process_info junk))
          ∙ (matches-IsRecord db json d r sid).0 fits in
        let there = view-found db json w k sid d ds e in
        let q = by_sid (cached d).sid in
        let same : q ≡ by_sid sid = rw id refl in
        let gone =
          streams-removed db json w.server c sid (reliable.removes w.server c (by_sid sid))
            (ground (arith, there)) in
        record {
          code = error_ok;
          result = refl;
          refines =
              Registers.stopped sid there
                (λ t. rw same (ground (arith, gone t, k.unique.at_most_one t)));
          consistent = record {
            connected = record { client = k.connected.client; handle = k.connected.handle };
            unique = remove-IsUnique db w.server c q k.unique;
            records = elim (remove_any w.server c q) [
              | inl kept ↦ rw kept (k.records)
              | inr one ↦
                  All-Replaced (IsRecord db json) (matches q) (λ _. []) one (λ _ _. tt) k.records
            ];
          };
        }

    -- With a database that takes effect and says so, a call of `remove_process` on a consistent
    -- service returns, takes the stream from the set of streams and no other, or says that it is not
    -- there, and leaves the service consistent.
    pub remove_process-Refines :
        (info : ProcessInfo) → Refines db json w (Request.stop info.sid) (remove_process info w)
    remove_process-Refines info =
        rw (remove_process-connected w k.connected info)
          (go (collection_find w.server (process_at w) (by_sid info.sid)) refl)
      where
        go :
            (ds : List Doc)
            → collection_find w.server (process_at w) (by_sid info.sid) ≡ ds
            → Refines db json w (Request.stop info.sid) (removed w k.connected info ds)
        go [] e =
            Refines-same db json w w.os (Request.stop info.sid) stream_not_exist k
              (Registers.nothing_to_stop info.sid (view-absent db json w k info.sid e) (λ t. refl))
        go (d ∷ ds) e = stopped-Refines info.sid d ds e

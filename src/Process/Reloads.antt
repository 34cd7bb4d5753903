-- ===== src/Process/Reloads.antt =====
-- `process_reload` (injectService/pull/src/app/processCommonApi.cpp), against the set of streams of
-- Process/Registry.
use pull_stream.Base.{true, List, [], ◌∷◌, ◌≡◌, refl, Text}
use pull_stream.Bson.{Doc}
use pull_stream.Cache.{by_sid}
use pull_stream.Cache.Connected.{process_at}
use pull_stream.Common.{error_ok, stream_not_exist, ProcessInfo}
use pull_stream.External.{External}
use pull_stream.External.Laws.{MongoLaws, JsonLaws}
use pull_stream.Process.{spawn_process_i, process_reload}
use pull_stream.Process.Calls.{cached, process_reload-connected, reloaded}
use pull_stream.Process.Registry.{Request, Registers}
use pull_stream.World.{World, ret}
use pull_stream.Process.Views.{
  IsReliable, IsConsistent, view, Refines, view-absent, view-found, Refines-same,
}
use pull_stream.Process.Respawns.{spawn_process_i-Unchanged}

module _ ⦃x : External⦄ (db : MongoLaws) (json : JsonLaws) where
  open x use {
    Os, collection_insert, collection_update, collection_remove, collection_find, fork, kill,
    getpid, junk,
  }
  open db use {docs, matches, updated, insert_true, remove_any, update_any}

  module _ (reliable : IsReliable) (w : World) (k : IsConsistent db json w) where
    -- The child of a stream that is there, forked again.
    reloaded-Refines :
        (sid : Text) (info : ProcessInfo)
        → view db json w sid ≡ true
        → Refines db json w (Request.reload sid) (ret error_ok, (spawn_process_i info w).1)
    reloaded-Refines sid info there =
        let u = spawn_process_i-Unchanged db json reliable w k info in
        record {
          code = error_ok;
          result = refl;
          refines = Registers.reloaded sid there u.same;
          consistent = u.consistent;
        }

    -- With a database that takes effect and says so, a call of `process_reload` on a consistent
    -- service returns, leaves the set of streams and says whether the stream is in it, and leaves the
    -- service consistent.
    pub process_reload-Refines :
        (sid : Text) → Refines db json w (Request.reload sid) (process_reload sid w)
    process_reload-Refines sid =
        rw (process_reload-connected w k.connected sid)
          (go (collection_find w.server (process_at w) (by_sid sid)) refl)
      where
        go :
            (ds : List Doc)
            → collection_find w.server (process_at w) (by_sid sid) ≡ ds
            → Refines db json w (Request.reload sid) (reloaded w k.connected sid ds)
        go [] e =
            Refines-same db json w w.os (Request.reload sid) stream_not_exist k
              (Registers.nothing_to_reload sid (view-absent db json w k sid e) (λ t. refl))
        go (d ∷ ds) e = reloaded-Refines sid (cached d) (view-found db json w k sid d ds e)

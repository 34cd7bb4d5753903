-- ===== src/Process/Respawns.antt =====
-- Calls that leave the set of streams of Process/Registry, and `spawn_process_i`
-- (injectService/pull/src/app/processCommonApi.cpp).
use pull_stream.Base.{
  ◌∙◌, arith, IsInt32, ℤ, is_negative, [], ◌∷◌, ◌≡◌, inl, inr, refl, Text, Bool-cases,
}
use pull_stream.Cache.{by_sid, set_pid}
use pull_stream.Cache.Connected.{process_at}
use pull_stream.Cache.Records.{All-Replaced, IsRecord, updated-IsRecord}
use pull_stream.Cache.Streams.{streams-update, update-IsUnique}
use pull_stream.Common.{fork_failed, error_ok, ProcessInfo}
use pull_stream.External.{External}
use pull_stream.External.Laws.{MongoLaws, JsonLaws}
use pull_stream.Process.{ffmpeg_command, spawn_process_i}
use pull_stream.Process.Calls.{spawn_process_i-connected}
use pull_stream.World.{Action, ◌>>=◌, Outcome, World, ret}
use pull_stream.Process.Views.{IsReliable, IsConsistent, view}

module _ ⦃x : External⦄ (db : MongoLaws) (json : JsonLaws) where
  open x use {
    Os, collection_insert, collection_update, collection_remove, collection_find, fork, kill,
    getpid, junk,
  }
  open db use {docs, matches, updated, insert_true, remove_any, update_any}

  -- The call returns, and leaves the set of streams and the workers as they were, and the service
  -- consistent.
  pub record Unchanged {A : Type 0} (w : World) (r : Outcome A × World) : Type 0 where
    pub value : A
    pub result : r.0 ≡ ret value
    pub list : r.1.worker_list ≡ w.worker_list
    pub index : r.1.worker_index ≡ w.worker_index
    pub max : r.1.worker_max ≡ w.worker_max
    pub same : (t : Text) → view db json w t ≡ view db json r.1 t
    pub consistent : IsConsistent db json r.1

  pub Unchanged-bind :
      {A B : Type 0} (m : Action A) (f : A → Action B) (w : World)
      → Unchanged w (m w)
      → ((a : A) (v : World) → IsConsistent db json v → Unchanged v (f a v))
      → Unchanged w ((m >>= f) w)
  Unchanged-bind m f w first' rest =
      let e : (m >>= f) w ≡ f first'.value (m w).1 = ground (arith, first'.result) in
      let r = rest first'.value (m w).1 first'.consistent in
      rw e (record {
        value = r.value;
        result = r.result;
        list = r.list ∙ first'.list;
        index = r.index ∙ first'.index;
        max = r.max ∙ first'.max;
        same = λ t. first'.same t ∙ r.same t;
        consistent = r.consistent;
      })

  pub Unchanged-os :
      {A : Type 0} (a : A) (w : World) (o : Os)
      → IsConsistent db json w
      → Unchanged w (ret a, record w { os = o })
  Unchanged-os a w o k = record {
    value = a;
    result = refl;
    list = refl;
    index = refl;
    max = refl;
    same = λ t. refl;
    consistent = record {
      connected = record { client = k.connected.client; handle = k.connected.handle };
      unique = k.unique;
      records = k.records;
    };
  }

  module _ (reliable : IsReliable) (w : World) (k : IsConsistent db json w) where
    set_pid-Unchanged :
        (sid : Text) (pid : ℤ) (o : Os)
        → IsInt32 pid
        → Unchanged w (
          ret error_ok,
          record w {
            os = o;
            server = (collection_update w.server (process_at w) (by_sid sid) (set_pid pid)).1;
          },
        )
    set_pid-Unchanged sid pid o i = record {
      value = error_ok;
      result = refl;
      list = refl;
      index = refl;
      max = refl;
      same = λ t. rw (streams-update db w.server (process_at w) (by_sid sid) pid t) refl;
      consistent = record {
        connected = record { client = k.connected.client; handle = k.connected.handle };
        unique = update-IsUnique db w.server (process_at w) (by_sid sid) pid k.unique;
        records = elim (update_any w.server (process_at w) (by_sid sid) (set_pid pid)) [
          | inl kept ↦ rw kept (k.records)
          | inr one ↦
              All-Replaced (IsRecord db json) (matches (by_sid sid))
                (λ d. updated (set_pid pid) d ∷ []) one
                (λ d r. (updated-IsRecord db json d pid i r, tt)) k.records
        ];
      };
    }

    -- A fork with the update of the pid.
    pub spawn_process_i-Unchanged : (info : ProcessInfo) → Unchanged w (spawn_process_i info w)
    spawn_process_i-Unchanged info =
        let (pid, o) = fork w.os (ffmpeg_command info) in
        rw (spawn_process_i-connected w k.connected info) (elim (Bool-cases (is_negative pid)) [
          | inl failed ↦ rw failed (Unchanged-os fork_failed w o k)
          | inr forked ↦
              rw forked
                (set_pid-Unchanged info.sid pid o (reliable.child_pid w.os (ffmpeg_command info)))
        ])

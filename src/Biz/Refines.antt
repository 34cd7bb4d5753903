-- ===== src/Biz/Refines.antt =====
-- A worker that empties its queue (`worker_loop` of injectService/pull/src/app/serverBiz.cpp), against
-- the set of streams of Process/Registry.
use pull_stream.Base.{ℕ, List, [], ◌∷◌, ◌++◌, ◌≡◌, ◌≢◌, refl, arith}
use pull_stream.Biz.{handle, worker_round}
use pull_stream.Biz.Drain.{Queue, worker_round_pops}
use pull_stream.Cache.Streams.{IsStorable}
use pull_stream.Common.{
  EventType, create_process, remove_process, reload_process, terminate_process, Event, ErrorCode,
  ProcessInfo,
}
use pull_stream.External.{External}
use pull_stream.External.Laws.{MongoLaws, JsonLaws}
use pull_stream.Process
use pull_stream.Process.{spawn_process, process_reload}
use pull_stream.Process.Refines.{spawn_process-Refines, remove_process-Refines}
use pull_stream.Process.Registry.{Registry, Request, Registers}
use pull_stream.Process.Reloads.{process_reload-Refines}
use pull_stream.Process.Views.{IsReliable, IsConsistent, view, Refines}
use pull_stream.World.{World, ret, Action, pure, ◌>>◌}

-- The request that an event stands for; a termination is none, and is left out by the theorem.
abbrev pub request : Event → Request
request ev = elim ev.type [
  | create_process ↦ Request.start ev.process.sid
  | remove_process ↦ Request.stop ev.process.sid
  | reload_process ↦ Request.reload ev.process.sid
  | terminate_process ↦ Request.reload ev.process.sid
]

-- What a list of events does to the set, in order.
pub data Runs : Registry → List Event → Registry → Type 0 where
  idle : {r : Registry} → Runs r [] r
  next :
      {r r' r'' : Registry} {ev : Event} {evs : List Event} {code : ErrorCode}
      → Registers r (request ev) code r'
      → Runs r' evs r''
      → Runs r (ev ∷ evs) r''

pub Runs-append :
    {r r' r'' : Registry} {evs fvs : List Event}
    → Runs r evs r'
    → Runs r' fvs r''
    → Runs r (evs ++ fvs) r''
Runs-append Runs.idle h = h
Runs-append (Runs.next g k) h = Runs.next g (Runs-append k h)

module _ ⦃x : External⦄ (db : MongoLaws) (json : JsonLaws) where
  -- The records of the events can be stored.
  abbrev pub AllStorable : List Event → Type 0
  AllStorable [] = Unit
  AllStorable (ev ∷ evs) = IsStorable json ev.process × AllStorable evs

  -- A round with an event.
  pub record Registered (w : World) (ev : Event) (v : World) : Type 0 where
    pub code : ErrorCode
    pub refines : Registers (view db json w) (request ev) code (view db json v)
    pub consistent : IsConsistent db json v

  Registered-then :
      (w : World) (ev : Event) (m : Action ErrorCode)
      → Refines db json w (request ev) (m w)
      → Registered w ev ((m >> pure tt) w).1
  Registered-then w ev m r =
      let e : (m >> pure tt) w ≡ (ret tt, (m w).1) = ground (arith, r.result) in
      rw e record { code = r.code; refines = r.refines; consistent = r.consistent }

  handle-Registered :
      IsReliable
      → (w : World) (type : EventType) (info : ProcessInfo) → IsConsistent db json w
      → IsStorable json info
      → type ≢ terminate_process
      → Registered w (record { process = info; type = type }) (handle type info w).1
  unfolding handle
  handle-Registered ok w create_process info k s ne =
      Registered-then w _ (spawn_process info) (spawn_process-Refines db json ok w k info s)
  handle-Registered ok w remove_process info k s ne =
      Registered-then w _ (Process.remove_process info) (remove_process-Refines db json ok w k info)
  handle-Registered ok w reload_process info k s ne =
      Registered-then w _ (process_reload info.sid) (process_reload-Refines db json ok w k info.sid)
  handle-Registered ok w terminate_process info k s ne = absurd (ne refl)

  pub worker_round-Registered :
      IsReliable
      → (w : World) (i : ℕ) (ev : Event) (q : List Event) → IsConsistent db json w
      → IsStorable json ev.process
      → ev.type ≢ terminate_process
      → Queue w i (ev ∷ q)
      → Registered w ev (worker_round i w).1
  worker_round-Registered ok w i ev q k s ne at_i =
      let h = handle-Registered ok w ev.type ev.process k s ne in
      rw (worker_round_pops w i ev q k.connected ne at_i) record {
        code = h.code;
        refines = h.refines;
        consistent = record {
          connected = record {
            client = h.consistent.connected.client;
            handle = h.consistent.connected.handle;
          };
          unique = h.consistent.unique;
          records = h.consistent.records;
        };
      }

-- ===== src/RestApi/Served.antt =====
-- A request to start a stream, from the HTTP thread through the worker to the cache.
use pull_stream.Base.{
  ℕ, ◌≡◌, ◌≢◌, ◌⊎◌, refl, sym, ap, ◌∙◌, [], ◌∷◌, some, true, Text, bytes, ℤ, IsInt32, arith,
  get_elem?, set, get_elem?-set-some, List,
}
use pull_stream.Biz.{worker_drain, handle, push, pop}
use pull_stream.Biz.Drain.{worker_drain_one, Queue}
use pull_stream.Biz.Queues.{IsRunning, after_put}
use pull_stream.Cache.{get_process_info}
use pull_stream.Cache.Streams.{IsStorable}
use pull_stream.Common.{ErrorCode, create_process, ProcessInfo, AppData, rtmp_2_rtmp, rtsp_2_rtmp}
use pull_stream.External.{parse, External, value}
use pull_stream.External.Laws.{MongoLaws, JsonLaws}
use pull_stream.Json.{string_at, int_at}
use pull_stream.Process.{ffmpeg_command}
use pull_stream.Process.Lifecycle.{
  Starts, started, running, spawn_process-Starts, get_process_info-spawn_process,
}
use pull_stream.RestApi.{start, event, start_info, success_reply}
use pull_stream.RestApi.Start.{start_accepts}
use pull_stream.World.{WorkerContext, World, Outcome, ret}

module _ ⦃x : External⦄ where
  open x use {Json, fork, getpid}

  -- What `start` makes of a request's four fields.
  abbrev pub asked_for : Text → Text → Text → ℤ → Text → ProcessInfo
  asked_for src dest sid type host = record (start_info src dest sid type) {
    status = bytes "active";
    host = host;
  }

  -- A world with other queues starts the same streams.
  Starts-with_queues :
      (w : World) (info : ProcessInfo) (list : List WorkerContext) (index : ℕ)
      → Starts w info
      → Starts (record w { worker_list = list; worker_index = index }) info
  Starts-with_queues w info list index s = record {
    connected = record { client = s.connected.client; handle = s.connected.handle };
    absent = s.absent;
    forked = s.forked;
    stored = s.stored;
  }

  -- The worker's part: an event to create a stream, alone in a queue, is handled.
  drained :
      (w : World) (info : ProcessInfo) (i : ℕ)
      → Starts w info
      → (at_i : Queue w i (event info create_process ∷ []))
      → worker_drain 2 i w
        ≡ (ret true, started (record w { worker_list = set w.worker_list i (pop at_i.0) }) info)
  unfolding handle
  drained w info i s at_i =
      worker_drain_one w i (event info create_process) s.connected (λ e. cc) at_i
      ∙ ground (arith, spawn_process-Starts w info s)

  -- A request to start a stream that the database has no record of, on a service with running
  -- workers where the worker whose turn it is has an empty queue: if the body is valid, its
  -- texts are UTF-8 without null bytes, the pids are of 32 bits, the fork succeeds and the record is
  -- stored, the reply is 200, and once that worker has emptied its queue
  -- `get_process_info` gives the stream that was asked for, with the pids of the child and of this
  -- process and the status `active`.
  pub start-worker_drain :
      (db : MongoLaws) (json : JsonLaws) (n : ℕ) (body src dest sid : Text) (type : ℤ) (root : Json)
      (data' : AppData) (w : World) (c : WorkerContext)
      → IsRunning n w
      → get_elem? w.worker_list w.worker_index ≡ some c
      → c.queue ≡ []
      → parse body ≡ some root
      → string_at root (bytes "src") ≡ value src
      → string_at root (bytes "dest") ≡ value dest
      → string_at root (bytes "sid") ≡ value sid
      → int_at root (bytes "type") ≡ value type
      → src ≢ []
      → dest ≢ []
      → sid ≢ []
      → (type ≡ rtmp_2_rtmp) ⊎ (type ≡ rtsp_2_rtmp)
      → Starts w (asked_for src dest sid type data'.host)
      → IsStorable json (record (asked_for src dest sid type data'.host) {
        pid = (fork w.os (ffmpeg_command (asked_for src dest sid type data'.host))).0;
      })
      → IsInt32 (getpid (fork w.os (ffmpeg_command (asked_for src dest sid type data'.host))).1)
      → let asked = start (some body) (some data') w in
        let worked = worker_drain 2 w.worker_index asked.1 in
        (asked.0 ≡ ret (success_reply "SUCCESS"))
        × (worked.0 ≡ ret true)
        × (get_process_info sid worked.1
            ≡ (ret (some (running w (asked_for src dest sid type data'.host))), worked.1))
  start-worker_drain db json n body src dest sid type root data' w c r turn idle pb ps pd pi pt hs
        hd hi known s ok me =
      let info = asked_for src dest sid type data'.host in
      let (context, here, answer) =
        start_accepts n body src dest sid type root data' w r pb ps pd pi pt hs hd hi known in
      let empty : context.queue ≡ [] = cc in
      let v = after_put (event info create_process) w n context in
      let at_i : Queue v w.worker_index (event info create_process ∷ []) = (
        push (event info create_process) context,
        get_elem?-set-some w.worker_list w.worker_index (push (event info create_process) context)
            here,
        rw empty refl,
      ) in
      let s_v = Starts-with_queues w info v.worker_list v.worker_index s in
      let list = set v.worker_list w.worker_index (pop at_i.0) in
      let s_u = Starts-with_queues w info list v.worker_index s in
      let u : World = record v { worker_list = list } in
      let found = get_process_info-spawn_process db json u info s_u ok me in
      let stored =
        ap (λ (p : Outcome ErrorCode × World). get_process_info sid p.1) (sym found.0) ∙ found.1 in
      rw (answer, drained v info w.worker_index s_v at_i) (refl, refl, stored)

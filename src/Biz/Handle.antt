-- ===== src/Biz/Handle.antt =====
-- The `switch` of `worker_loop` (injectService/pull/src/app/serverBiz.cpp): what a worker does with
-- one event on a connected service.
use pull_stream.Base.{
  Bool, true, false, is_negative, List, [], ◌∷◌, ◌≡◌, ◌≢◌, refl, sym, arith, if◌then◌else◌, Text,
}
use pull_stream.Bson.{Doc}
use pull_stream.Biz.{handle}
use pull_stream.Cache.Connected.{IsConnected, first}
use pull_stream.Common.{
  EventType, create_process, reload_process, remove_process, terminate_process, ErrorCode, error_ok,
  fork_failed, stream_exist, stream_not_exist, ProcessInfo,
}
use pull_stream.External.{External}
use pull_stream.Process
use pull_stream.Process.{
  ffmpeg_command, fork_and_add, spawn_process, spawn_process_i, process_reload,
}
use pull_stream.Process.Calls.{
  cached, fork_and_add-connected, spawn_process-connected, spawn_process_i-connected,
  remove_process-connected, process_reload-connected,
}
use mathlib.Core.Path.{subst}
use pull_stream.World.{World, Action, pure, ◌>>=◌, ◌>>◌, Outcome, ret}

module _ ⦃x : External⦄ where
  open x use {fork}

  -- A call that returns, with the service's threads and its connection as they were.
  pub record Returns {A : Type 0} (w : World) (r : Outcome A × World) : Type 0 where
    pub value : A
    pub result : r.0 ≡ ret value
    pub list : r.1.worker_list ≡ w.worker_list
    pub index : r.1.worker_index ≡ w.worker_index
    pub max : r.1.worker_max ≡ w.worker_max
    pub connected : IsConnected r.1

  Returns-if :
      {A : Type 0} (w : World) (b : Bool) (r q : Outcome A × World)
      → Returns w r
      → Returns w q
      → Returns w (if b then r else q)
  Returns-if w true r q hr hq = hr
  Returns-if w false r q hr hq = hq

  Returns-first :
      {A : Type 0} (w : World) (ds : List Doc) (r : Outcome A × World) (f : Doc → Outcome A × World)
      → Returns w r
      → ((d : Doc) → Returns w (f d))
      → Returns w (first ds r f)
  Returns-first w [] r f hr hf = hr
  Returns-first w (d ∷ ds) r f hr hf = hf d

  -- The value is at hand, and nothing that a call of the database or the kernel writes is read here.
  returned :
      {A : Type 0} (a : A) (w w' : World)
      → w'.worker_list ≡ w.worker_list
      → w'.worker_index ≡ w.worker_index
      → w'.worker_max ≡ w.worker_max
      → IsConnected w'
      → Returns w (ret a, w')
  returned a w w' e e' e'' c = record {
    value = a;
    result = refl;
    list = e;
    index = e';
    max = e'';
    connected = c;
  }

  -- `m >> pure tt`, from what `m` did.
  abbrev ended : Outcome ErrorCode → Action ErrorCode
  ended r w' = (r, w')

  abbrev then_tt : Outcome ErrorCode × World → Outcome (Unit {0}) × World
  then_tt (r, w') = (ended r >>= λ _. pure tt) w'

  module _ (w : World) (c : IsConnected w) where
    fork_and_add-Returns : (info : ProcessInfo) → Returns w (fork_and_add info w)
    fork_and_add-Returns info = rw (fork_and_add-connected w c info) (
        let (pid, o) = fork w.os (ffmpeg_command info) in
        Returns-if w (is_negative pid) _ _
          (returned fork_failed w (record w { os = o }) refl refl refl
            (record { client = c.client; handle = c.handle }))
          (returned error_ok w (record w { os = o; server = _ }) refl refl refl
            (record { client = c.client; handle = c.handle })))

    spawn_process-Returns : (info : ProcessInfo) → Returns w (spawn_process info w)
    spawn_process-Returns info = rw (spawn_process-connected w c info) (
        Returns-first w _ _ _ (fork_and_add-Returns info)
          (λ d. returned stream_exist w w refl refl refl c))

    spawn_process_i-Returns : (info : ProcessInfo) → Returns w (spawn_process_i info w)
    spawn_process_i-Returns info = rw (spawn_process_i-connected w c info) (
        let (pid, o) = fork w.os (ffmpeg_command info) in
        Returns-if w (is_negative pid) _ _
          (returned fork_failed w (record w { os = o }) refl refl refl
            (record { client = c.client; handle = c.handle }))
          (returned error_ok w (record w { os = o; server = _ }) refl refl refl
            (record { client = c.client; handle = c.handle })))

    process_reload-Returns : (sid : Text) → Returns w (process_reload sid w)
    process_reload-Returns sid = rw (process_reload-connected w c sid) (
        Returns-first w _ _ _ (returned stream_not_exist w w refl refl refl c) (λ d.
          let r = spawn_process_i-Returns (cached d) in
          returned error_ok w _ r.list r.index r.max r.connected))

    remove_process-Returns : (info : ProcessInfo) → Returns w (Process.remove_process info w)
    remove_process-Returns info = rw (remove_process-connected w c info) (
        Returns-first w _ _ _ (returned stream_not_exist w w refl refl refl c) (λ d.
          returned error_ok w _ refl refl refl (record { client = c.client; handle = c.handle })))

    Returns-then : (m : Action ErrorCode) → Returns w (m w) → Returns w ((m >> pure tt) w)
    Returns-then m r =
        let e : m w ≡ (ret r.value, (m w).1) = ground (arith, r.result) in
        subst (λ (p : Outcome ErrorCode × World). Returns w (then_tt p)) (sym e)
          (returned tt w _ r.list r.index r.max r.connected)

    -- Each event but a termination is handled: the call returns, and the queues are as they were.
    pub handle-Returns :
        (t : EventType) (info : ProcessInfo) → t ≢ terminate_process → Returns w (handle t info w)
    unfolding handle
    handle-Returns create_process info ne =
        Returns-then (spawn_process info) (spawn_process-Returns info)
    handle-Returns remove_process info ne =
        Returns-then (Process.remove_process info) (remove_process-Returns info)
    handle-Returns reload_process info ne =
        Returns-then (process_reload info.sid) (process_reload-Returns info.sid)
    handle-Returns terminate_process info ne = absurd (ne refl)

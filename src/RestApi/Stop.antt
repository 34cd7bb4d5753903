-- ===== src/RestApi/Stop.antt =====
-- `/pull/inject/stop`, and `/pull/inject/i/stop` with the worker that gets its event
-- (injectService/pull/src/app/rest_api.cpp).
use pull_stream.Base.{
  ℕ, ◌<◌, ℤ, [], ◌∷◌, ◌≡◌, ◌≢◌, ◌⊎◌, inl, inr, refl, Option, none, some, Text, bytes, arith,
  get_elem?, get_elem?-set-some, length,
}
use pull_stream.Biz.{worker_drain, push}
use pull_stream.Biz.Drain.{NoTermination, worker_drain_aborts}
use pull_stream.Biz.Queues.{IsRunning, after_put, put_data_runs}
use pull_stream.Cache.Connected.{IsConnected}
use pull_stream.Common.{remove_process, terminate_process, ProcessInfo, new_process_info, AppData}
use pull_stream.External.{parse, External, value}
use pull_stream.Json.{string_at, int_at}
use pull_stream.RestApi.{
  Parsed, input_no_match, translate_type_unsupport, exception, parsed, try_root, check_stop,
  stop_root, stop_request, stop_i_request, stop_with, stop, stop_i, success_reply, event,
}
use pull_stream.RestApi.Ends.{Accepted, Refused, caught_bind}
use pull_stream.World.{WorkerContext, World, ret, aborted}

module _ ⦃x : External⦄ where
  open x use {Json, junk}

  abbrev pub HasId : ProcessInfo → Type 0
  HasId info = info.sid ≢ []

  abbrev Named : Parsed → Type 0
  Named (parsed info) = HasId info
  Named _ = Unit

  check_stop-Named : (sid : Text) → Named (check_stop sid)
  check_stop-Named [] = tt
  check_stop-Named (c ∷ sid) = λ e. cc

  stop_root-Named : (o : Option Json) → Named (try_root o stop_root)
  unfolding stop_root
  stop_root-Named none = tt
  stop_root-Named (some root) =
      caught_bind Named (string_at root (bytes "sid")) (λ sid. value (check_stop sid)) (λ _. tt)
        check_stop-Named

  stop_request-Named : (body : Text) → Named (stop_request body)
  unfolding stop_request
  stop_request-Named body = stop_root-Named (parse body)

  stop_with_ends :
      (n : ℕ) (w : World) (p : Parsed)
      → IsRunning n w
      → Named p
      → Accepted n remove_process HasId "SUCCESS" w (stop_with p w) ⊎ Refused w (stop_with p w)
  unfolding stop_with
  stop_with_ends n w input_no_match r ok =
      inr (record { reply = _; answer = refl; failure = inl refl; unchanged = refl })
  stop_with_ends n w translate_type_unsupport r ok =
      inr (record { reply = _; answer = refl; failure = inl refl; unchanged = refl })
  stop_with_ends n w (exception what) r ok =
      inr (record { reply = _; answer = refl; failure = inr refl; unchanged = refl })
  stop_with_ends n w (parsed info) r ok =
      let (context, turn, put, r') = put_data_runs n (event info remove_process) w r in
      inl (record {
        info = info;
        context = context;
        turn = turn;
        fits = ok;
        answer = ground (arith, put);
        queued = ground (arith, put);
      })

  -- A call of `stop` on a service with running workers puts an event to remove a stream with an id
  -- that is not empty into the queue of the worker whose turn it is, and replies 200; or it changes
  -- nothing and replies 400 or 403.
  pub stop_ends :
      (n : ℕ) (body : Option Text) (w : World)
      → IsRunning n w
      → Accepted n remove_process HasId "SUCCESS" w (stop body w) ⊎ Refused w (stop body w)
  unfolding stop
  stop_ends n none w r =
      inr (record { reply = _; answer = refl; failure = inr refl; unchanged = refl })
  stop_ends n (some b) w r = stop_with_ends n w (stop_request b) r (stop_request-Named b)

  -- What `/pull/inject/i/stop` does with a body that has a number under `pid`.
  stop_i_accepts :
      (n : ℕ) (body : Text) (pid : ℤ) (root : Json) (data' : AppData) (w : World)
      → IsRunning n w
      → parse body ≡ some root
      → int_at root (bytes "pid") ≡ value pid
      → (context : WorkerContext) × (get_elem? w.worker_list w.worker_index ≡ some context)
        × (stop_i (some body) (some data') w ≡ (
          ret (success_reply "ok"),
          after_put
              (event (record (new_process_info junk) { pid = pid }) terminate_process)
              w
              n
              context,
        ))
  unfolding stop_i stop_i_request
  stop_i_accepts n body pid root data' w r pb pp =
      let ev = event (record (new_process_info junk) { pid = pid }) terminate_process in
      let (context, turn, put, r') = put_data_runs n ev w r in
      (context, turn, ground (arith, put, pb, pp))

  -- `/pull/inject/i/stop` with a number under `pid` is answered with 200, and then the worker that
  -- got the event aborts the process when it empties its queue, if no other termination event stands
  -- before this one: `worker_loop` has no case for the event.
  pub stop_i_aborts :
      (n fuel : ℕ) (body : Text) (pid : ℤ) (root : Json) (data' : AppData) (w : World)
      (c : WorkerContext)
      → IsRunning n w
      → IsConnected w
      → parse body ≡ some root
      → int_at root (bytes "pid") ≡ value pid
      → get_elem? w.worker_list w.worker_index ≡ some c
      → NoTermination c.queue
      → length c.queue < fuel
      → ((stop_i (some body) (some data') w).0 ≡ ret (success_reply "ok"))
        × ((worker_drain fuel w.worker_index (stop_i (some body) (some data') w).1).0 ≡ aborted)
  stop_i_aborts n fuel body pid root data' w c r on pb pp turn calm short =
      let ev = event (record (new_process_info junk) { pid = pid }) terminate_process in
      let (context, turn', done) = stop_i_accepts n body pid root data' w r pb pp in
      let same : context ≡ c = cc in
      rw (done, same)
        (
          refl,
          worker_drain_aborts fuel (after_put ev w n c) w.worker_index c.queue ev []
              (record { client = on.client; handle = on.handle })
              (push ev c, get_elem?-set-some w.worker_list w.worker_index (push ev c) turn, refl)
              calm refl short,
        )

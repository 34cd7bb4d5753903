-- ===== src/RestApi/Internal.antt =====
-- The two internal requests, `/pull/inject/i/start` and `/pull/inject/i/stop`.
use pull_stream.Base.{ℕ, ◌⊎◌, inl, inr, refl, Option, none, some, Text, arith}
use pull_stream.Biz.Queues.{IsRunning, put_data_runs}
use pull_stream.Common.{reload_process, terminate_process, ProcessInfo, AppData}
use pull_stream.External.{External}
use pull_stream.RestApi.{
  Parsed, input_no_match, translate_type_unsupport, exception, parsed, start_i_request,
  stop_i_request, start_i_with, stop_i_with, start_i, stop_i, event,
}
use pull_stream.RestApi.Ends.{Accepted, Refused}
use pull_stream.World.{World}

module _ ⦃x : External⦄ where
  -- The internal requests ask nothing of the process.
  abbrev pub Anything : ProcessInfo → Type 0
  Anything info = Unit

  start_i_with_ends :
      (n : ℕ) (w : World) (p : Parsed)
      → IsRunning n w
      → Accepted n reload_process Anything "ok" w (start_i_with p w) ⊎ Refused w (start_i_with p w)
  unfolding start_i_with
  start_i_with_ends n w input_no_match r =
      inr (record { reply = _; answer = refl; failure = inl refl; unchanged = refl })
  start_i_with_ends n w translate_type_unsupport r =
      inr (record { reply = _; answer = refl; failure = inl refl; unchanged = refl })
  start_i_with_ends n w (exception what) r =
      inr (record { reply = _; answer = refl; failure = inr refl; unchanged = refl })
  start_i_with_ends n w (parsed info) r =
      let (context, turn, put, r') = put_data_runs n (event info reload_process) w r in
      inl (record {
        info = info;
        context = context;
        turn = turn;
        fits = tt;
        answer = ground (arith, put);
        queued = ground (arith, put);
      })

  -- A call of `start_i` on a service with running workers puts an event to reload a stream into the
  -- queue of the worker whose turn it is, and replies 200; or it changes nothing and replies 400 or
  -- 403.
  pub start_i_ends :
      (n : ℕ) (body : Option Text) (data' : AppData) (w : World)
      → IsRunning n w
      → Accepted n reload_process Anything "ok" w (start_i body (some data') w)
        ⊎ Refused w (start_i body (some data') w)
  unfolding start_i
  start_i_ends n none data' w r =
      inr (record { reply = _; answer = refl; failure = inl refl; unchanged = refl })
  start_i_ends n (some b) data' w r = start_i_with_ends n w (start_i_request b) r

  stop_i_with_ends :
      (n : ℕ) (w : World) (p : Parsed)
      → IsRunning n w
      → Accepted n terminate_process Anything "ok" w (stop_i_with p w) ⊎ Refused w (stop_i_with p w)
  unfolding stop_i_with
  stop_i_with_ends n w input_no_match r =
      inr (record { reply = _; answer = refl; failure = inl refl; unchanged = refl })
  stop_i_with_ends n w translate_type_unsupport r =
      inr (record { reply = _; answer = refl; failure = inl refl; unchanged = refl })
  stop_i_with_ends n w (exception what) r =
      inr (record { reply = _; answer = refl; failure = inr refl; unchanged = refl })
  stop_i_with_ends n w (parsed info) r =
      let (context, turn, put, r') = put_data_runs n (event info terminate_process) w r in
      inl (record {
        info = info;
        context = context;
        turn = turn;
        fits = tt;
        answer = ground (arith, put);
        queued = ground (arith, put);
      })

  pub stop_i_ends :
      (n : ℕ) (body : Option Text) (data' : AppData) (w : World)
      → IsRunning n w
      → Accepted n terminate_process Anything "ok" w (stop_i body (some data') w)
        ⊎ Refused w (stop_i body (some data') w)
  unfolding stop_i
  stop_i_ends n none data' w r =
      inr (record { reply = _; answer = refl; failure = inl refl; unchanged = refl })
  stop_i_ends n (some b) data' w r = stop_i_with_ends n w (stop_i_request b) r

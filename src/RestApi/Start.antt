-- ===== src/RestApi/Start.antt =====
-- `/pull/inject/start`: what is accepted, what is refused, and what the caller is told.
use pull_stream.Base.{
  ℕ, ℤ, false, [], ◌∷◌, ◌≡◌, ◌≢◌, ◌⊎◌, inl, inr, refl, Option, none, some, Text, bytes, null,
  eq_ℤ_iff, arith, get_elem?,
}
use pull_stream.Biz.Queues.{IsRunning, after_put, put_data_runs}
use pull_stream.Common.{create_process, ProcessInfo, AppData, rtmp_2_rtmp, rtsp_2_rtmp}
use pull_stream.External.{parse, External, value}
use pull_stream.Json.{string_at, int_at}
use pull_stream.RestApi.{
  success_reply, Parsed, input_no_match, translate_type_unsupport, exception, parsed, caught,
  try_root, start_info, start_root, check_start, start_request, start_with, start, event,
}
use pull_stream.RestApi.Ends.{Accepted, Refused, caught_bind}
use pull_stream.World.{WorkerContext, World, ret}

module _ ⦃x : External⦄ where
  open x use {Json, junk}

  -- What `start` hands on: a source, a destination, an id and a known type, for this host.
  pub record IsStartable (host : Text) (info : ProcessInfo) : Type 0 where
    pub src : info.src_url ≢ []
    pub dest : info.dest_url ≢ []
    pub id : info.sid ≢ []
    pub known : (info.type ≡ rtmp_2_rtmp) ⊎ (info.type ≡ rtsp_2_rtmp)
    pub active : info.status ≡ bytes "active"
    pub here : info.host ≡ host

  abbrev Startable : Text → Parsed → Type 0
  Startable host (parsed info) = IsStartable host info
  Startable host _ = Unit

  null-ne : (t : Text) → null t ≡ false → t ≢ []
  null-ne [] h = cc
  null-ne (c ∷ t) h = λ e. cc

  check_start-Startable :
      (host : Text) (info : ProcessInfo) → Startable host (check_start host info)
  unfolding check_start
  check_start-Startable host info = ground (
    arith,
    null-ne info.src_url,
    null-ne info.dest_url,
    null-ne info.sid,
    eq_ℤ_iff info.type rtmp_2_rtmp,
    eq_ℤ_iff info.type rtsp_2_rtmp,
  )

  start_root-Startable :
      (host : Text) (root : Json) → Startable host (caught (start_root host root))
  unfolding start_root
  start_root-Startable host root =
      caught_bind (Startable host) (string_at root (bytes "src")) _ (λ _. tt)
        (λ src.
          caught_bind (Startable host) (string_at root (bytes "dest")) _ (λ _. tt)
            (λ dest.
              caught_bind (Startable host) (string_at root (bytes "sid")) _ (λ _. tt)
                (λ sid.
                  caught_bind (Startable host) (int_at root (bytes "type")) _ (λ _. tt)
                    (λ type. check_start-Startable host (start_info src dest sid type)))))

  try_root-Startable :
      (host : Text) (o : Option Json) → Startable host (try_root o (start_root host))
  try_root-Startable host none = tt
  try_root-Startable host (some root) = start_root-Startable host root

  start_request-Startable : (host body : Text) → Startable host (start_request host body)
  unfolding start_request
  start_request-Startable host body = try_root-Startable host (parse body)

  start_with_ends :
      (n : ℕ) (host : Text) (w : World) (p : Parsed)
      → IsRunning n w
      → Startable host p
      → Accepted n create_process (IsStartable host) "SUCCESS" w (start_with p w)
        ⊎ Refused w (start_with p w)
  unfolding start_with
  start_with_ends n host w input_no_match r ok =
      inr (record { reply = _; answer = refl; failure = inl refl; unchanged = refl })
  start_with_ends n host w translate_type_unsupport r ok =
      inr (record { reply = _; answer = refl; failure = inl refl; unchanged = refl })
  start_with_ends n host w (exception what) r ok =
      inr (record { reply = _; answer = refl; failure = inr refl; unchanged = refl })
  start_with_ends n host w (parsed info) r ok =
      let (context, turn, put, r') = put_data_runs n (event info create_process) w r in
      inl (record {
        info = info;
        context = context;
        turn = turn;
        fits = ok;
        answer = ground (arith, put);
        queued = ground (arith, put);
      })

  -- A call of `start` on a service with running workers ends in one of two ways. Either an event to
  -- create a stream, with a source, a destination, an id and one of the two types, for this host, is
  -- in the queue of the worker whose turn it is, and the reply is 200; or nothing has changed, and the
  -- reply is 400 or 403.
  pub start_ends :
      (n : ℕ) (body : Option Text) (data' : AppData) (w : World)
      → IsRunning n w
      → Accepted n create_process (IsStartable data'.host) "SUCCESS" w (start body (some data') w)
        ⊎ Refused w (start body (some data') w)
  unfolding start
  start_ends n none data' w r =
      inr (record { reply = _; answer = refl; failure = inr refl; unchanged = refl })
  start_ends n (some b) data' w r =
      start_with_ends n data'.host w (start_request data'.host b) r
        (start_request-Startable data'.host b)

  -- A body with the four fields, the three texts not empty and the type one of the two, is accepted.
  pub start_accepts :
      (n : ℕ) (body src dest sid : Text) (type : ℤ) (root : Json) (data' : AppData) (w : World)
      → IsRunning n w
      → parse body ≡ some root
      → string_at root (bytes "src") ≡ value src
      → string_at root (bytes "dest") ≡ value dest
      → string_at root (bytes "sid") ≡ value sid
      → int_at root (bytes "type") ≡ value type
      → src ≢ []
      → dest ≢ []
      → sid ≢ []
      → (type ≡ rtmp_2_rtmp) ⊎ (type ≡ rtsp_2_rtmp)
      → (context : WorkerContext) × (get_elem? w.worker_list w.worker_index ≡ some context)
        × (start (some body) (some data') w ≡ (
          ret (success_reply "SUCCESS"),
          after_put
              (event
                (record (start_info src dest sid type) {
                  status = bytes "active";
                  host = data'.host;
                })
                create_process)
              w
              n
              context,
        ))
  unfolding start start_request start_root check_start
  start_accepts n body src dest sid type root data' w r pb ps pd pi pt hs hd hi known =
      let info = record (start_info src dest sid type) {
        status = bytes "active";
        host = data'.host;
      } in
      let (context, turn, put, r') = put_data_runs n (event info create_process) w r in
      (context, turn, ground (arith, put, pb, ps, pd, pi, pt))

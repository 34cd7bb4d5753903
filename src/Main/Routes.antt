-- ===== src/Main/Routes.antt =====
-- The handlers that `CRestApi::run` (injectService/pull/src/app/rest_api.cpp) registers, together.
use mathlib.Core.Path.{subst}
use pull_stream.Base.{
  ℕ, ◌≡◌, ◌⊎◌, inl, inr, refl, sym, false, Option, some, String, Text, bytes, text_eq, Bool-cases,
}
use pull_stream.Biz.Queues.{IsRunning, after_put-IsRunning}
use pull_stream.Common.{EventType, ProcessInfo, AppData}
use pull_stream.External.{External}
use pull_stream.Main.{route}
use pull_stream.RestApi.{Reply, event}
use pull_stream.RestApi.Ends.{Accepted, Refused}
use pull_stream.RestApi.Internal.{start_i_ends, stop_i_ends}
use pull_stream.RestApi.Start.{start_ends}
use pull_stream.RestApi.Stop.{stop_ends}
use pull_stream.World.{World, Action, Outcome, ret}

module _ ⦃x : External⦄ where
  -- A handler that sends a reply, and leaves the workers running.
  pub record Answers (n : ℕ) (r : Outcome Reply × World) : Type 0 where
    pub reply : Reply
    pub sent : r.0 ≡ ret reply
    pub code : (reply.code ≡ 200) ⊎ ((reply.code ≡ 400) ⊎ (reply.code ≡ 403))
    pub running : IsRunning n r.1

  Accepted-Answers :
      {n : ℕ} {type : EventType} {Fits : ProcessInfo → Type 0} {msg : String} {w : World}
      {r : Outcome Reply × World}
      → IsRunning n w
      → Accepted n type Fits msg w r ⊎ Refused w r
      → Answers n r
  Accepted-Answers {n} {type} {w = w} run (inl a) = record {
    reply = _;
    sent = a.answer;
    code = inl refl;
    running =
        subst (λ (v : World). IsRunning n v) (sym a.queued)
          (after_put-IsRunning n (event a.info type) w a.context run);
  }
  Accepted-Answers {n} run (inr f) = record {
    reply = f.reply;
    sent = f.answer;
    code = inr f.failure;
    running = subst (λ (v : World). IsRunning n v) (sym f.unchanged) run;
  }

  abbrev Handler : Type 0
  Handler = Option Text → AppData → Action Reply

  module _ (n : ℕ) (body : Option Text) (data' : AppData) (w : World) (run : IsRunning n w) where
    same_handler :
        (f h : Handler)
        → ◌≡◌ {A = Option Handler} (some f) (some h)
        → Answers n (f body data' w)
        → Answers n (h body data' w)
    same_handler f h e a =
        let same : ◌≡◌ {A = Handler} f h = cc e in
        subst (λ (g : Handler). Answers n (g body data' w)) same a

    route_internal :
        (path : Text) (h : Handler)
        → text_eq path (bytes "/health/live") ≡ false
        → text_eq path (bytes "/pull/inject/start") ≡ false
        → text_eq path (bytes "/pull/inject/stop") ≡ false
        → route path ≡ some h
        → Answers n (h body data' w)
    route_internal path h live a b e =
        elim (Bool-cases (text_eq path (bytes "/pull/inject/i/start"))) [
          | inl c ↦
              same_handler _ h (rw (a, b, c) at e)
                (Accepted-Answers run (start_i_ends n body data' w run))
          | inr c ↦ elim (Bool-cases (text_eq path (bytes "/pull/inject/i/stop"))) [
            | inl d ↦
                same_handler _ h (rw (a, b, c, d) at e)
                  (Accepted-Answers run (stop_i_ends n body data' w run))
            | inr d ↦ cc (rw (a, b, c, d, live) at e)
          ]
        ]

    -- On a service with running workers every request for a registered path other than
    -- `/health/live` is answered, with the code 200, 400 or 403, whatever memory
    -- holds at the pointer to its body, and leaves the
    -- workers running.
    pub route-Answers :
        (path : Text) (h : Option Text → AppData → Action Reply)
        → text_eq path (bytes "/health/live") ≡ false
        → route path ≡ some h
        → Answers n (h body data' w)
    route-Answers path h live e = elim (Bool-cases (text_eq path (bytes "/pull/inject/start"))) [
      | inl a ↦ same_handler _ h (rw a at e) (Accepted-Answers run (start_ends n body data' w run))
      | inr a ↦ elim (Bool-cases (text_eq path (bytes "/pull/inject/stop"))) [
        | inl b ↦ same_handler _ h (rw (a, b) at e) (Accepted-Answers run (stop_ends n body w run))
        | inr b ↦ route_internal path h live a b e
      ]
    ]

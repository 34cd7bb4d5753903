-- ===== src/RestApi/Ends.antt =====
-- How a call of a handler ends, on a service with running workers.
use pull_stream.Base.{ℕ, String, Text, ◌≡◌, ◌⊎◌, some, get_elem?}
use pull_stream.Biz.Queues.{after_put}
use pull_stream.Common.{EventType, ProcessInfo}
use pull_stream.External.{External, Except, value, throws, ◌>>=◌}
use pull_stream.RestApi.{Reply, success_reply, Parsed, exception, caught, event}
use pull_stream.World.{WorkerContext, World, Outcome, ret}

module _ ⦃x : External⦄ where
  -- A property of what the `try` block gives, step by step.
  pub caught_bind :
      {A : Type 0} (P : Parsed → Type 0) (m : Except A) (f : A → Except Parsed)
      → ((what : Text) → P (exception what))
      → ((a : A) → P (caught (f a)))
      → P (caught (m >>= f))
  caught_bind P (value a) f he hf = hf a
  caught_bind P (throws what) f he hf = he what

  -- The event of a given type is in the queue of the worker whose turn it is, its process is as asked,
  -- and the caller is told of success.
  pub record Accepted (n : ℕ) (type : EventType) (Fits : ProcessInfo → Type 0) (msg : String)
      (w : World) (r : Outcome Reply × World) : Type 0 where
    pub info : ProcessInfo
    pub context : WorkerContext
    pub turn : get_elem? w.worker_list w.worker_index ≡ some context
    pub fits : Fits info
    pub answer : r.0 ≡ ret (success_reply msg)
    pub queued : r.1 ≡ after_put (event info type) w n context

  -- Nothing has changed, and the caller is told of an error.
  pub record Refused (w : World) (r : Outcome Reply × World) : Type 0 where
    pub reply : Reply
    pub answer : r.0 ≡ ret reply
    pub failure : (reply.code ≡ 400) ⊎ (reply.code ≡ 403)
    pub unchanged : r.1 ≡ w

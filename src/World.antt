-- ===== src/World.antt =====
-- The state of the pull service and the effects of its code: what the process holds (the statics and
-- the singleton of injectService/pull/src/app/serverBiz.h) beside the database and the kernel.
use pull_stream.Base.{ℕ, ℤ, Bool, true, false, List, Option, none, some, Text}
use pull_stream.Common.{Event}
use pull_stream.External.{External}

-- `WorkerContext`. The four function pointers are the same for every worker; calls through them are
-- written as calls of those functions.
pub record WorkerContext : Type 0 where
  pub queue : List Event
  pub running : Bool
  pub tid : ℕ

-- How a piece of code ends: with a value, by a failed `assert`, by `exit(n)`, or in undefined
-- behaviour. After the last three the process does nothing more that is modelled.
pub data Outcome (A : Type 0) : Type 0 where
  ret : A → Outcome A
  aborted : Outcome A
  exited : ℕ → Outcome A
  undefined : Outcome A

module _ ⦃x : External⦄ where
  open x use {Server, Os}

  -- `ServerBiz`: its statics `db_address`, `_host` and `_port`, and the fields of its instance.
  pub record World : Type 0 where
    pub server : Server
    pub os : Os
    pub db_address : Text
    pub _host : Text
    pub _port : ℤ
    pub worker_list : List WorkerContext
    pub worker_index : ℕ
    pub worker_max : ℤ

  abbrev pub Action : Type 0 → Type 0
  Action A = World → Outcome A × World

  module _ {A : Type 0} where
    abbrev pub pure : A → Action A
    pure a w = (ret a, w)

    abbrev pub gets : (World → A) → Action A
    gets f w = (ret (f w), w)

    abbrev pub undefined_behaviour : Action A
    undefined_behaviour w = (undefined, w)

    abbrev pub exit : ℕ → Action A
    exit n w = (exited n, w)

    -- A call of the server or of the kernel.
    abbrev pub on_server : (Server → A × Server) → Action A
    on_server f w = let (a, s) = f w.server in (ret a, record w { server = s })

    abbrev pub on_os : (Os → A × Os) → Action A
    on_os f w = let (a, s) = f w.os in (ret a, record w { os = s })

  abbrev pub modify : (World → World) → Action (Unit {0})
  modify f w = (ret tt, f w)

  -- `assert(b)`: the build sets no NDEBUG.
  abbrev pub assert : Bool → Action (Unit {0})
  assert true w = (ret tt, w)
  assert false w = (aborted, w)

  infixl 5 ◌>>=◌ ◌>>◌
  abbrev pub ◌>>=◌ : {A B : Type 0} → Action A → (A → Action B) → Action B
  ◌>>=◌ m f w =
      let (r, w') = m w in
      elim r [
        | ret a ↦ f a w'
        | aborted ↦ (aborted, w')
        | exited n ↦ (exited n, w')
        | undefined ↦ (undefined, w')
      ]

  abbrev pub ◌>>◌ : {A B : Type 0} → Action A → Action B → Action B
  m >> k = m >>= λ _. k

  -- What a dereference of a pointer that may be null does.
  abbrev pub deref : {A : Type 0} → Option A → Action A
  deref none w = (undefined, w)
  deref (some a) w = (ret a, w)

-- ===== src/Process/Registry.antt =====
-- The abstract view of `ProcessCtlModule` (injectService/pull/src/app/processCommonApi.cpp): a set of
-- streams, and what a start, a stop and a reload may do to it.
use pull_stream.Base.{Bool, true, false, ◌≡◌, Text, text_eq, c_str, if◌then◌else◌}
use pull_stream.Common.{ErrorCode, error_ok, stream_exist, fork_failed, stream_not_exist}

-- Which streams there are; ids are compared up to their first null byte.
abbrev pub Registry : Type 0
Registry = Text → Bool

abbrev pub same_id : Text → Text → Bool
same_id sid t = text_eq (c_str sid) (c_str t)

abbrev pub with_id : Text → Registry → Registry
with_id sid r t = if same_id sid t then true else r t

abbrev pub without_id : Text → Registry → Registry
without_id sid r t = if same_id sid t then false else r t

abbrev pub Same : Registry → Registry → Type 0
Same r r' = (t : Text) → r t ≡ r' t

pub data Request : Type 0 where
  start stop reload : Text → Request

-- What a request does to the set, and the code that it is answered with.
pub data Registers (r : Registry) : Request → ErrorCode → Registry → Type 0 where
  started :
      (sid : Text) {r' : Registry}
      → r sid ≡ false
      → Same (with_id sid r) r'
      → Registers r (start sid) error_ok r'
  not_forked :
      (sid : Text) {r' : Registry}
      → r sid ≡ false
      → Same r r'
      → Registers r (start sid) fork_failed r'
  there_already :
      (sid : Text) {r' : Registry}
      → r sid ≡ true
      → Same r r'
      → Registers r (start sid) stream_exist r'
  stopped :
      (sid : Text) {r' : Registry}
      → r sid ≡ true
      → Same (without_id sid r) r'
      → Registers r (stop sid) error_ok r'
  nothing_to_stop :
      (sid : Text) {r' : Registry}
      → r sid ≡ false
      → Same r r'
      → Registers r (stop sid) stream_not_exist r'
  reloaded :
      (sid : Text) {r' : Registry} → r sid ≡ true → Same r r' → Registers r (reload sid) error_ok r'
  nothing_to_reload :
      (sid : Text) {r' : Registry}
      → r sid ≡ false
      → Same r r'
      → Registers r (reload sid) stream_not_exist r'

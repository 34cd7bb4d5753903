-- ===== src/RestApi/Requests.antt =====
-- The `try` blocks of the handlers: a body is parsed and checked, and the result is a
-- `process_info`, a jump to a label, or the exception that the `catch` gets.
use pull_stream.Base.{ℤ, not, ◌&&◌, Option, none, some, Text, bytes, null, eq_ℤ, if◌then◌else◌}
use pull_stream.Common.{ProcessInfo, new_process_info, rtmp_2_rtmp, rtsp_2_rtmp}
use pull_stream.External.{parse, External, Except, value, throws, ◌>>=◌}
use pull_stream.Json.{string_at, int_at}

pub data Parsed : Type 0 where
  input_no_match translate_type_unsupport : Parsed
  exception : Text → Parsed
  parsed : ProcessInfo → Parsed

abbrev pub caught : Except Parsed → Parsed
caught (value p) = p
caught (throws what) = exception what

module _ ⦃x : External⦄ where
  open x use {Json, junk}

  -- The rest of the block, on what `reader.parse(body, root, false)` gives.
  abbrev pub try_root : Option Json → (Json → Except Parsed) → Parsed
  try_root none rest = input_no_match
  try_root (some root) rest = caught (rest root)

  -- The checks of `start`, and its last two assignments.
  unfoldable pub check_start : Text → ProcessInfo → Parsed
  check_start host info =
      if null info.src_url
      then input_no_match
      else if null info.dest_url
      then input_no_match
      else if null info.sid
      then input_no_match
      else if not (eq_ℤ info.type rtmp_2_rtmp) && not (eq_ℤ info.type rtsp_2_rtmp)
      then translate_type_unsupport
      else parsed (record info { status = bytes "active"; host = host })

  abbrev pub start_info : Text → Text → Text → ℤ → ProcessInfo
  start_info src dest sid type = record (new_process_info junk) {
    src_url = src;
    dest_url = dest;
    sid = sid;
    type = type;
  }

  unfoldable pub start_root : Text → Json → Except Parsed
  start_root host root = do
    src ← string_at root (bytes "src")
    dest ← string_at root (bytes "dest")
    sid ← string_at root (bytes "sid")
    type ← int_at root (bytes "type")
    value (check_start host (start_info src dest sid type))

  unfoldable pub start_request : Text → Text → Parsed
  unfolding start_root
  start_request host body = try_root (parse body) (start_root host)

  -- The test for an empty id in `stop`.
  abbrev pub check_stop : Text → Parsed
  check_stop sid =
      if null sid then input_no_match else parsed (record (new_process_info junk) { sid = sid })

  unfoldable pub stop_root : Json → Except Parsed
  stop_root root = do sid ← string_at root (bytes "sid"); value (check_stop sid)

  unfoldable pub stop_request : Text → Parsed
  unfolding stop_root
  stop_request body = try_root (parse body) stop_root

  unfoldable pub start_i_root : Json → Except Parsed
  start_i_root root = do
    sid ← string_at root (bytes "sid")
    type ← int_at root (bytes "type")
    value (parsed (record (new_process_info junk) { sid = sid; type = type }))

  unfoldable pub start_i_request : Text → Parsed
  unfolding start_i_root
  start_i_request body = try_root (parse body) start_i_root

  unfoldable pub stop_i_root : Json → Except Parsed
  stop_i_root root = do
    pid ← int_at root (bytes "pid")
    value (parsed (record (new_process_info junk) { pid = pid }))

  unfoldable pub stop_i_request : Text → Parsed
  unfolding stop_i_root
  stop_i_request body = try_root (parse body) stop_i_root

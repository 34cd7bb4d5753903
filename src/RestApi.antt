-- ===== src/RestApi.antt =====
-- The HTTP handlers of `CRestApi` (injectService/pull/src/app/rest_api.cpp). A handler is given
-- what memory holds from the pointer `EVBUFFER_DATA` on, `none` where that is null: the request's
-- body, which no null byte ends, and what lies behind it; `parse` reads up to the first null byte of
-- that. It returns the reply that it hands to
-- `evhttp_send_reply`. The copy of that text into `tmp` is only logged.
mod Replies
mod Requests
pub mod Init
pub mod Boot
pub mod Ends
pub mod Start
pub mod Stop
pub mod Internal
pub mod Served
unfoldable pub use Replies.*
unfoldable pub use Requests.*
use pull_stream.Base.{ℕ, Bool, Option, none, some, Text, bytes, is_some, ◌++◌}
use pull_stream.Biz.{put_data}
use pull_stream.Common.{
  EventType, create_process, reload_process, remove_process, terminate_process, ErrorCode, error_ok,
  stream_exist, ProcessInfo, Event, AppData, error_number,
}
use pull_stream.External.{External}
use pull_stream.World.{undefined_behaviour, World, Action, pure, assert, ◌>>=◌, ◌>>◌, deref}

module _ ⦃x : External⦄ where
  -- What `start` answers to what `put_data` returns.
  start_reply : ErrorCode → Reply
  start_reply stream_exist = stream_exist_reply (error_number stream_exist)
  start_reply _ = success_reply "SUCCESS"

  abbrev pub event : ProcessInfo → EventType → Event
  event info type = record { process = info; type = type }

  start_with : Parsed → Action Reply
  unfolding start_reply
  start_with input_no_match = pure input_no_match_reply
  start_with translate_type_unsupport = pure translate_type_unsupport_reply
  start_with (exception what) = pure (exception_reply what)
  start_with (parsed info) = do ret ← put_data (event info create_process); pure (start_reply ret)

  -- `/pull/inject/start`. The test for null behind the `assert` is dead.
  unfoldable pub start : Option Text → Option AppData → Action Reply
  unfolding start_with
  start body app_data = do
    assert (is_some app_data)
    data' ← deref app_data
    elim body [
      | none ↦ pure (body_null_reply 403 400)
      | some b ↦ start_with (start_request data'.host b)
    ]

  stop_with : Parsed → Action Reply
  stop_with input_no_match = pure input_no_match_reply
  stop_with translate_type_unsupport = pure translate_type_unsupport_reply
  stop_with (exception what) = pure (exception_reply what)
  stop_with (parsed info) = put_data (event info remove_process) >> pure (success_reply "SUCCESS")

  -- `/pull/inject/stop`
  unfoldable pub stop : Option Text → Action Reply
  unfolding stop_with
  stop none = pure (body_null_reply 403 403)
  stop (some b) = stop_with (stop_request b)

  start_i_with : Parsed → Action Reply
  start_i_with input_no_match = pure input_no_match_reply
  start_i_with translate_type_unsupport = pure translate_type_unsupport_reply
  start_i_with (exception what) = pure (exception_reply what)
  start_i_with (parsed info) = put_data (event info reload_process) >> pure (success_reply "ok")

  -- `/pull/inject/i/start`
  unfoldable pub start_i : Option Text → Option AppData → Action Reply
  unfolding start_i_with
  start_i body app_data = do
    assert (is_some app_data)
    elim body [ none ↦ pure (body_null_reply 400 400) | some b ↦ start_i_with (start_i_request b) ]

  stop_i_with : Parsed → Action Reply
  stop_i_with input_no_match = pure input_no_match_reply
  stop_i_with translate_type_unsupport = pure translate_type_unsupport_reply
  stop_i_with (exception what) = pure (exception_reply what)
  stop_i_with (parsed info) = put_data (event info terminate_process) >> pure (success_reply "ok")

  -- `/pull/inject/i/stop`
  unfoldable pub stop_i : Option Text → Option AppData → Action Reply
  unfolding stop_i_with
  stop_i body app_data = do
    assert (is_some app_data)
    elim body [ none ↦ pure (body_null_reply 400 400) | some b ↦ stop_i_with (stop_i_request b) ]

  -- `evbuffer_add_printf(buffer, "%s", text)`: libevent follows the pointer, which may not be null.
  abbrev add_printf : Option Text → Text → Action Text
  add_printf none text = undefined_behaviour
  add_printf (some held) text = pure (held ++ text)

  -- `/health/live`: `buffer` is set to null, and to nothing else.
  unfoldable pub check_alive_i : Action Reply
  check_alive_i = do
    body ← add_printf none (output 0 (bytes "alive"))
    pure (record { code = 200; reason = bytes "OK"; body = body })

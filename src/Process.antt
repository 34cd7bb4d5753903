-- ===== src/Process.antt =====
-- `ProcessCtlModule` (injectService/pull/src/app/processCommonApi.cpp): it forks ffmpeg children,
-- signals them, and keeps the cache in step.
pub mod Calls
pub mod Unique
pub mod Lifecycle
pub mod Race
pub mod Registry
pub mod Views
pub mod Respawns
pub mod Reloads
pub mod Refines
use pull_stream.Base.{
  ℕ, ℤ, pos, Bool, true, false, is_negative, eq_ℤ, Option, none, some, ◌++◌, Text, bytes, c_str,
  take, if◌then◌else◌,
}
use pull_stream.Cache.{
  is_process_exist, add_process_to_cache, update_process_info, get_process_info,
  remove_process_by_stream,
}
use pull_stream.Common.{
  ErrorCode, error_ok, stream_exist, fork_failed, stream_not_exist, ProcessInfo, new_process_info,
}
use pull_stream.External.{External}
use pull_stream.World.{World, Action, pure, on_os, ◌>>=◌, ◌>>◌}

abbrev pub sigkill : ℕ
sigkill = 9

-- What the child hands to `/bin/sh -c`: `snprintf` with the size `FFMPEG_PARAM_MAX_LEN - 1` writes
-- at most 2046 bytes and a null.
pub ffmpeg_command : ProcessInfo → Text
ffmpeg_command param = take 2046 (
    bytes "ffmpeg -v quiet -i "
    ++ (c_str param.src_url ++ (bytes " -c copy -f flv " ++ c_str param.dest_url)))

module _ ⦃x : External⦄ where
  open x use {fork, kill, junk}

  unfoldable pub check_system_process_exist : ℤ → Action Bool
  check_system_process_exist pid = do ret ← on_os (λ s. kill s pid 0); pure (eq_ℤ ret (pos 0))

  -- The parent's branches of the fork: to the parent `fork` returns no 0. What
  -- `add_process_to_cache` returns is not looked at. The callers read nothing of `param` afterwards.
  unfoldable pub fork_and_add : ProcessInfo → Action ErrorCode
  fork_and_add param = do
    pid ← on_os (λ s. fork s (ffmpeg_command param))
    if is_negative pid
        then pure fork_failed
        else (add_process_to_cache (record param { pid = pid }) >> pure error_ok)

  unfoldable pub spawn_process : ProcessInfo → Action ErrorCode
  spawn_process param = do
    (there, temp) ← is_process_exist param.sid (new_process_info junk)
    if there then pure stream_exist else fork_and_add param

  unfoldable pub spawn_process_i : ProcessInfo → Action ErrorCode
  spawn_process_i param = do
    pid ← on_os (λ s. fork s (ffmpeg_command param))
    if is_negative pid
        then pure fork_failed
        else (update_process_info (record param { pid = pid }) >> pure error_ok)

  unfoldable pub process_reload : Text → Action ErrorCode
  process_reload sid = do
    (there, info) ← is_process_exist sid (new_process_info junk)
    if there then (spawn_process_i info >> pure error_ok) else pure stream_not_exist

  unfoldable pub remove_process : ProcessInfo → Action ErrorCode
  remove_process info = do
    found ← get_process_info info.sid
    elim found [
      | none ↦ pure stream_not_exist
      | some p ↦ do remove_process_by_stream p.sid; on_os (λ s. kill s p.pid sigkill); pure error_ok
    ]

  unfoldable pub terminate_process : ProcessInfo → Action ErrorCode
  terminate_process info = do on_os (λ s. kill s info.pid sigkill); pure error_ok

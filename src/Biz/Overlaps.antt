-- ===== src/Biz/Overlaps.antt =====
-- A service with one worker (injectService/pull/src/app/serverBiz.cpp), call by call: the worker's way
-- through `ProcessCtlModule` (injectService/pull/src/app/processCommonApi.cpp) and the schedule
-- thread's look for dead processes, each call on the database or the kernel a step of its own, in any
-- order with those of the other thread.
pub mod Sound
pub mod Whole
use pull_stream.Base.{
  ℕ, zero, suc, ℤ, Bool, true, false, is_negative, Option, none, some, List, [], ◌∷◌, ◌≡◌, refl,
  sym, ap, ◌∙◌, Text, arith, if◌then◌else◌, Bool-cases, inl, inr,
}
use mathlib.Core.Path.{subst}
use pull_stream.Bson.{Doc}
use pull_stream.Cache.{
  process_record, by_sid, by_pid, set_pid, is_process_exist, is_process_exist_by_pid,
  add_process_to_cache, update_process_info, get_process_info, remove_process_by_stream,
  find_all_process,
}
use pull_stream.Cache.Connected.{
  IsConnected, process_at, is_process_exist-connected, is_process_exist_by_pid-connected,
  add_process_to_cache-connected, update_process_info-connected, get_process_info-connected,
  remove_process_by_stream-connected, find_all_process-connected,
}
use pull_stream.Cache.Streams.{
  streams, insert-IsUnique, remove-IsUnique, update-IsUnique, streams-update,
}
use pull_stream.Common.{
  EventType, create_process, remove_process, reload_process, terminate_process, Event, ProcessInfo,
  new_process_info,
}
use pull_stream.External.{External}
use pull_stream.External.Laws.{MongoLaws}
use pull_stream.Process.{check_system_process_exist, ffmpeg_command, sigkill}
use pull_stream.Process.Calls.{cached}
use pull_stream.Process.Unique.{IsSound, os-IsSound, server-IsSound}
use pull_stream.World.{
  World, Action, Outcome, ret, aborted, exited, undefined, pure, on_os, ◌>>=◌, ◌>>◌,
}

-- Where the worker stands: between two events, or before a call of `spawn_process`, `process_reload`
-- with `spawn_process_i`, or `remove_process`.
pub data Place : Type 0 where
  idle : Place
  looking forking storing : ProcessInfo → Place
  reloading : Text → Place
  reforking updating : ProcessInfo → Place
  stopping removing killing : ProcessInfo → Place

-- Where the schedule thread stands, with the processes it has still to look at.
pub data Look : Type 0 where
  resting : Look
  polling : List ProcessInfo → Look
  searching : ℤ → List ProcessInfo → Look
  reviving renewing : ProcessInfo → List ProcessInfo → Look

-- The first call for an event; an event to terminate ends the process.
abbrev pub begin : EventType → ProcessInfo → Option Place
begin create_process info = some (looking info)
begin reload_process info = some (reloading info.sid)
begin remove_process info = some (stopping info)
begin terminate_process info = none

module _ ⦃x : External⦄ where
  open x use {fork, kill, junk}

  -- The worker's next call.
  unfoldable pub call : Place → Action Place
  call idle = pure idle
  call (looking p) = do
    (there, temp) ← is_process_exist p.sid (new_process_info junk)
    pure (if there then idle else forking p)
  call (forking p) = do
    pid ← on_os (λ s. fork s (ffmpeg_command p))
    pure (if is_negative pid then idle else storing (record p { pid = pid }))
  call (storing p) = add_process_to_cache p >> pure idle
  call (reloading sid) = do
    (there, info) ← is_process_exist sid (new_process_info junk)
    pure (if there then reforking info else idle)
  call (reforking p) = do
    pid ← on_os (λ s. fork s (ffmpeg_command p))
    pure (if is_negative pid then idle else updating (record p { pid = pid }))
  call (updating p) = update_process_info p >> pure idle
  call (stopping p) = do
    found ← get_process_info p.sid
    pure (elim found [ none ↦ idle | some q ↦ removing q ])
  call (removing p) = remove_process_by_stream p.sid >> pure (killing p)
  call (killing p) = on_os (λ s. kill s p.pid sigkill) >> pure idle

  -- The schedule thread's next call.
  unfoldable pub look : Look → Action Look
  look resting = do (n, ps) ← find_all_process []; pure (polling ps)
  look (polling []) = pure resting
  look (polling (p ∷ ps)) = do
    alive ← check_system_process_exist p.pid
    pure (if alive then polling ps else searching p.pid ps)
  look (searching pid ps) = do
    (there, info) ← is_process_exist_by_pid pid (new_process_info junk)
    pure (if there then reviving info ps else polling ps)
  look (reviving p ps) = do
    pid ← on_os (λ s. fork s (ffmpeg_command p))
    pure (if is_negative pid then polling ps else renewing (record p { pid = pid }) ps)
  look (renewing p ps) = update_process_info p >> pure (polling ps)

  -- The worker takes whatever event there is once it is done with the one before; then the two
  -- threads make their calls in any order.
  pub data Overlap : World → Place → Look → World → Place → Look → Type 0 where
    here : {w : World} {p : Place} {l : Look} → Overlap w p l w p l
    take :
        (ev : Event) {w v : World} {p p' : Place} {l l' : Look}
        → begin ev.type ev.process ≡ some p
        → Overlap w p l v p' l'
        → Overlap w idle l v p' l'
    work :
        {w u v : World} {p q p' : Place} {l l' : Look}
        → call p w ≡ (ret q, u)
        → Overlap u q l v p' l'
        → Overlap w p l v p' l'
    schedule :
        {w u v : World} {p p' : Place} {l m l' : Look}
        → look l w ≡ (ret m, u)
        → Overlap u p m v p' l'
        → Overlap w p l v p' l'

  -- The worker's calls, so many in a row.
  unfoldable pub calls : ℕ → Place → Action Place
  calls zero p = pure p
  calls (suc n) p = do q ← call p; calls n q

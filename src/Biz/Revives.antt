-- ===== src/Biz/Revives.antt =====
-- `process_alive_detect` of injectService/pull/src/app/serverBiz.cpp, against the set of streams of
-- Process/Registry.
pub mod Dead
use pull_stream.Base.{ℤ, Bool, true, false, List, [], ◌∷◌, if◌then◌else◌}
use pull_stream.Biz.{respawn_found, respawn, revive, revive_all, revive_found, process_alive_detect}
use pull_stream.Cache.{is_process_exist_by_pid, find_all_process}
use pull_stream.Cache.Connected.{is_process_exist_by_pid-connected, find_all_process-connected}
use pull_stream.Common.{ProcessInfo, new_process_info}
use pull_stream.External.{External}
use pull_stream.External.Laws.{MongoLaws, JsonLaws}
use pull_stream.Process.{check_system_process_exist, spawn_process_i}
use pull_stream.Process.Respawns.{
  Unchanged, Unchanged-bind, Unchanged-os, spawn_process_i-Unchanged,
}
use pull_stream.Process.Views.{IsReliable, IsConsistent}
use pull_stream.World.{World, ret, pure}

module _ ⦃x : External⦄ (db : MongoLaws) (json : JsonLaws) (reliable : IsReliable) where
  open x use {kill, junk}

  stays-Unchanged :
      {A : Type 0} (a : A) (w : World) → IsConsistent db json w → Unchanged db json w (ret a, w)
  stays-Unchanged a w k = Unchanged-os db json a w w.os k

  check-Unchanged :
      (pid : ℤ) (w : World)
      → IsConsistent db json w
      → Unchanged db json w (check_system_process_exist pid w)
  unfolding check_system_process_exist
  check-Unchanged pid w k = Unchanged-os db json _ w (kill w.os pid 0).1 k

  respawn_found-Unchanged :
      (r : Bool × ProcessInfo) (w : World)
      → IsConsistent db json w
      → Unchanged db json w (respawn_found r w)
  unfolding respawn_found
  respawn_found-Unchanged (true, info) w k =
      Unchanged-bind db json (spawn_process_i info) (λ _. pure tt) w
        (spawn_process_i-Unchanged db json reliable w k info) (λ _ v kv. stays-Unchanged tt v kv)
  respawn_found-Unchanged (false, info) w k = stays-Unchanged tt w k

  respawn-Unchanged :
      (pid : ℤ) (w : World) → IsConsistent db json w → Unchanged db json w (respawn pid w)
  unfolding respawn
  respawn-Unchanged pid w k =
      Unchanged-bind db json (is_process_exist_by_pid pid (new_process_info junk)) respawn_found w
        (rw (is_process_exist_by_pid-connected w k.connected pid (new_process_info junk))
          (stays-Unchanged _ w k))
        respawn_found-Unchanged

  revive-Unchanged :
      (p : ProcessInfo) (w : World) → IsConsistent db json w → Unchanged db json w (revive p w)
  unfolding revive
  revive-Unchanged p w k =
      Unchanged-bind db json (check_system_process_exist p.pid)
        (λ alive. if alive then pure tt else respawn p.pid) w (check-Unchanged p.pid w k)
        after_check
    where
      after_check :
          (alive : Bool) (v : World)
          → IsConsistent db json v
          → Unchanged db json v ((if alive then pure tt else respawn p.pid) v)
      after_check true v kv = stays-Unchanged tt v kv
      after_check false v kv = respawn-Unchanged p.pid v kv

  revive_all-Unchanged :
      (ps : List ProcessInfo) (w : World)
      → IsConsistent db json w
      → Unchanged db json w (revive_all ps w)
  unfolding revive_all
  revive_all-Unchanged [] w k = stays-Unchanged tt w k
  revive_all-Unchanged (p ∷ ps) w k =
      Unchanged-bind db json (revive p) (λ _. revive_all ps) w (revive-Unchanged p w k)
        (λ _ v kv. revive_all-Unchanged ps v kv)

  -- With a database that takes effect and says so, a look of the schedule thread for dead processes on
  -- a consistent service returns, however many are dead and whichever of the forks fail, leaves the
  -- set of streams, the workers and their queues as they were, and leaves the service consistent.
  pub process_alive_detect-Unchanged :
      (w : World) → IsConsistent db json w → Unchanged db json w (process_alive_detect w)
  unfolding process_alive_detect revive_found
  process_alive_detect-Unchanged w k =
      Unchanged-bind db json (find_all_process []) revive_found w
        (rw (find_all_process-connected w k.connected []) (stays-Unchanged _ w k))
        (λ r v kv.
          Unchanged-bind db json (revive_all r.1) (λ _. pure r.0) v (revive_all-Unchanged r.1 v kv)
            (λ _ u ku. stays-Unchanged r.0 u ku))

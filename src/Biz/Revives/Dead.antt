-- ===== src/Biz/Revives/Dead.antt =====
-- What `process_alive_detect` of injectService/pull/src/app/serverBiz.cpp is for: a process that is
-- dead is started again, and those that live are left alone.
use pull_stream.Base.{
  ℤ, pos, eq_ℤ, Bool, true, false, is_negative, List, [], ◌∷◌, ◌++◌, ◌≡◌, refl, arith,
}
use pull_stream.Biz.{respawn_found, respawn, revive, revive_all, revive_found, process_alive_detect}
use pull_stream.Bson.{Doc, nil}
use pull_stream.Cache.{by_pid, by_sid, set_pid, collect, parser}
use pull_stream.Cache.Connected.{
  IsConnected, process_at, is_process_exist_by_pid-connected, find_all_process-connected,
}
use pull_stream.Common.{ProcessInfo, new_process_info}
use pull_stream.External.{External, bson_as_json}
use pull_stream.Mongo.{push_json}
use pull_stream.Process.{check_system_process_exist, ffmpeg_command}
use pull_stream.Process.Calls.{spawn_process_i-connected}
use pull_stream.World.{World, ret}

module _ ⦃x : External⦄ where
  open x use {Os, fork, kill, collection_find, collection_update, junk}

  -- The processes that `find_all_process` gives.
  abbrev pub all_processes : World → List ProcessInfo
  all_processes w =
      collect (push_json (collection_find w.server (process_at w) nil) []) (new_process_info junk)
        []

  -- The kernel after a look at each process, and what it says of one.
  unfoldable pub polled : List ProcessInfo → Os → Os
  polled [] o = o
  polled (p ∷ ps) o = polled ps (kill o p.pid 0).1

  abbrev pub alive : ProcessInfo → Os → Bool
  alive p o = eq_ℤ (kill o p.pid 0).0 (pos 0)

  unfoldable pub AllAlive : List ProcessInfo → Os → Type 0
  AllAlive [] o = Unit
  AllAlive (p ∷ ps) o = (alive p o ≡ true) × AllAlive ps (kill o p.pid 0).1

  revive_all-alive :
      (ps : List ProcessInfo) (w : World)
      → AllAlive ps w.os
      → revive_all ps w ≡ (ret tt, record w { os = polled ps w.os })
  unfolding revive_all revive check_system_process_exist polled AllAlive
  revive_all-alive [] w h = refl
  revive_all-alive (p ∷ ps) w (lives, h) =
      ground (arith, lives, revive_all-alive ps (record w { os = (kill w.os p.pid 0).1 }) h)

  revive_all-append :
      (ps : List ProcessInfo) (p : ProcessInfo) (qs : List ProcessInfo) (w : World)
      → AllAlive ps w.os
      → revive_all (ps ++ (p ∷ qs)) w ≡ revive_all (p ∷ qs) (record w { os = polled ps w.os })
  unfolding revive_all revive check_system_process_exist polled AllAlive
  revive_all-append [] p qs w h = refl
  revive_all-append (q ∷ ps) p qs w (lives, h) =
      ground (arith, lives, revive_all-append ps p qs (record w { os = (kill w.os q.pid 0).1 }) h)

  module _ (w : World) (c : IsConnected w) (ps : List ProcessInfo) (p : ProcessInfo)
      (qs : List ProcessInfo) (d : Doc) (ds : List Doc) where
    -- The kernel behind the look at the dead process, and the record that it is found under.
    abbrev pub looked : Os
    looked = (kill (polled ps w.os) p.pid 0).1

    abbrev pub dead : ProcessInfo
    dead = (parser (bson_as_json d) (new_process_info junk)).1

    abbrev pub forked : ℤ × Os
    forked = fork looked (ffmpeg_command dead)

    -- Among the processes of the cache one is dead, its record is found under its pid, and the fork
    -- succeeds; the others live when they are looked at.
    pub record HasDead : Type 0 where
      pub all : all_processes w ≡ ps ++ (p ∷ qs)
      pub before : AllAlive ps w.os
      pub gone : alive p (polled ps w.os) ≡ false
      pub recorded : collection_find w.server (process_at w) (by_pid p.pid) ≡ d ∷ ds
      pub succeeds : is_negative forked.0 ≡ false
      pub behind : AllAlive qs forked.1

    -- The service after it.
    abbrev pub revived : World
    revived = record w {
      os = polled qs forked.1;
      server = (collection_update w.server (process_at w) (by_sid dead.sid) (set_pid forked.0)).1;
    }

    respawn-dead :
        HasDead
        → respawn p.pid (record w { os = looked }) ≡ (
          ret tt,
          record w {
            os = forked.1;
            server =
                (collection_update w.server (process_at w) (by_sid dead.sid) (set_pid forked.0)).1;
          },
        )
    unfolding respawn respawn_found
    respawn-dead h =
        let v = record w { os = looked } in
        let cv : IsConnected v = record { client = c.client; handle = c.handle } in
        ground (
          arith,
          is_process_exist_by_pid-connected v cv p.pid (new_process_info junk),
          spawn_process_i-connected v cv dead,
          h.recorded,
          h.succeeds,
        )

    revive_all-dead :
        HasDead → revive_all (p ∷ qs) (record w { os = polled ps w.os }) ≡ (ret tt, revived)
    unfolding revive_all revive check_system_process_exist
    revive_all-dead h = ground (
      arith,
      h.gone,
      respawn-dead h,
      revive_all-alive qs
          (record w {
            os = forked.1;
            server =
                (collection_update w.server (process_at w) (by_sid dead.sid) (set_pid forked.0)).1;
          })
          h.behind,
    )

    -- On a connected service where one process of the cache is dead, its record is found under its
    -- pid, the fork succeeds, and the others live when they are looked at: a look of the schedule
    -- thread forks once, with the command of the stream whose process is dead, and puts the pid of
    -- the new child under the stream's id in the cache; it forks none of the others, ends none, and
    -- changes nothing else.
    pub process_alive_detect-revives : HasDead → process_alive_detect w ≡ (ret 0, revived)
    unfolding process_alive_detect revive_found
    process_alive_detect-revives h = ground (
      arith,
      find_all_process-connected w c [],
      h.all,
      revive_all-append ps p qs w h.before,
      revive_all-dead h,
    )

-- ===== src/Process/Race.antt =====
-- Two workers that run `spawn_process` (injectService/pull/src/app/processCommonApi.cpp) at one time:
-- its look-up and its insertion as two steps, in any order with those of the other worker.
use pull_stream.Base.{
  ◌+◌, true, false, is_negative, ◌≡◌, ap, ◌∙◌, sym, length, arith, if◌then◌else◌,
}
use pull_stream.Cache.{by_sid, is_process_exist}
use pull_stream.Cache.Connected.{IsConnected, process_at, is_process_exist-connected}
use pull_stream.Cache.Streams.{streams, streams-insert_stored, IsUnique}
use pull_stream.Common.{ErrorCode, error_ok, stream_exist, ProcessInfo, new_process_info}
use pull_stream.External.{External}
use pull_stream.External.Laws.{MongoLaws}
use pull_stream.Process.{ffmpeg_command, fork_and_add, spawn_process}
use pull_stream.Process.Calls.{fork_and_add-connected, forked_record}
use pull_stream.Process.Lifecycle.{Starts, started}
use pull_stream.World.{World, Action, ret, pure, ◌>>=◌}

module _ ⦃x : External⦄ where
  open x use {collection_find, collection_insert, fork, getpid, junk}

  -- Where a worker stands in `spawn_process`: before the look-up, behind it, at the end.
  pub data Place : Type 0 where
    looking : ProcessInfo → Place
    starting : ProcessInfo → Place
    done : ErrorCode → Place

  -- The two parts of `spawn_process`, each one step.
  unfoldable pub look_up : ProcessInfo → Action Place
  look_up param = do
    (there, temp) ← is_process_exist param.sid (new_process_info junk)
    if there then pure (done stream_exist) else pure (starting param)

  unfoldable pub start : ProcessInfo → Action Place
  start param = do e ← fork_and_add param; pure (done e)

  -- The parts, one after the other.
  abbrev pub finish : Place → Action ErrorCode
  finish (looking param) = spawn_process param
  finish (starting param) = fork_and_add param
  finish (done e) = pure e

  -- One worker alone: the two steps are the function.
  pub spawn_process-steps :
      (w : World) (info : ProcessInfo) → spawn_process info w ≡ (look_up info >>= finish) w
  unfolding spawn_process look_up
  spawn_process-steps w info = ground arith

  -- One worker's step in a world, and the steps of two workers in any order.
  pub data Move (w : World) : Place → World → Place → Type 0 where
    look :
        (info : ProcessInfo) {v : World} {p : Place}
        → look_up info w ≡ (ret p, v)
        → Move w (looking info) v p
    run :
        (info : ProcessInfo) {v : World} {p : Place}
        → start info w ≡ (ret p, v)
        → Move w (starting info) v p

  pub data Turns (w : World) (a b : Place) : World → Place → Place → Type 0 where
    here : Turns w a b w a b
    first_moves :
        {v u : World} {a' a'' b' : Place}
        → Turns w a b v a' b'
        → Move v a' u a''
        → Turns w a b u a'' b'
    second_moves :
        {v u : World} {a' b' b'' : Place}
        → Turns w a b v a' b'
        → Move v b' u b''
        → Turns w a b u a' b''

  module _ (laws : MongoLaws) (w : World) (info : ProcessInfo) (s : Starts w info) where
    open laws use {find_lem}

    looked : look_up info w ≡ (ret (starting info), w)
    unfolding look_up
    looked =
        ground (
          arith,
          is_process_exist-connected w s.connected info.sid (new_process_info junk),
          s.absent,
        )

    -- The fork and the insertion succeed in a world.
    pub record Succeeds (v : World) : Type 0 where
      pub forked : is_negative (fork v.os (ffmpeg_command info)).0 ≡ false
      pub stored : (collection_insert v.server (process_at v) (forked_record v info)).0 ≡ true

    start_lem :
        (v : World)
        → IsConnected v
        → Succeeds v
        → start info v ≡ (ret (done error_ok), started v info)
    unfolding start
    start_lem v c ok = ground (arith, fork_and_add-connected v c info, ok.forked)

    abbrev once : World
    once = started w info

    abbrev twice : World
    twice = started once info

    once-IsConnected : IsConnected once
    once-IsConnected = record { client = s.connected.client; handle = s.connected.handle }

    streams_none : streams laws w.server (process_at w) info.sid ≡ 0
    streams_none = ap length (sym (find_lem w.server (process_at w) (by_sid info.sid)) ∙ s.absent)

    streams-started :
        (v : World)
        → Succeeds v
        → streams laws (started v info).server (process_at v) info.sid
          ≡ streams laws v.server (process_at v) info.sid + 1
    streams-started v ok =
        streams-insert_stored laws v.server (process_at v)
          (record info { pid = (fork v.os (ffmpeg_command info)).0 })
          (getpid (fork v.os (ffmpeg_command info)).1) ok.stored

    -- A stream that the database has no record of, and two workers that are asked to start it: where
    -- the forks and the insertions succeed, there is an order of their steps after which both have
    -- returned `ERROR_OK` and the database has two records of the stream. So the uniqueness that the
    -- calls keep one after another is lost when they overlap.
    pub spawn_process_race :
        Succeeds once
        → Turns w (looking info) (looking info) twice (done error_ok) (done error_ok)
          × (streams laws twice.server (process_at w) info.sid ≡ 2)
          × ¬ IsUnique laws (process_at w) twice.server
    spawn_process_race again =
        let ok : Succeeds w = record { forked = s.forked; stored = s.stored } in
        let two : streams laws twice.server (process_at w) info.sid ≡ 2 =
          omega (arith, streams-started once again, streams-started w ok, streams_none) in
        (
          second_moves
              (first_moves (second_moves (first_moves here (look info looked)) (look info looked))
                (run info (start_lem w s.connected ok)))
              (run info (start_lem once once-IsConnected again)),
          two,
          λ u. omega (arith, u.at_most_one info.sid, two),
        )

-- ===== src/Examples/Overlaps.antt =====
-- One worker and the schedule thread, call by call, at examples.
use pull_stream.Base.{[], pos, ◌≡◌, refl}
use pull_stream.Biz.Overlaps.{
  idle, looking, forking, storing, resting, polling, call, look, Overlap,
}
use pull_stream.Biz.Overlaps.Sound.{Overlap-IsSound}
use pull_stream.Common.{create_process, ProcessInfo}
use pull_stream.Examples.Machine.{toy, toy_mongo}
use pull_stream.Examples.Setting.{service, camera, camera_event}
use pull_stream.Examples.Threads.{service-IsSound}
use pull_stream.Process.Unique.{IsSound}
use pull_stream.World.{World, ret}

abbrev child : ProcessInfo
child = record camera { pid = pos 1000 }

abbrev forked : World
forked = (call (forking camera) service).1

abbrev stored : World
stored = (call (storing child) forked).1

looks : call (looking camera) service ≡ (ret (forking camera), service)
unfolding call pull_stream.Cache.is_process_exist pull_stream.Cache.open_collection
looks = refl

asks : look resting service ≡ (ret (polling []), service)
unfolding look pull_stream.Cache.find_all_process pull_stream.Cache.open_collection
    pull_stream.Cache.collect
asks = refl

forks : call (forking camera) service ≡ (ret (storing child), forked)
unfolding call pull_stream.Examples.Machine.machine_fork
forks = refl

stores : call (storing child) forked ≡ (ret idle, stored)
unfolding call pull_stream.Cache.add_process_to_cache pull_stream.Cache.open_collection
stores = refl

-- The schedule thread asks for all processes between the worker's look-up and its fork.
some-Overlap : Overlap service idle resting stored idle (polling [])
some-Overlap = Overlap.take (camera_event create_process) refl (
    Overlap.work looks
      (Overlap.schedule asks (Overlap.work forks (Overlap.work stores Overlap.here))))

Overlap-IsSound_example : IsSound toy_mongo stored
Overlap-IsSound_example = Overlap-IsSound toy_mongo some-Overlap service-IsSound

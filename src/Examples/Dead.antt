-- ===== src/Examples/Dead.antt =====
-- A look at the processes of which one is dead, at an example.
use pull_stream.Base.{pos, [], ◌∷◌, ◌≡◌, refl, bytes}
use pull_stream.Bson.{Doc}
use pull_stream.Biz.{process_alive_detect}
use pull_stream.Biz.Revives.Dead.{HasDead, revived, process_alive_detect-revives}
use pull_stream.Cache.{process_record}
use pull_stream.Cache.Connected.{IsConnected}
use pull_stream.Common.{ProcessInfo}
use pull_stream.Examples.Machine.{toy, machine_kill, machine_fork}
use pull_stream.Examples.Setting.{service, camera}
use pull_stream.World.{World, ret}

abbrev other : ProcessInfo
other = record camera { sid = bytes "s2" }

abbrev first_process : ProcessInfo
first_process = record camera { pid = pos 1000; ppid = pos 77; status = bytes "active" }

abbrev second_process : ProcessInfo
second_process = record other { pid = pos 1001; ppid = pos 77; status = bytes "active" }

abbrev first_record : Doc
first_record = process_record (record camera { pid = pos 1000 }) (pos 77)

abbrev second_record : Doc
second_record = process_record (record other { pid = pos 1001 }) (pos 77)

-- Two streams in the cache, and the process of the first has ended.
abbrev one_dead : World
one_dead = record service {
  os = record service.os { next = 2; alive = pos 1001 ∷ [] };
  server = λ c. first_record ∷ second_record ∷ [];
}

one_dead-IsConnected : IsConnected one_dead
one_dead-IsConnected = record { client = refl; handle = λ _ _. refl }

one_dead-HasDead :
    HasDead one_dead one_dead-IsConnected [] first_process (second_process ∷ []) first_record []
unfolding machine_fork machine_kill bytes pull_stream.Cache.collect pull_stream.Mongo.push_json
    pull_stream.Examples.Store.fits pull_stream.Cache.parser pull_stream.External.parse
    pull_stream.Examples.Reader.parse_node pull_stream.Json.string_at pull_stream.Json.int_at
    pull_stream.Examples.Reader.member_node pull_stream.Examples.Reader.text_of
    pull_stream.Examples.Reader.int_of pull_stream.Bson.doc_get
    pull_stream.Examples.Reader.unshifted pull_stream.Base.c_str pull_stream.External.bson_as_json
    pull_stream.Examples.Reader.shifted pull_stream.Examples.Reader.print pull_stream.Base.text_eq
    pull_stream.Biz.Revives.Dead.AllAlive pull_stream.Biz.Revives.Dead.polled
one_dead-HasDead = record {
  all = refl;
  before = tt;
  gone = refl;
  recorded = refl;
  succeeds = refl;
  behind = (refl, tt);
}

process_alive_detect-revives_example : process_alive_detect one_dead ≡ (
  ret 0,
  revived one_dead one_dead-IsConnected [] first_process (second_process ∷ []) first_record [],
)
process_alive_detect-revives_example =
    process_alive_detect-revives one_dead one_dead-IsConnected [] first_process
      (second_process ∷ []) first_record [] one_dead-HasDead

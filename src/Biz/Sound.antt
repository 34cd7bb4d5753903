-- ===== src/Biz/Sound.antt =====
-- The HTTP thread, the workers and the schedule thread of injectService/pull/src/app/serverBiz.cpp,
-- taking turns, where a worker handles an event, and the schedule thread makes its round, without
-- another thread in between.
use pull_stream.Base.{
  ℕ, ℤ, Bool, true, false, List, [], ◌∷◌, Option, none, some, get_elem?, set, if◌then◌else◌,
}
use pull_stream.Biz.{
  put_data, advance, respawn_found, revive_found, next_index, push, pop, handle, handle_front,
  pop_front, set_worker, worker_round, respawn, revive, revive_all, process_alive_detect,
}
use pull_stream.Cache.{find_all_process, is_process_exist_by_pid}
use pull_stream.Cache.Connected.{is_process_exist_by_pid-connected, find_all_process-connected}
use pull_stream.Common.{
  EventType, create_process, reload_process, remove_process, terminate_process, ProcessInfo, Event,
  error_ok, new_process_info,
}
use pull_stream.External.{External}
use pull_stream.External.Laws.{MongoLaws}
use pull_stream.Process
use pull_stream.Process.{spawn_process, process_reload, spawn_process_i, check_system_process_exist}
use pull_stream.Process.Unique.{
  IsSound, Keeps, os-IsSound, spawn_process-IsSound, spawn_process_i-IsSound,
  process_reload-IsSound, remove_process-IsSound,
}
use pull_stream.World.{
  WorkerContext, World, Action, modify, Outcome, ret, aborted, exited, undefined, pure, deref,
  ◌>>=◌, ◌>>◌,
}

module _ ⦃x : External⦄ (laws : MongoLaws) where
  open x use {kill, junk}

  -- A change of the threads' state alone.
  threads-IsSound :
      (w : World) (ws : List WorkerContext) (i : ℕ)
      → IsSound laws w
      → IsSound laws (record w { worker_list = ws; worker_index = i })
  threads-IsSound w ws i h = record {
    connected = record { client = h.connected.client; handle = h.connected.handle };
    unique = record { at_most_one = h.unique.at_most_one };
  }

  -- What keeps the state sound in its two parts keeps it sound.
  Keeps-outcome :
      {A B : Type 0} (o : Outcome A) (w : World) (f : A → Action B)
      → IsSound laws w
      → ((a : A) → Keeps laws (f a w))
      → Keeps laws (◌>>=◌ (λ _. (o, w)) f w)
  Keeps-outcome (ret a) w f h k = k a
  Keeps-outcome aborted w f h k = h
  Keeps-outcome (exited n) w f h k = h
  Keeps-outcome undefined w f h k = h

  Keeps-bind :
      {A B : Type 0} (m : Action A) (f : A → Action B) (w : World)
      → Keeps laws (m w)
      → ((a : A) (v : World) → IsSound laws v → Keeps laws (f a v))
      → Keeps laws ((m >>= f) w)
  Keeps-bind m f w h k = Keeps-outcome (m w).0 (m w).1 f h (λ a. k a (m w).1 h)

  deref-Keeps : {A : Type 0} (o : Option A) (w : World) → IsSound laws w → Keeps laws (deref o w)
  deref-Keeps none w h = h
  deref-Keeps (some a) w h = h

  -- A worker's event, a worker's round, the schedule thread's round, and a request's event.
  handle-Keeps :
      (t : EventType) (info : ProcessInfo) (w : World)
      → IsSound laws w
      → Keeps laws (handle t info w)
  unfolding handle
  handle-Keeps create_process info w h =
      Keeps-bind (spawn_process info) (λ _. pure tt) w (spawn_process-IsSound laws w info h)
        (λ _ u hu. hu)
  handle-Keeps remove_process info w h =
      Keeps-bind (Process.remove_process info) (λ _. pure tt) w
        (remove_process-IsSound laws w info h) (λ _ u hu. hu)
  handle-Keeps reload_process info w h =
      Keeps-bind (process_reload info.sid) (λ _. pure tt) w
        (process_reload-IsSound laws w info.sid h) (λ _ u hu. hu)
  handle-Keeps terminate_process info w h = h

  pop_front-Keeps : (i : ℕ) (w : World) → IsSound laws w → Keeps laws (pop_front i w)
  unfolding pop_front
  pop_front-Keeps i w h =
      Keeps-bind (deref (get_elem? w.worker_list i)) (λ c. set_worker i (pop c) >> pure true) w
        (deref-Keeps (get_elem? w.worker_list i) w h)
        (λ c u hu. threads-IsSound u (set u.worker_list i (pop c)) u.worker_index hu)

  handle_front-Keeps :
      (i : ℕ) (q : List Event) (w : World) → IsSound laws w → Keeps laws (handle_front i q w)
  unfolding handle_front
  handle_front-Keeps i [] w h = h
  handle_front-Keeps i (ev ∷ q) w h =
      Keeps-bind (handle ev.type ev.process) (λ _. pop_front i) w
        (handle-Keeps ev.type ev.process w h) (λ _ v hv. pop_front-Keeps i v hv)

  worker_round-Keeps : (i : ℕ) (w : World) → IsSound laws w → Keeps laws (worker_round i w)
  unfolding worker_round
  worker_round-Keeps i w h =
      Keeps-bind (deref (get_elem? w.worker_list i)) (λ c. handle_front i c.queue) w
        (deref-Keeps (get_elem? w.worker_list i) w h) (λ c v hv. handle_front-Keeps i c.queue v hv)

  advance-Keeps : (w : World) → IsSound laws w → Keeps laws (advance w)
  unfolding advance
  advance-Keeps w h =
      Keeps-bind (deref (next_index w.worker_index w.worker_max))
        (λ next. modify (λ v. record v { worker_index = next }) >> pure error_ok) w
        (deref-Keeps (next_index w.worker_index w.worker_max) w h)
        (λ next v hv. threads-IsSound v v.worker_list next hv)

  put_data-Keeps : (ev : Event) (w : World) → IsSound laws w → Keeps laws (put_data ev w)
  unfolding put_data
  put_data-Keeps ev w h =
      Keeps-bind (deref (get_elem? w.worker_list w.worker_index))
        (λ c. set_worker w.worker_index (push ev c) >> advance) w
        (deref-Keeps (get_elem? w.worker_list w.worker_index) w h)
        (λ c v hv.
          advance-Keeps _
            (threads-IsSound v (set v.worker_list w.worker_index (push ev c)) v.worker_index hv))

  check-Keeps :
      (pid : ℤ) (w : World) → IsSound laws w → Keeps laws (check_system_process_exist pid w)
  unfolding check_system_process_exist
  check-Keeps pid w h = os-IsSound laws w _ h

  respawn_found-Keeps :
      (r : Bool × ProcessInfo) (w : World) → IsSound laws w → Keeps laws (respawn_found r w)
  unfolding respawn_found
  respawn_found-Keeps (true, info) w h =
      Keeps-bind (spawn_process_i info) (λ _. pure tt) w (spawn_process_i-IsSound laws w info h)
        (λ _ u hu. hu)
  respawn_found-Keeps (false, info) w h = h

  respawn-Keeps : (pid : ℤ) (w : World) → IsSound laws w → Keeps laws (respawn pid w)
  unfolding respawn
  respawn-Keeps pid w h =
      Keeps-bind (is_process_exist_by_pid pid (new_process_info junk)) respawn_found w
        (rw (is_process_exist_by_pid-connected w h.connected pid (new_process_info junk)) h)
        respawn_found-Keeps

  revive-Keeps : (p : ProcessInfo) (w : World) → IsSound laws w → Keeps laws (revive p w)
  unfolding revive
  revive-Keeps p w h =
      Keeps-bind (check_system_process_exist p.pid)
        (λ alive. if alive then pure tt else respawn p.pid) w (check-Keeps p.pid w h) after_check
    where
      after_check :
          (alive : Bool) (v : World)
          → IsSound laws v
          → Keeps laws ((if alive then pure tt else respawn p.pid) v)
      after_check true v hv = hv
      after_check false v hv = respawn-Keeps p.pid v hv

  revive_all-Keeps :
      (ps : List ProcessInfo) (w : World) → IsSound laws w → Keeps laws (revive_all ps w)
  unfolding revive_all
  revive_all-Keeps [] w h = h
  revive_all-Keeps (p ∷ ps) w h =
      Keeps-bind (revive p) (λ _. revive_all ps) w (revive-Keeps p w h)
        (λ _ v hv. revive_all-Keeps ps v hv)

  process_alive_detect-Keeps : (w : World) → IsSound laws w → Keeps laws (process_alive_detect w)
  unfolding process_alive_detect
  process_alive_detect-Keeps w h =
      Keeps-bind (find_all_process []) revive_found w
        (rw (find_all_process-connected w h.connected []) h) revive_found-Keeps
    where
      revive_found-Keeps :
          (r : ℕ × List ProcessInfo) (v : World) → IsSound laws v → Keeps laws (revive_found r v)
      revive_found-Keeps (n, ps) v hv =
          Keeps-bind (revive_all ps) (λ _. pure n) v (revive_all-Keeps ps v hv) (λ _ u hu. hu)

  -- What the threads of a service do, one call at a time: the HTTP thread puts an event into a queue,
  -- worker `i` makes a round of its inner loop, the schedule thread looks for dead processes.
  pub data SerialStep (w : World) : World → Type 0 where
    request : (ev : Event) → SerialStep w (put_data ev w).1
    work : (i : ℕ) → SerialStep w (worker_round i w).1
    schedule : SerialStep w (process_alive_detect w).1

  pub data SerialReach (w : World) : World → Type 0 where
    here : SerialReach w w
    next : {u v : World} → SerialReach w u → SerialStep u v → SerialReach w v

  SerialStep-IsSound : {w v : World} → SerialStep w v → IsSound laws w → IsSound laws v
  SerialStep-IsSound {w} (request ev) h = put_data-Keeps ev w h
  SerialStep-IsSound {w} (work i) h = worker_round-Keeps i w h
  SerialStep-IsSound {w} schedule h = process_alive_detect-Keeps w h

  -- In a serial run of the threads, in which no handling of an event and no look overlaps another,
  -- with a database whose finds do not fail, a connected service whose cache has at most one record
  -- for each stream stays so.
  pub SerialReach-IsSound : {w v : World} → SerialReach w v → IsSound laws w → IsSound laws v
  SerialReach-IsSound here h = h
  SerialReach-IsSound (next r s) h = SerialStep-IsSound s (SerialReach-IsSound r h)

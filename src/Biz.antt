-- ===== src/Biz.antt =====
-- The threads of `ServerBiz` (injectService/pull/src/app/serverBiz.cpp): the HTTP thread puts events
-- into the workers' queues in turn, each worker takes the events of its queue, and the schedule
-- thread looks for dead processes. A call here is what one thread does between two waits.
pub mod Queues
pub mod Robin
pub mod Handle
pub mod Drain
pub mod Revives
pub mod Refines
pub mod Sound
pub mod Turns
pub mod Overtakes
pub mod Overlaps
use pull_stream.Base.{
  ℕ, zero, suc, ◌+◌, ◌%◌, ℤ, pos, negsuc, Bool, true, false, not, List, [], ◌∷◌, ◌++◌, Option, none,
  some, Text, get_elem?, set, ◌==◌, if◌then◌else◌,
}
use pull_stream.Cache.{find_all_process, is_process_exist_by_pid}
use pull_stream.Common.{
  EventType, create_process, reload_process, remove_process, terminate_process, ErrorCode, error_ok,
  ProcessInfo, new_process_info, Event,
}
use pull_stream.External.{External}
use pull_stream.Process
use pull_stream.Process.{check_system_process_exist, spawn_process, spawn_process_i, process_reload}
use pull_stream.World.{
  WorkerContext, World, Action, pure, gets, modify, undefined_behaviour, exit, assert, on_os, deref,
  ◌>>=◌, ◌>>◌,
}

abbrev pub push : Event → WorkerContext → WorkerContext
push ev context = record context { queue = context.queue ++ (ev ∷ []) }

abbrev pub tail : {A : Type 0} → List A → List A
tail [] = []
tail (a ∷ rest) = rest

abbrev pub pop : WorkerContext → WorkerContext
pop context = record context { queue = tail context.queue }

-- `(index + 1) % max` in `int`, with a positive left side; by zero it is a fault.
abbrev pub next_index : ℕ → ℤ → Option ℕ
next_index index (pos zero) = none
next_index index (pos (suc m)) = some ((index + 1) % suc m)
next_index index (negsuc m) = some ((index + 1) % suc m)

module _ ⦃x : External⦄ where
  open x use {junk, pthread_create}

  abbrev pub set_worker : ℕ → WorkerContext → Action (Unit {0})
  set_worker i context = modify (λ w. record w { worker_list = set w.worker_list i context })

  -- `worker_index = (worker_index + 1) % worker_max`
  unfoldable pub advance : Action ErrorCode
  advance = do
    i ← gets (λ w. w.worker_index)
    max ← gets (λ w. w.worker_max)
    next ← deref (next_index i max)
    modify (λ w. record w { worker_index = next })
    pure error_ok

  -- The mutex makes the call one step.
  unfoldable pub put_data : Event → Action ErrorCode
  unfolding advance
  put_data ev = do
    i ← gets (λ w. w.worker_index)
    list ← gets (λ w. w.worker_list)
    context ← deref (get_elem? list i)
    set_worker i (push ev context)
    advance

  -- The `switch` of `worker_loop`: what the calls return is only logged.
  unfoldable pub handle : EventType → ProcessInfo → Action (Unit {0})
  handle create_process info = spawn_process info >> pure tt
  handle remove_process info = Process.remove_process info >> pure tt
  handle reload_process info = process_reload info.sid >> pure tt
  handle terminate_process info = assert false

  -- `q->pop()` of worker `i`.
  unfoldable pub pop_front : ℕ → Action Bool
  pop_front i = do
    list ← gets (λ w. w.worker_list)
    context ← deref (get_elem? list i)
    set_worker i (pop context)
    pure true

  -- One round of `while(!q->empty())` of worker `i`: whether there was an event.
  handle_front : ℕ → List Event → Action Bool
  unfolding pop_front
  handle_front i [] = pure false
  handle_front i (ev ∷ q) = handle ev.type ev.process >> pop_front i

  unfoldable pub worker_round : ℕ → Action Bool
  unfolding handle_front
  worker_round i = do
    list ← gets (λ w. w.worker_list)
    context ← deref (get_elem? list i)
    handle_front i context.queue

  -- The loop `while(!q->empty())`, on fuel: whether the queue is empty at the end.
  unfoldable pub worker_drain : ℕ → ℕ → Action Bool
  worker_drain zero i = pure false
  worker_drain (suc fuel) i = do
    more ← worker_round i
    elim more [ true ↦ worker_drain fuel i | false ↦ pure true ]

  -- A dead process is forked again if it is in the cache.
  respawn_found : Bool × ProcessInfo → Action (Unit {0})
  respawn_found (there, info) = if there then (spawn_process_i info >> pure tt) else pure tt

  unfoldable pub respawn : ℤ → Action (Unit {0})
  unfolding respawn_found
  respawn pid = do r ← is_process_exist_by_pid pid (new_process_info junk); respawn_found r

  -- The body of the loop of `process_alive_detect`.
  unfoldable pub revive : ProcessInfo → Action (Unit {0})
  revive item = do
    alive ← check_system_process_exist item.pid
    if alive then pure tt else respawn item.pid

  unfoldable pub revive_all : List ProcessInfo → Action (Unit {0})
  revive_all [] = pure tt
  revive_all (p ∷ ps) = revive p >> revive_all ps

  revive_found : ℕ × List ProcessInfo → Action ℕ
  revive_found (ret, processes) = revive_all processes >> pure ret

  unfoldable pub process_alive_detect : Action ℕ
  unfolding revive_found
  process_alive_detect = do r ← find_all_process []; revive_found r

  abbrev add_worker : ℕ → Action (Unit {0})
  add_worker i = modify λ w. record w {
    worker_list = w.worker_list ++ (record { queue = []; running = true; tid = i } ∷ []);
  }

  -- The loop of `create_worker_thread`, from worker `i` on.
  unfoldable pub create_workers : ℕ → ℕ → Action ErrorCode
  create_workers zero i = pure error_ok
  create_workers (suc rounds) i = do
    ret ← on_os pthread_create
    elim (ret == 0) [ true ↦ add_worker i >> create_workers rounds (i + 1) | false ↦ exit 1 ]

  -- A negative number of rounds is none.
  unfoldable pub create_worker_thread : ℤ → Action ErrorCode
  unfolding create_workers
  create_worker_thread (pos n) = create_workers n 0
  create_worker_thread (negsuc n) = pure error_ok

  -- `ServerBiz::init` returns `ERROR_OK` as a `bool`.
  unfoldable pub init : ℤ → Action Bool
  unfolding create_worker_thread
  init worker_num = do
    modify (λ w. record w { worker_index = 0; worker_max = worker_num })
    create_worker_thread worker_num
    pure false

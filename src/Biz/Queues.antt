-- ===== src/Biz/Queues.antt =====
-- `put_data` on a service whose workers are running.
use pull_stream.Base.{
  ℕ, zero, suc, ◌+◌, ◌%◌, ◌<◌, pos, true, false, List, [], ◌∷◌, ◌++◌, ◌≡◌, refl, ap, sym, ◌∙◌, some,
  arith, append-nil, append_assoc, get_elem?, set, length, length-set, get_elem?_lt,
}
use pull_stream.Biz.{put_data, push, create_workers, init}
use pull_stream.Common.{ErrorCode, error_ok, Event}
use pull_stream.External.{External}
use pull_stream.World.{WorkerContext, World, Outcome, ret}

module _ ⦃x : External⦄ where
  open x use {Os, pthread_create}

  -- The service has `n` workers, and the next event goes to one of them.
  pub record IsRunning (n : ℕ) (w : World) : Type 0 where
    pub max : w.worker_max ≡ pos n
    pub workers : length w.worker_list ≡ n
    pub index : w.worker_index < n

  -- What `put_data` leaves, for the worker whose turn it is.
  abbrev pub after_put : Event → World → ℕ → WorkerContext → World
  after_put ev w n context = record w {
    worker_list = set w.worker_list w.worker_index (push ev context);
    worker_index = (w.worker_index + 1) % n;
  }

  pub put_data_lem :
      (n : ℕ) (ev : Event) (w : World) (context : WorkerContext)
      → IsRunning n w
      → get_elem? w.worker_list w.worker_index ≡ some context
      → put_data ev w ≡ (ret error_ok, after_put ev w n context)
  unfolding put_data
  put_data_lem zero ev w context r e = absurd (omega (arith, r.index))
  put_data_lem (suc n) ev w context r e = ground arith

  pub after_put-IsRunning :
      (n : ℕ) (ev : Event) (w : World) (context : WorkerContext)
      → IsRunning n w
      → IsRunning n (after_put ev w n context)
  after_put-IsRunning n ev w context r = record {
    max = r.max;
    workers = length-set w.worker_list w.worker_index (push ev context) ∙ r.workers;
    index = grind (arith, r.index);
  }

  -- On a service with running workers `put_data` succeeds, and leaves the workers running.
  pub put_data_runs :
      (n : ℕ) (ev : Event) (w : World)
      → IsRunning n w
      → (context : WorkerContext) × (get_elem? w.worker_list w.worker_index ≡ some context)
        × (put_data ev w ≡ (ret error_ok, after_put ev w n context))
        × IsRunning n (after_put ev w n context)
  put_data_runs n ev w r =
      let (context, e) =
        get_elem?_lt w.worker_list w.worker_index (omega (arith, r.index, r.workers)) in
      (context, e, put_data_lem n ev w context r e, after_put-IsRunning n ev w context r)

  -- Every `pthread_create` succeeds.
  abbrev pub ThreadsStart : Type 0
  ThreadsStart = (o : Os) → (pthread_create o).0 ≡ 0

  abbrev pub idle_worker : ℕ → WorkerContext
  idle_worker i = record { queue = []; running = true; tid = i }

  -- One more worker, with an empty queue.
  abbrev started : ℕ → World → World
  started i w = record w {
    os = (pthread_create w.os).1;
    worker_list = w.worker_list ++ (idle_worker i ∷ []);
  }

  create_workers-suc :
      (ok : ThreadsStart) (rounds i : ℕ) (w : World)
      → create_workers (suc rounds) i w ≡ create_workers rounds (i + 1) (started i w)
  unfolding create_workers
  create_workers-suc ok rounds i w = ground (arith, ok w.os)

  -- Workers `i`, `i + 1`, …, as many as there are rounds.
  abbrev pub idle_workers : ℕ → ℕ → List WorkerContext
  idle_workers zero i = []
  idle_workers (suc rounds) i = idle_worker i ∷ idle_workers rounds (i + 1)

  length-idle_workers : (rounds i : ℕ) → length (idle_workers rounds i) ≡ rounds
  length-idle_workers zero i = refl
  length-idle_workers (suc rounds) i = ap suc (length-idle_workers rounds (i + 1))

  -- The state that `create_workers` leaves.
  record Created (rounds i : ℕ) (w : World) (r : Outcome ErrorCode × World) : Type 0 where
    result : r.0 ≡ ret error_ok
    list : r.1.worker_list ≡ w.worker_list ++ idle_workers rounds i
    max : r.1.worker_max ≡ w.worker_max
    index : r.1.worker_index ≡ w.worker_index
    server : r.1.server ≡ w.server

  create_workers-Created :
      (ok : ThreadsStart) (rounds i : ℕ) (w : World)
      → Created rounds i w (create_workers rounds i w)
  unfolding create_workers
  create_workers-Created ok zero i w = record {
    result = refl;
    list = sym (append-nil w.worker_list);
    max = refl;
    index = refl;
    server = refl;
  }
  create_workers-Created ok (suc rounds) i w =
      let c = create_workers-Created ok rounds (i + 1) (started i w) in
      rw (create_workers-suc ok rounds i w) (record {
        result = c.result;
        list =
            c.list ∙ append_assoc w.worker_list (idle_worker i ∷ []) (idle_workers rounds (i + 1));
        max = c.max;
        index = c.index;
        server = c.server;
      })

  abbrev cleared : ℕ → World → World
  cleared n w = record w { worker_index = 0; worker_max = pos n }

  init-create_workers :
      (ok : ThreadsStart) (n : ℕ) (w : World)
      → init (pos n) w ≡ (ret false, (create_workers n 0 (cleared n w)).1)
  unfolding init
  init-create_workers ok n w = ground (arith, (create_workers-Created ok n 0 (cleared n w)).result)

  -- Where every thread starts, `init` with a positive number of workers, on a service that has none,
  -- makes that many workers with empty queues, and the first event goes to the first of them.
  pub init-IsRunning :
      (ok : ThreadsStart) (n : ℕ) (w : World)
      → 0 < n
      → w.worker_list ≡ []
      → IsRunning n (init (pos n) w).1
        × ((init (pos n) w).1.worker_list ≡ idle_workers n 0)
        × ((init (pos n) w).1.worker_index ≡ 0)
  init-IsRunning ok n w h none_yet =
      let c = create_workers-Created ok n 0 (cleared n w) in
      let list = c.list ∙ ap (λ (ws : List WorkerContext). ws ++ idle_workers n 0) none_yet in
      rw (init-create_workers ok n w) (
        record {
          max = c.max;
          workers = ap length list ∙ length-idle_workers n 0;
          index = omega (arith, c.index);
        },
        list,
        c.index,
      )

  -- `init` does not touch the database.
  pub init-server :
      (ok : ThreadsStart) (n : ℕ) (w : World)
      → (init (pos n) w ≡ (ret false, (init (pos n) w).1)) × ((init (pos n) w).1.server ≡ w.server)
  init-server ok n w =
      let c = create_workers-Created ok n 0 (cleared n w) in
      rw (init-create_workers ok n w) (refl, c.server)

-- ===== src/Biz/Overtakes.antt =====
-- Two requests for one stream, one after the other, in the queues of two workers
-- (injectService/pull/src/app/serverBiz.cpp).
use pull_stream.Base.{
  ℕ, ◌+◌, ◌%◌, ◌<◌, ◌≤◌, List, [], ◌∷◌, ◌++◌, set, ◌≡◌, ◌≢◌, refl, sym, ap, ◌∙◌, arith, length, inl,
  inr, get_elem?-set-some, get_elem?-set_ne,
}
use mathlib.Core.Path.{subst}
use pull_stream.Biz.{put_data, worker_round, handle, push, pop}
use pull_stream.Biz.Drain.{Queue, worker_round_pops, worker_round_lem}
use pull_stream.Biz.Queues.{IsRunning, put_data_lem, after_put, after_put-IsRunning}
use pull_stream.Biz.Robin.{next_cases}
use pull_stream.Biz.Turns.{SerialRun}
use pull_stream.Cache.{by_sid}
use pull_stream.Cache.Connected.{process_at}
use pull_stream.Cache.Streams.{streams, streams-insert_stored}
use pull_stream.Common.{ErrorCode, ProcessInfo, create_process, remove_process, Event}
use pull_stream.External.{External, Collection}
use pull_stream.External.Laws.{MongoLaws}
use pull_stream.Process.{ffmpeg_command}
use pull_stream.Process.Calls.{remove_process-connected}
use pull_stream.Process.Lifecycle.{Starts, started, spawn_process-Starts}
use pull_stream.World.{World, Outcome, ret}

next_ne : (n k : ℕ) → 2 ≤ n → k < n → k ≢ (k + 1) % n
next_ne n k two h same = elim (next_cases n k h) [
  | inl (m, lt) ↦ omega (arith, same, m)
  | inr (m, wrap) ↦ omega (arith, same, m, wrap)
]

module _ ⦃x : External⦄ (info : ProcessInfo) where
  open x use {Server, collection_find, fork, getpid}

  abbrev pub start : Event
  start = record { process = info; type = create_process }

  abbrev pub stop : Event
  stop = record { process = info; type = remove_process }

  -- The database and the kernel are as they were, and the address is the same.
  record Alike (w v : World) : Type 0 where
    server : v.server ≡ w.server
    os : v.os ≡ w.os
    address : v.db_address ≡ w.db_address

  Alike-Starts : (w v : World) → Alike w v → Starts w info → Starts v info
  Alike-Starts w v a s = record {
    connected = record {
      client = rw (a.address) (s.connected.client);
      handle = λ db name. rw (a.address) (s.connected.handle db name);
    };
    absent = rw (a.server, a.address) (s.absent);
    forked = rw (a.os) (s.forked);
    stored = rw (a.server, a.address, a.os) (s.stored);
  }

  handle-stop : (v : World) → Starts v info → handle stop.type stop.process v ≡ (ret tt, v)
  unfolding handle
  handle-stop v s = ground (arith, remove_process-connected v s.connected info, s.absent)

  handle-start :
      (v : World) → Starts v info → handle start.type start.process v ≡ (ret tt, started v info)
  unfolding handle
  handle-start v s = ground (arith, spawn_process-Starts v info s)

  -- The stop of a stream that is not there does nothing but leave the queue.
  stop-Alike :
      (v : World) (i : ℕ) (q : List Event)
      → Starts v info
      → Queue v i (stop ∷ q)
      → Alike v (worker_round i v).1
  stop-Alike v i q s at_i =
      let popped = worker_round_pops v i stop q s.connected (λ e. cc) at_i in
      let as_it_was : (worker_round i v).1
          ≡ record v { worker_list = set v.worker_list i (pop at_i.0) } =
        ap (λ p. p.1) popped
        ∙ ap
            (λ (p : Outcome Unit × World). record p.1 {
              worker_list = set p.1.worker_list i (pop at_i.0);
            })
            (handle-stop v s) in
      subst (λ u. Alike v u) (sym as_it_was) (record { server = refl; os = refl; address = refl })

  start-server :
      (v : World) (i : ℕ) (q : List Event)
      → Starts v info
      → Queue v i (start ∷ q)
      → (worker_round i v).1.server ≡ (started v info).server
  start-server v i q s at_i =
      ap (λ p. p.1.server) (worker_round_pops v i start q s.connected (λ e. cc) at_i)
      ∙ ap (λ (p : Outcome Unit × World). p.1.server) (handle-start v s)

  module _ (laws : MongoLaws) (n : ℕ) (w : World) (r : IsRunning n w) (two : 2 ≤ n)
      (s : Starts w info) where
    open laws use {find_lem}

    one_stream :
        (v : World)
        → Starts v info
        → streams laws (started v info).server (process_at v) info.sid ≡ 1
    one_stream v s =
        let none_yet =
          ap length (sym (find_lem v.server (process_at v) (by_sid info.sid)) ∙ s.absent) in
        let inserted =
          streams-insert_stored laws v.server (process_at v)
            (record info { pid = (fork v.os (ffmpeg_command info)).0 })
            (getpid (fork v.os (ffmpeg_command info)).1) s.stored in
        inserted ∙ ap (λ (c : ℕ). c + 1) none_yet

    -- The worker whose turn it is, and the next one.
    abbrev k : ℕ
    k = w.worker_index

    abbrev k' : ℕ
    k' = (w.worker_index + 1) % n

    -- Both requests are in.
    abbrev pub both_put : World
    both_put = (put_data stop (put_data start w).1).1

    record BothPut (v : World) : Type 0 where
      alike : Alike w v
      first' : Queue v k (start ∷ [])
      second' : Queue v k' (stop ∷ [])

    both_put-BothPut : Queue w k [] → Queue w k' [] → BothPut both_put
    both_put-BothPut (c, at_k, empty) (c', at_k', empty') =
        let ne = next_ne n k two r.index in
        let w' = after_put start w n c in
        let at_k'' = get_elem?-set_ne w.worker_list (push start c) ne ∙ at_k' in
        let first_in = put_data_lem n start w c r at_k in
        let second_in = put_data_lem n stop w' c' (after_put-IsRunning n start w c r) at_k'' in
        let in_place : both_put ≡ after_put stop w' n c' =
          ap (λ (p : Outcome ErrorCode × World). (put_data stop p.1).1) first_in
          ∙ ap (λ p. p.1) second_in in
        subst (λ u. BothPut u) (sym in_place)
          (record {
            alike = record { server = refl; os = refl; address = refl };
            first' = (
              push start c,
              get_elem?-set_ne w'.worker_list (push stop c') (λ e. ne (sym e))
                  ∙ get_elem?-set-some w.worker_list k (push start c) at_k,
              ap (λ (q : List Event). q ++ (start ∷ [])) empty,
            );
            second' = (
              push stop c',
              get_elem?-set-some w'.worker_list k' (push stop c') at_k'',
              ap (λ (q : List Event). q ++ (stop ∷ [])) empty',
            );
          })

    abbrev stopped_first : World
    stopped_first = (worker_round k' both_put).1

    abbrev pub started_last : World
    started_last = (worker_round k stopped_first).1

    -- On a service with two workers or more, where the worker whose turn it is and the next one have
    -- empty queues: a request to start a stream that the database has no record of, and then a request
    -- to stop it, can be handled in the other order. The stop finds no stream, and the stream that is
    -- started after it stays in the database, although the last request was to stop it.
    pub start_after_stop :
        Queue w k []
        → Queue w k' []
        → SerialRun w (start ∷ stop ∷ []) ((k', stop) ∷ (k, start) ∷ []) started_last
          × (streams laws started_last.server (process_at w) info.sid ≡ 1)
    start_after_stop empty empty' =
        let p = both_put-BothPut empty empty' in
        let s_put = Alike-Starts w both_put p.alike s in
        let ne = next_ne n k two r.index in
        let round = worker_round_lem both_put k' stop [] s_put.connected (λ e. cc) p.second' in
        let (c, at_k, q) = p.first' in
        let first_later : Queue stopped_first k (start ∷ []) =
          (c, round.others k (λ e. ne (sym e)) ∙ at_k, q) in
        let alike = stop-Alike both_put k' [] s_put p.second' in
        let same_place : process_at stopped_first ≡ process_at w =
          rw (alike.address, p.alike.address) refl in
        let s_later = Alike-Starts both_put stopped_first alike s_put in
        (
          SerialRun.ask start (
              SerialRun.ask stop (
                SerialRun.work k' stop [] p.second'
                  (SerialRun.work k start [] first_later SerialRun.here))),
          ap (λ (srv : Server). streams laws srv (process_at w) info.sid)
                (start-server stopped_first k [] s_later first_later)
              ∙ ap (λ (c : Collection). streams laws (started stopped_first info).server c info.sid)
                  (sym same_place)
              ∙ one_stream stopped_first s_later,
        )

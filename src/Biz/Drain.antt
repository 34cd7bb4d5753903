-- ===== src/Biz/Drain.antt =====
-- The inner loop of `worker_loop` (injectService/pull/src/app/serverBiz.cpp), which empties a
-- worker's queue.
use pull_stream.Base.{
  ℕ, zero, suc, ◌<◌, Bool, true, false, List, [], ◌∷◌, ◌++◌, ◌≡◌, ◌≢◌, refl, ap, ◌∙◌, some, arith,
  get_elem?, set, length, get_elem?-set-some, get_elem?-set_ne, length-set,
}
use pull_stream.Biz.{handle, worker_round, worker_drain, pop, tail}
use pull_stream.Biz.Handle.{handle-Returns}
use pull_stream.Cache.Connected.{IsConnected}
use pull_stream.Common.{terminate_process, Event}
use pull_stream.External.{External}
use pull_stream.World.{WorkerContext, World, Outcome, ret, aborted}

-- No event of a list is a termination.
abbrev pub NoTermination : List Event → Type 0
NoTermination [] = Unit
NoTermination (ev ∷ evs) = (ev.type ≢ terminate_process) × NoTermination evs

module _ ⦃x : External⦄ where
  -- The queue of a worker.
  abbrev pub Queue : World → ℕ → List Event → Type 0
  Queue w i q = (c : WorkerContext) × (get_elem? w.worker_list i ≡ some c) × (c.queue ≡ q)

  pub worker_round_empty : (w : World) (i : ℕ) → Queue w i [] → worker_round i w ≡ (ret false, w)
  unfolding worker_round
  worker_round_empty w i (c, e, q) = ground arith

  worker_round_aborts :
      (w : World) (i : ℕ) (ev : Event) (q : List Event)
      → ev.type ≡ terminate_process
      → Queue w i (ev ∷ q)
      → worker_round i w ≡ (aborted, w)
  unfolding worker_round handle
  worker_round_aborts w i ev q t (c, e, front) = ground arith

  -- What a round has done with an event that is no termination.
  pub record Round (w : World) (i : ℕ) (q : List Event) (r : Outcome Bool × World) : Type 0 where
    pub result : r.0 ≡ ret true
    pub queue : Queue r.1 i q
    pub others : (j : ℕ) → i ≢ j → get_elem? r.1.worker_list j ≡ get_elem? w.worker_list j
    pub length_same : length r.1.worker_list ≡ length w.worker_list
    pub index : r.1.worker_index ≡ w.worker_index
    pub max : r.1.worker_max ≡ w.worker_max
    pub connected : IsConnected r.1

  module _ (w : World) (i : ℕ) (ev : Event) (q : List Event) (c : IsConnected w)
      (ne : ev.type ≢ terminate_process) (at_i : Queue w i (ev ∷ q)) where
    -- The state after the event, before it is popped.
    abbrev handled : World
    handled = (handle ev.type ev.process w).1

    pub worker_round_pops :
        worker_round i w
        ≡ (ret true, record handled { worker_list = set handled.worker_list i (pop at_i.0) })
    unfolding worker_round
    worker_round_pops =
        let r = handle-Returns w c ev.type ev.process ne in
        ground (arith, r.result, r.list, at_i.1, at_i.2, ap (λ l. get_elem? l i) r.list)

    pub worker_round_lem : Round w i q (worker_round i w)
    worker_round_lem =
        let r = handle-Returns w c ev.type ev.process ne in
        rw worker_round_pops (record {
          result = refl;
          queue = (
            pop at_i.0,
            rw r.list (get_elem?-set-some w.worker_list i (pop at_i.0) at_i.1),
            ap tail at_i.2,
          );
          others = λ j h.
              get_elem?-set_ne handled.worker_list (pop at_i.0) h ∙ ap (λ l. get_elem? l j) r.list;
          length_same = length-set handled.worker_list i (pop at_i.0) ∙ ap (λ l. length l) r.list;
          index = r.index;
          max = r.max;
          connected = record { client = r.connected.client; handle = r.connected.handle };
        })

  -- One round of the loop, by what `worker_round` returns.
  module _ (fuel i : ℕ) (w : World) where
    pub worker_drain_more :
        (worker_round i w).0 ≡ ret true
        → worker_drain (suc fuel) i w ≡ worker_drain fuel i (worker_round i w).1
    unfolding worker_drain
    worker_drain_more e = ground arith

    pub worker_drain_done :
        {w' : World}
        → worker_round i w ≡ (ret false, w')
        → worker_drain (suc fuel) i w ≡ (ret true, w')
    unfolding worker_drain
    worker_drain_done e = ground arith

    worker_drain_aborted :
        {w' : World}
        → worker_round i w ≡ (aborted, w')
        → worker_drain (suc fuel) i w ≡ (aborted, w')
    unfolding worker_drain
    worker_drain_aborted e = ground arith

  -- What emptying a queue leaves.
  pub record Drained (w : World) (i : ℕ) (r : Outcome Bool × World) : Type 0 where
    pub result : r.0 ≡ ret true
    pub queue : Queue r.1 i []
    pub others : (j : ℕ) → i ≢ j → get_elem? r.1.worker_list j ≡ get_elem? w.worker_list j
    pub connected : IsConnected r.1

  -- On a connected service a worker whose queue holds no termination event empties it: the inner
  -- loop of `worker_loop` ends after one round more than there are events, whatever the database and
  -- the kernel answer, and the queues of the other workers are as they were.
  pub worker_drain_empties :
      (fuel : ℕ) (w : World) (i : ℕ) (q : List Event)
      → IsConnected w
      → Queue w i q
      → NoTermination q
      → length q < fuel
      → Drained w i (worker_drain fuel i w)
  worker_drain_empties zero w i q c at_i calm h = absurd (omega arith)
  worker_drain_empties (suc fuel) w i [] c at_i calm h =
      rw (worker_drain_done fuel i w (worker_round_empty w i at_i))
        (record { result = refl; queue = at_i; others = λ j _. refl; connected = c })
  worker_drain_empties (suc fuel) w i (ev ∷ q) c at_i calm h =
      let r = worker_round_lem w i ev q c calm.0 at_i in
      let d =
        worker_drain_empties fuel (worker_round i w).1 i q r.connected r.queue calm.1
          (omega arith) in
      rw (worker_drain_more fuel i w r.result) (record {
        result = d.result;
        queue = d.queue;
        others = λ j ne. d.others j ne ∙ r.others j ne;
        connected = d.connected;
      })

  -- With a termination event in its queue, behind events that are none, the same loop aborts the
  -- process.
  pub worker_drain_aborts :
      (fuel : ℕ) (w : World) (i : ℕ) (before : List Event) (ev : Event) (behind : List Event)
      → IsConnected w
      → Queue w i (before ++ (ev ∷ behind))
      → NoTermination before
      → ev.type ≡ terminate_process
      → length before < fuel
      → (worker_drain fuel i w).0 ≡ aborted
  worker_drain_aborts zero w i before ev behind c at_i calm t h = absurd (omega arith)
  worker_drain_aborts (suc fuel) w i [] ev behind c at_i calm t h =
      rw (worker_drain_aborted fuel i w (worker_round_aborts w i ev behind t at_i))
  worker_drain_aborts (suc fuel) w i (e ∷ before) ev behind c at_i calm t h =
      let r = worker_round_lem w i e (before ++ (ev ∷ behind)) c calm.0 at_i in
      rw (worker_drain_more fuel i w r.result) (
        worker_drain_aborts fuel (worker_round i w).1 i before ev behind r.connected r.queue calm.1
          t (omega arith))

  -- A queue of one event that is no termination takes two rounds.
  pub worker_drain_one :
      (w : World) (i : ℕ) (ev : Event)
      → IsConnected w
      → ev.type ≢ terminate_process
      → (at_i : Queue w i (ev ∷ []))
      → let v = (handle ev.type ev.process w).1 in
        worker_drain 2 i w ≡ (ret true, record v { worker_list = set v.worker_list i (pop at_i.0) })
  worker_drain_one w i ev c ne at_i =
      let r = worker_round_lem w i ev [] c ne at_i in
      let popped = worker_round_pops w i ev [] c ne at_i in
      worker_drain_more 1 i w r.result
      ∙ worker_drain_done 0 i (worker_round i w).1
          (worker_round_empty (worker_round i w).1 i r.queue)
      ∙ ap (λ (q : Outcome Bool × World). (ret true, q.1)) popped

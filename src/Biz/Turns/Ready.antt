-- ===== src/Biz/Turns/Ready.antt =====
-- What some turns of the threads of injectService/pull/src/app/serverBiz.cpp leave: the workers, the
-- consistency of the service, the set of streams and the order of the events.
use pull_stream.Base.{
  append_assoc, get_elem?-some_lt, All, All-append, All-parts, ℕ, ◌+◌, ◌%◌, List, [], ◌∷◌, ◌++◌,
  ◌≡◌, ◌≢◌, refl, sym, ap, ◌∙◌, some, arith, get_elem?, length, inl, inr, Bool-cases, ◌==◌, ==_iff,
  if◌then◌else◌, get_elem?_lt,
}
use mathlib.Core.Path.{subst}
use pull_stream.Biz.{put_data, worker_round}
use pull_stream.Biz.Drain.{Queue, worker_round_lem, worker_round_empty}
use pull_stream.Biz.Queues.{IsRunning, put_data_runs}
use pull_stream.Biz.Refines.{Runs-append, Runs, worker_round-Registered}
use pull_stream.Biz.Robin.{share, put_data-queued}
use pull_stream.Cache.Streams.{IsStorable}
use pull_stream.Common.{terminate_process, Event}
use pull_stream.External.{External}
use pull_stream.External.Laws.{MongoLaws, JsonLaws}
use pull_stream.Process.Views.{IsReliable, IsConsistent, view}
use pull_stream.World.{WorkerContext, World}

-- The events that worker `i` handled, of all that were handled.
unfoldable pub handled_by : ℕ → List (ℕ × Event) → List Event
handled_by i [] = []
handled_by i ((j, ev) ∷ hs) = let rest = handled_by i hs in if j == i then ev ∷ rest else rest

-- The events handled, whoever did.
abbrev pub events : List (ℕ × Event) → List Event
events [] = []
events ((j, ev) ∷ hs) = ev ∷ events hs

events-append : (hs gs : List (ℕ × Event)) → events (hs ++ gs) ≡ events hs ++ events gs
events-append [] gs = refl
events-append ((j, ev) ∷ hs) gs = ap (λ (l : List Event). ev ∷ l) (events-append hs gs)

pub handled_by-append :
    (i : ℕ) (hs gs : List (ℕ × Event))
    → handled_by i (hs ++ gs) ≡ handled_by i hs ++ handled_by i gs
unfolding handled_by
handled_by-append i [] gs = refl
handled_by-append i ((j, ev) ∷ hs) gs = ground (arith, handled_by-append i hs gs)

module _ (P : Event → Type 0) where
  share-All : (n i k : ℕ) (ps : List Event) → All P ps → All P (share n i k ps)
  unfolding share
  share-All n i k [] h = h
  share-All n i k (ev ∷ ps) h = elim (Bool-cases (k == i)) [
    | inl turn ↦ rw turn (h.0, share-All n i ((k + 1) % n) ps h.1)
    | inr other ↦ rw other (share-All n i ((k + 1) % n) ps h.1)
  ]

module _ ⦃x : External⦄ (db : MongoLaws) (json : JsonLaws) where
  -- An event that a worker can handle: no termination, and its record can be stored.
  abbrev pub IsServable : Event → Type 0
  IsServable ev = (ev.type ≢ terminate_process) × IsStorable json ev.process

  -- What worker `i` has before it, when `ps` are still to be put.
  abbrev ahead : ℕ → ℕ → World → WorkerContext → List Event → List Event
  ahead n i w c ps = c.queue ++ share n i w.worker_index ps

  -- A service of `n` workers at work, with only such events before them.
  pub record IsServing (n : ℕ) (w : World) : Type 0 where
    pub running : IsRunning n w
    pub consistent : IsConsistent db json w
    pub waiting :
        (i : ℕ) (c : WorkerContext) → get_elem? w.worker_list i ≡ some c → All IsServable c.queue

  -- The same, when `ps` are still to be put.
  pub record IsReady (n : ℕ) (w : World) (ps : List Event) : Type 0 where
    pub running : IsRunning n w
    pub consistent : IsConsistent db json w
    pub servable :
        (i : ℕ) (c : WorkerContext)
        → get_elem? w.worker_list i ≡ some c
        → All IsServable (ahead n i w c ps)

  pub same_context :
      (w : World) (i : ℕ) {c c' : WorkerContext}
      → get_elem? w.worker_list i ≡ some c
      → get_elem? w.worker_list i ≡ some c'
      → c ≡ c'
  same_context w i e e' = cc

  pub IsReady-start :
      (n : ℕ) (w : World) (ps : List Event) → IsServing n w → All IsServable ps → IsReady n w ps
  IsReady-start n w ps s h = record {
    running = s.running;
    consistent = s.consistent;
    servable = λ i c e.
        All-append IsServable c.queue _ (s.waiting i c e)
          (share-All IsServable n i w.worker_index ps h);
  }

  -- What turns have done: `ps` were to be put before and `ps'` are after, and `hs` were handled.
  pub record Taken (n : ℕ) (w : World) (ps : List Event) (hs : List (ℕ × Event)) (v : World)
      (ps' : List Event) : Type 0 where
    pub running : IsRunning n v
    pub consistent : IsConsistent db json v
    pub runs : Runs (view db json w) (events hs) (view db json v)
    pub in_order :
        (i : ℕ) (c : WorkerContext)
        → get_elem? w.worker_list i ≡ some c
        → (c' : WorkerContext) × (get_elem? v.worker_list i ≡ some c')
          × (ahead n i w c ps ≡ handled_by i hs ++ ahead n i v c' ps')

  -- A worker that is there after is there before.
  pub worker_before :
      {n : ℕ} {w v : World} (i : ℕ) {c' : WorkerContext}
      → IsRunning n w
      → IsRunning n v
      → get_elem? v.worker_list i ≡ some c'
      → (c : WorkerContext) × (get_elem? w.worker_list i ≡ some c)
  worker_before {w = w} {v = v} i rw' rv e =
      get_elem?_lt w.worker_list i
        (omega (arith, get_elem?-some_lt v.worker_list i e, rw'.workers, rv.workers))

  pub Taken-IsReady :
      {n : ℕ} {w v : World} {ps ps' : List Event} {hs : List (ℕ × Event)}
      → IsReady n w ps
      → Taken n w ps hs v ps'
      → IsReady n v ps'
  Taken-IsReady {n} {w} {v} {ps} {ps'} {hs} r t = record {
    running = t.running;
    consistent = t.consistent;
    servable = λ i c' e'.
        let (c, e) = worker_before {w = w} {v = v} i r.running t.running e' in
        let (c'', e'', same) = t.in_order i c e in
        let both = All-parts IsServable (handled_by i hs) _ (rw (← same) (r.servable i c e)) in
        subst (λ (a : WorkerContext). All IsServable (ahead n i v a ps')) (same_context v i e'' e')
          both.1;
  }

  pub Taken-then :
      {n : ℕ} {w v u : World} {ps ps' ps'' : List Event} {hs hs' : List (ℕ × Event)}
      → Taken n w ps hs v ps'
      → Taken n v ps' hs' u ps''
      → Taken n w ps (hs ++ hs') u ps''
  Taken-then {n} {w} {v} {u} {hs = hs} {hs' = hs'} t k = record {
    running = k.running;
    consistent = k.consistent;
    runs = rw (events-append hs hs') (Runs-append t.runs k.runs);
    in_order = λ i c e.
        let (c', e', same) = t.in_order i c e in
        let (c'', e'', same') = k.in_order i c' e' in
        (
          c'',
          e'',
          same
              ∙ ap (λ (l : List Event). handled_by i hs ++ l) same'
              ∙ sym (append_assoc (handled_by i hs) (handled_by i hs') _)
              ∙ rw (handled_by-append i hs hs') refl,
        );
  }

  pub ask-Taken :
      (n : ℕ) (w : World) (ev : Event) (ps : List Event)
      → IsReady n w (ev ∷ ps)
      → Taken n w (ev ∷ ps) [] (put_data ev w).1 ps
  unfolding handled_by
  ask-Taken n w ev ps r =
      let (turn, at_turn, put, running) = put_data_runs n ev w r.running in
      rw put (record {
        running = running;
        consistent = record {
          connected = record {
            client = r.consistent.connected.client;
            handle = r.consistent.connected.handle;
          };
          unique = r.consistent.unique;
          records = r.consistent.records;
        };
        runs = Runs.idle;
        in_order = λ i c e.
            let (c', e', same) = put_data-queued n i ev ps w turn c r.running at_turn e in
            (c', e', sym (ap (λ (q : WorkerContext). q.queue) same));
      })

  -- A turn that leaves the queues and the set of streams as they were.
  pub idle-Taken :
      (n : ℕ) (w v : World) (ps : List Event)
      → IsReady n w ps
      → v.worker_list ≡ w.worker_list
      → v.worker_index ≡ w.worker_index
      → v.worker_max ≡ w.worker_max
      → view db json w ≡ view db json v
      → IsConsistent db json v
      → Taken n w ps [] v ps
  unfolding handled_by
  idle-Taken n w v ps r list index max same k = record {
    running = record {
      max = max ∙ r.running.max;
      workers = ap length list ∙ r.running.workers;
      index = rw index (r.running.index);
    };
    consistent = k;
    runs = rw (← same) Runs.idle;
    in_order = λ i c e. (c, ap (λ l. get_elem? l i) list ∙ e, rw index refl);
  }

  pub empty-Taken :
      (n : ℕ) (w : World) (i : ℕ) (ps : List Event)
      → IsReady n w ps
      → Queue w i []
      → Taken n w ps [] (worker_round i w).1 ps
  empty-Taken n w i ps r at_i =
      rw (worker_round_empty w i at_i) (idle-Taken n w w ps r refl refl refl refl r.consistent)

  pub work-Taken :
      IsReliable
      → (n : ℕ) (w : World) (i : ℕ) (ev : Event) (q ps : List Event) → IsReady n w ps
      → Queue w i (ev ∷ q)
      → Taken n w ps ((i, ev) ∷ []) (worker_round i w).1 ps
  unfolding handled_by
  work-Taken ok n w i ev q ps r at_i =
      let left = share n i w.worker_index ps in
      let (context, at_context, front) = at_i in
      let s : All IsServable ((ev ∷ q) ++ left) =
        subst (λ (l : List Event). All IsServable (l ++ left)) front
          (r.servable i context at_context) in
      let done = worker_round_lem w i ev q r.consistent.connected s.0.0 at_i in
      let g = worker_round-Registered db json ok w i ev q r.consistent s.0.1 s.0.0 at_i in
      record {
        running = record {
          max = done.max ∙ r.running.max;
          workers = done.length_same ∙ r.running.workers;
          index = rw (done.index) (r.running.index);
        };
        consistent = g.consistent;
        runs = Runs.next g.refines Runs.idle;
        in_order = λ j c e. elim (Bool-cases (i == j)) [
          | inl mine ↦
              let same : i ≡ j = (==_iff i j).0 mine in
              let (c', e', left_q) = done.queue in
              let own : c ≡ context = cc (same, e, at_context) in
              (c', cc (same, e'), rw (mine, done.index, left_q, own, front) refl)
          | inr other ↦
              let ne : i ≢ j = ground arith in
              (c, done.others j ne ∙ e, rw (other, done.index) refl)
        ];
      }

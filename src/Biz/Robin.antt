-- ===== src/Biz/Robin.antt =====
-- Any number of calls of `put_data` (injectService/pull/src/app/serverBiz.cpp), and the worker that
-- each event goes to.
use pull_stream.Base.{
  ℕ, ◌+◌, ◌-◌, ◌*◌, ◌%◌, ◌<◌, ◌≤◌, ◌⊎◌, List, [], ◌∷◌, ◌++◌, ◌≡◌, ◌≢◌, ap, sym, ◌∙◌, inl, inr, some,
  arith, get_elem?, length, append-nil, append_assoc, get_elem?-set_self, get_elem?-set_ne,
  Bool-cases, dec_lt, ◌==◌, ==_iff, leb, if◌then◌else◌,
}
use mathlib.Core.Path.{subst}
use native.Mathlib.Nat.{mod_self, mul-le-mul_left}
use pull_stream.Biz.{put_data, push}
use pull_stream.Biz.Queues.{IsRunning, after_put, put_data_runs}
use pull_stream.Common.{ErrorCode, Event}
use pull_stream.External.{External}
use pull_stream.World.{WorkerContext, World, Outcome}

-- The events that worker `i` of `n` gets, if the first goes to worker `k`.
unfoldable pub share : ℕ → ℕ → ℕ → List Event → List Event
share n i k [] = []
share n i k (ev ∷ evs) =
    let rest = share n i ((k + 1) % n) evs in if k == i then ev ∷ rest else rest

-- How many turns it is from worker `k` to worker `i`.
abbrev distance : ℕ → ℕ → ℕ → ℕ
distance n i k = if leb k i then i - k else i + n - k

next_lt : (a n : ℕ) → 0 < n → a % n < n
next_lt a n h = omega arith

pub next_cases :
    (n k : ℕ) → k < n → (((k + 1) % n ≡ k + 1) × (k + 1 < n)) ⊎ (((k + 1) % n ≡ 0) × (k + 1 ≡ n))
next_cases n k h = elim (dec_lt (k + 1) n) [
  | yes lt ↦ inl (grind arith, lt)
  | no ge ↦ let e : k + 1 ≡ n = omega arith in inr (rw e (mod_self n), e)
]

distance_self : (n i k : ℕ) → k ≡ i → distance n i k ≡ 0
distance_self n i k e = ground arith

distance-next_self : (n i k : ℕ) → k < n → k ≡ i → distance n i ((k + 1) % n) ≡ n - 1
distance-next_self n i k h e = elim (next_cases n k h) [
  | inl (m, lt) ↦ rw m (ground arith)
  | inr (m, wrap) ↦ rw m (ground arith)
]

distance-next :
    (n i k : ℕ) → i < n → k < n → k ≢ i → distance n i ((k + 1) % n) + 1 ≡ distance n i k
distance-next n i k hi hk ne = elim (next_cases n k hk) [
  | inl (m, lt) ↦ rw m (ground arith)
  | inr (m, wrap) ↦ rw m (ground arith)
]

-- A worker's share, times the number of workers, is the number of events up to a round.
record ShareBounds (n i k events shared : ℕ) : Type 0 where
  below : events ≤ n * shared + distance n i k
  above : n * shared + distance n i k ≤ events + (n - 1)

share_bounds :
    (n i k : ℕ) (evs : List Event)
    → i < n
    → k < n
    → ShareBounds n i k (length evs) (length (share n i k evs))
unfolding share
share_bounds n i k [] hi hk = record { below = omega arith; above = ground arith }
share_bounds n i k (ev ∷ evs) hi hk =
    let b = share_bounds n i ((k + 1) % n) evs hi (next_lt (k + 1) n (omega arith)) in
    elim (Bool-cases (k == i)) [
      | inl turn ↦
          let e = (==_iff k i).0 turn in
          rw turn (record {
            below = omega (arith, b.below, distance_self n i k e, distance-next_self n i k hk e);
            above = omega (arith, b.above, distance_self n i k e, distance-next_self n i k hk e);
          })
      | inr other ↦
          let ne : k ≢ i = ground arith in
          rw other (record {
            below = omega (arith, b.below, distance-next n i k hi hk ne);
            above = omega (arith, b.above, distance-next n i k hi hk ne);
          })
    ]

less_of_mul : (n a b : ℕ) → n * a < n * (b + 2) → a ≤ b + 1
less_of_mul n a b h = elim (dec_lt (b + 1) a) [
  | yes more ↦ absurd (omega (arith, mul-le-mul_left n more))
  | no fewer ↦ omega arith
]

module _ ⦃x : External⦄ where
  -- A worker's context, with more events behind its queue.
  abbrev pub queued : WorkerContext → List Event → WorkerContext
  queued c evs = record c { queue = c.queue ++ evs }

  -- The calls of `put_data` for a list of events, one after another.
  unfoldable pub put_all : List Event → World → World
  put_all [] w = w
  put_all (ev ∷ evs) w = put_all evs (put_data ev w).1

  -- Worker `i` after one call, which was its turn or not.
  pub put_data-queued :
      (n i : ℕ) (ev : Event) (evs : List Event) (w : World) (context c : WorkerContext)
      → IsRunning n w
      → get_elem? w.worker_list w.worker_index ≡ some context
      → get_elem? w.worker_list i ≡ some c
      → (c' : WorkerContext) × (get_elem? (after_put ev w n context).worker_list i ≡ some c')
        × (queued c' (share n i ((w.worker_index + 1) % n) evs)
            ≡ queued c (share n i w.worker_index (ev ∷ evs)))
  unfolding share
  put_data-queued n i ev evs w context c r at_index at_i = elim (Bool-cases (w.worker_index == i)) [
    | inl turn ↦
        let e = (==_iff w.worker_index i).0 turn in
        let same : context ≡ c = cc (ap (get_elem? w.worker_list) e) in
        (
          push ev c,
          rw (same, ← e)
              (get_elem?-set_self w.worker_list w.worker_index (push ev c)
                (omega (arith, r.index, r.workers))),
          rw turn
              (ap (λ (q : List Event). record c { queue = q }) (append_assoc c.queue (ev ∷ []) _)),
        )
    | inr other ↦
        let ne : w.worker_index ≢ i = ground arith in
        (c, get_elem?-set_ne w.worker_list (push ev context) ne ∙ at_i, rw other)
  ]

  -- After any number of calls of `put_data` on `n` running workers, the queue of each worker is
  -- what it was, followed by every `n`-th of the events, in order, from the worker's turn on; and the
  -- workers are still running.
  pub put_all-share :
      (n i : ℕ) (evs : List Event) (w : World) (c : WorkerContext)
      → IsRunning n w
      → get_elem? w.worker_list i ≡ some c
      → (get_elem? (put_all evs w).worker_list i ≡ some (queued c (share n i w.worker_index evs)))
        × IsRunning n (put_all evs w)
  unfolding put_all share
  put_all-share n i [] w c r e = (rw (append-nil c.queue) e, r)
  put_all-share n i (ev ∷ evs) w c r e =
      let (context, at_index, put, r') = put_data_runs n ev w r in
      let (c', at_i, same) = put_data-queued n i ev evs w context c r at_index e in
      let (found, running) = put_all-share n i evs (after_put ev w n context) c' r' at_i in
      let step : put_all (ev ∷ evs) w ≡ put_all evs (after_put ev w n context) =
        ap (λ (r : Outcome ErrorCode × World). put_all evs r.1) put in
      (
        ap (λ (v : World). get_elem? v.worker_list i) step ∙ found ∙ ap some same,
        subst (λ (v : World). IsRunning n v) (sym step) running,
      )

-- The shares of two workers differ by one event at most.
share_balanced :
    (n i j k : ℕ) (evs : List Event)
    → i < n
    → j < n
    → k < n
    → length (share n i k evs) ≤ length (share n j k evs) + 1
share_balanced n i j k evs hi hj hk =
    let a = (share_bounds n i k evs hi hk).above in
    let b = (share_bounds n j k evs hj hk).below in
    let d : distance n j k < n = ground arith in
    less_of_mul n (length (share n i k evs)) (length (share n j k evs)) (omega arith)

module _ ⦃x : External⦄ where
  -- On `n` running workers, the queues of two workers that are empty differ in length by one at most
  -- after any number of calls of `put_data`.
  pub put_all_balanced :
      (n i j : ℕ) (evs : List Event) (w : World) (a b : WorkerContext)
      → IsRunning n w
      → i < n
      → j < n
      → get_elem? w.worker_list i ≡ some a
      → get_elem? w.worker_list j ≡ some b
      → a.queue ≡ []
      → b.queue ≡ []
      → (a' : WorkerContext) × (b' : WorkerContext) × (get_elem? (put_all evs w).worker_list i
          ≡ some a')
        × (get_elem? (put_all evs w).worker_list j ≡ some b')
        × (length a'.queue ≤ length b'.queue + 1)
  put_all_balanced n i j evs w a b r hi hj ea eb qa qb =
      let k = w.worker_index in
      (
        queued a (share n i k evs),
        queued b (share n j k evs),
        (put_all-share n i evs w a r ea).0,
        (put_all-share n j evs w b r eb).0,
        rw (qa, qb) (share_balanced n i j k evs hi hj r.index),
      )

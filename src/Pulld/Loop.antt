-- ===== src/Pulld/Loop.antt =====
-- The watchdog's loop (injectService/pulld/src/main.cpp).
use pull_stream.Base.{
  if◌then◌else◌, sym, ℕ, zero, suc, ◌≡◌, refl, ◌∙◌, Bool, true, false, some, List, [], ◌∷◌, Text,
  arith, Bool-cases, inl, inr,
}
use pull_stream.Cache.Connected.{IsConnected}
use pull_stream.External.{External, read_write_create}
use pull_stream.Pulld.Freed.{free_host-ret}
use pull_stream.External.Laws.{MongoLaws}
use pull_stream.Pulld.{Settings, check_process_alive, run_command, watch_round, watch}
use pull_stream.Pulld.Watch.{tried, lock_answer}
use pull_stream.World.{World, Outcome, ret}

module _ ⦃x : External⦄ where
  open x use {Os, open_file, unlock_file}

  -- The pid file can be opened, whenever it is tried.
  abbrev pub Opens : Text → Type 0
  Opens file = (o : Os) → (fd : ℕ) × ((open_file o file read_write_create).0 ≡ some fd)

  -- `n` rounds, one after another.
  unfoldable pub rounds : ℕ → Settings → Text → World → World
  rounds zero s host w = w
  rounds (suc n) s host w = rounds n s host (watch_round s host w).1

  -- `n` rounds without a signal, and one with.
  unfoldable pub quiet : ℕ → List Bool → List Bool
  quiet zero signals = true ∷ signals
  quiet (suc n) signals = false ∷ quiet n signals

  module _ (s : Settings) (host : Text) where
    record Returned (w : World) (r : Outcome (Unit {0}) × World) : Type 0 where
      result : r.0 ≡ ret tt
      address : r.1.db_address ≡ w.db_address

    watch_round-Returned :
        MongoLaws
        → (w : World) → Opens s.rec_pid_dir
        → s.mongo_addr ≡ w.db_address
        → IsConnected w
        → Returned w (watch_round s host w)
    unfolding watch_round run_command check_process_alive
    watch_round-Returned laws w opens here c =
        let (fd, opened) = opens w.os in
        let asked = record w { os = (unlock_file (tried w.os s.rec_pid_dir fd) fd).1 } in
        let freed =
          free_host-ret laws asked (record { client = c.client; handle = c.handle }) host in
        elim (Bool-cases (lock_answer w.os s.rec_pid_dir fd)) [
          | inl held ↦ record {
            result = ground (arith, opened, held);
            address = ground (arith, opened, held);
          }
          | inr dead ↦ record {
            result = ground (arith, opened, dead, here, freed);
            address = ground (arith, opened, dead, here, freed);
          }
        ]

    -- What a signal, or none, makes of the loop behind its round.
    watch-round :
        (signal : Bool) (signals : List Bool) (w : World)
        → (watch_round s host w).0 ≡ ret tt
        → watch (signal ∷ signals) true s host w
          ≡ watch signals (if signal then false else true) s host (watch_round s host w).1
    unfolding watch
    watch-round signal signals w e = ground (arith, e)

    watch_over : (signals : List Bool) (w : World) → watch signals false s host w ≡ (ret false, w)
    unfolding watch
    watch_over [] w = refl
    watch_over (signal ∷ signals) w = refl

    -- Where the pid file can be opened whenever it is tried, and the watchdog's database is
    -- connected, the loop makes a round for each entry before the first signal and the one it comes
    -- in, and ends: whatever the locks, the database and the commands answer, no round stops it
    -- before, and none comes after.
    pub watch-quiet :
        MongoLaws
        → (n : ℕ) (signals : List Bool) (w : World) → Opens s.rec_pid_dir
        → s.mongo_addr ≡ w.db_address
        → IsConnected w
        → watch (quiet n signals) true s host w ≡ (ret false, rounds (suc n) s host w)
    unfolding quiet rounds
    watch-quiet laws zero signals w opens here c =
        let r = watch_round-Returned laws w opens here c in
        watch-round true signals w r.result ∙ watch_over signals (watch_round s host w).1
    watch-quiet laws (suc n) signals w opens here c =
        let r = watch_round-Returned laws w opens here c in
        watch-round false (quiet n signals) w r.result
        ∙ watch-quiet laws n signals (watch_round s host w).1 opens (here ∙ sym r.address) (record {
          client = rw (r.address) (c.client);
          handle = λ db name. rw (r.address) (c.handle db name);
        })

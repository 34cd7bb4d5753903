-- ===== src/Pulld/Watch.antt =====
-- A round of the watchdog's loop (injectService/pulld/src/main.cpp).
use pull_stream.Base.{
  ◌⊎◌, ℕ, ◌≤◌, ◌≡◌, refl, ap, Bool, true, false, some, Text, is_negative, arith, Bool-cases, inl,
  inr,
}
use pull_stream.Cache.Connected.{IsConnected, host_at}
use pull_stream.Cache.Hosts.{hosts}
use pull_stream.External.{External, read_write_create}
use pull_stream.External.Laws.{MongoLaws}
use pull_stream.Pulld.{Settings, free_host, check_process_alive, run_command, watch_round}
use pull_stream.Pulld.Freed.{Removes, Freed, free_host-Freed}
use pull_stream.World.{World, Outcome, ret}

module _ ⦃x : External⦄ where
  open x use {Os, open_file, close, lock_file, unlock_file, system, sleep}

  -- The kernel's state once the lock has been tried, for a file opened as `fd`.
  abbrev pub tried : Os → Text → ℕ → Os
  tried o file fd = (close (lock_file (open_file o file read_write_create).1 fd).1 fd).1

  -- What `lockf` said.
  abbrev pub lock_answer : Os → Text → ℕ → Bool
  lock_answer o file fd = is_negative (lock_file (open_file o file read_write_create).1 fd).0

  module _ (laws : MongoLaws) (s : Settings) (host : Text) (w : World) (fd : ℕ)
      (here : s.mongo_addr ≡ w.db_address)
      (opened : (open_file w.os s.rec_pid_dir read_write_create).0 ≡ some fd) where
    -- The world in which the database is asked.
    abbrev asked : World
    asked = record w { os = (unlock_file (tried w.os s.rec_pid_dir fd) fd).1 }

    -- The world once the host has been looked for, and removed.
    abbrev pub freed : World
    freed = (free_host host w.db_address asked).1

    round_alive :
        lock_answer w.os s.rec_pid_dir fd ≡ true
        → watch_round s host w
          ≡ (ret tt, record w { os = (sleep (close (tried w.os s.rec_pid_dir fd) fd).1 5).1 })
    unfolding watch_round run_command check_process_alive
    round_alive held = ground (arith, opened, held)

    module _ (dead : lock_answer w.os s.rec_pid_dir fd ≡ false) (c : IsConnected w)
        (one : hosts laws w.server (host_at w) host ≤ 1) (done : Removes laws w c host) where
      freed_lem :
          Freed laws asked
            (record { client = c.client; handle = c.handle })
            host
            (free_host host w.db_address asked)
      freed_lem =
          free_host-Freed laws asked (record { client = c.client; handle = c.handle }) host one done

      round_dead : watch_round s host w ≡ (
        ret tt,
        record freed {
          os = (sleep (system (close freed.os fd).1 freed.server s.rec_bin_dir).1.0 5).1;
          server = (system (close freed.os fd).1 freed.server s.rec_bin_dir).1.1;
        },
      )
      unfolding watch_round run_command check_process_alive
      round_dead = ground (arith, opened, dead, here, freed_lem.result)

    -- What a round does for a service that is dead: its host is not registered any more, and its
    -- command has been run once behind that, on the kernel and the database, before the wait.
    pub record Restarted (r : Outcome (Unit {0}) × World) : Type 0 where
      pub result : r.0 ≡ ret tt
      pub none_left : hosts laws freed.server (host_at w) host ≡ 0
      pub os : r.1.os ≡ (sleep (system (close asked.os fd).1 freed.server s.rec_bin_dir).1.0 5).1
      pub server : r.1.server ≡ (system (close asked.os fd).1 freed.server s.rec_bin_dir).1.1

    -- A round of the watchdog whose database is the one of `w`, where the pid file can be opened, at
    -- most one service is registered for the host, and the database reports the removal. If the lock
    -- is held the service is left alone: the command is not run, and the database is as it was. If
    -- not, the host's registration is gone, and behind that the command has been run, which is given the
    -- database so.
    pub watch_round_lem :
        (c : IsConnected w)
        → hosts laws w.server (host_at w) host ≤ 1
        → Removes laws w c host
        → ((lock_answer w.os s.rec_pid_dir fd ≡ true)
            × (watch_round s host w ≡ (
              ret tt,
              record w { os = (sleep (close (tried w.os s.rec_pid_dir fd) fd).1 5).1 },
            )))
          ⊎ ((lock_answer w.os s.rec_pid_dir fd ≡ false) × Restarted (watch_round s host w))
    watch_round_lem c one done = elim (Bool-cases (lock_answer w.os s.rec_pid_dir fd)) [
      | inl held ↦ inl (held, round_alive held)
      | inr dead ↦
          let f = freed_lem dead c one done in
          inr (
            dead,
            rw (round_dead dead c one done) (record {
              result = refl;
              none_left = f.none_left;
              os =
                  ap
                    (λ (o : Os). (sleep (system (close o fd).1 freed.server s.rec_bin_dir).1.0 5).1)
                    f.os;
              server = ap (λ (o : Os). (system (close o fd).1 freed.server s.rec_bin_dir).1.1) f.os;
            }),
          )
    ]

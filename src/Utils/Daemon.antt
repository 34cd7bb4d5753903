-- ===== src/Utils/Daemon.antt =====
-- `daemon` and the lock of the pid file (injectService/pull/src/utils/utils.cpp).
use pull_stream.Base.{
  ℕ, ℤ, pos, ◌≡◌, ◌⊎◌, inl, inr, refl, true, false, none, some, Text, eq_ℤ, eq_ℤ_iff, is_negative,
  arith, Bool-cases, Option-cases,
}
use pull_stream.Common.{ErrorCode, internal}
use pull_stream.External.{External, read_write_create}
use pull_stream.Utils.{daemon, detach, write_pid_to_file, new_session, minus_one}
use pull_stream.World.{World, Action, Outcome, ret, exited, aborted, undefined, ◌>>◌}

module _ ⦃x : External⦄ where
  open x use {Os, open_file, set_cloexec, lock_file, write, fork_self, getpid}

  -- What `lockf` says of a pid file that has just been opened.
  abbrev pub lock_result : Os → Text → ℕ → ℤ
  lock_result o file fd = (lock_file (set_cloexec (open_file o file read_write_create).1 fd).1 fd).0

  -- What `open` and `lockf` of the pid file have said.
  pub record TookLock (file : Text) (o : Os) : Type 0 where
    pub fd : ℕ
    pub opened : (open_file o file read_write_create).0 ≡ some fd
    pub locked : is_negative (lock_result o file fd) ≡ false

  write_pid_to_file-none :
      (file : Text) (w : World)
      → (open_file w.os file read_write_create).0 ≡ none
      → (write_pid_to_file file w).0 ≡ exited 0
  unfolding write_pid_to_file
  write_pid_to_file-none file w e = ground (arith, e)

  write_pid_to_file-locked :
      (file : Text) (w : World) (fd : ℕ)
      → (open_file w.os file read_write_create).0 ≡ some fd
      → is_negative (lock_result w.os file fd) ≡ true
      → (write_pid_to_file file w).0 ≡ exited 0
  unfolding write_pid_to_file
  write_pid_to_file-locked file w fd e h = ground (arith, e, h)

  write_pid_to_file-TookLock :
      (file : Text) (w : World) → (write_pid_to_file file w).0 ≡ ret tt → TookLock file w.os
  write_pid_to_file-TookLock file w e =
      elim (Option-cases (open_file w.os file read_write_create).0) [
        | inl closed ↦ cc (write_pid_to_file-none file w closed)
        | inr (fd, opened) ↦ elim (Bool-cases (is_negative (lock_result w.os file fd))) [
          | inl held ↦ cc (write_pid_to_file-locked file w fd opened held)
          | inr got ↦ record { fd = fd; opened = opened; locked = got }
        ]
      ]

  -- A first part that does not return decides how the whole ends.
  bind_returns :
      {A : Type 0} (m : Action (Unit {0})) (k : Action A) (w : World) (a : A)
      → ((m >> k) w).0 ≡ ret a
      → (m w).0 ≡ ret tt
  bind_returns m k w a e = go (m w).0 refl
    where
      go : (o : Outcome (Unit {0})) → (m w).0 ≡ o → (m w).0 ≡ ret tt
      go (ret tt) h = h
      go aborted h = absurd (ground arith)
      go (exited n) h = absurd (ground arith)
      go undefined h = absurd (ground arith)

  detach-TookLock :
      (file : Text) (w : World) (e : ErrorCode) → (detach file w).0 ≡ ret e → TookLock file w.os
  unfolding detach
  detach-TookLock file w e h =
      write_pid_to_file-TookLock file w (bind_returns (write_pid_to_file file) new_session w e h)

  -- If `daemon` returns, then either the `fork` failed and it returned `REC_ERROR_INTERNAL`, or it is
  -- the child that runs on, and `open` and `lockf` of the pid file have succeeded in it.
  pub daemon-TookLock :
      (file : Text) (w : World) (e : ErrorCode)
      → (daemon file w).0 ≡ ret e
      → (((fork_self w.os).0 ≡ minus_one) × (e ≡ internal))
        ⊎ (((fork_self w.os).0 ≡ pos 0) × TookLock file (fork_self w.os).1)
  unfolding daemon
  daemon-TookLock file w e h = elim (Bool-cases (eq_ℤ (fork_self w.os).0 minus_one)) [
    | inl failed ↦ inl ((eq_ℤ_iff _ _).0 failed, ground arith)
    | inr forked ↦ elim (Bool-cases (eq_ℤ (fork_self w.os).0 (pos 0))) [
      | inl child ↦ inr (
        (eq_ℤ_iff _ _).0 child,
        detach-TookLock file (record w { os = (fork_self w.os).1 }) e (ground arith),
      )
      | inr parent ↦ absurd (ground arith)
    ]
  ]

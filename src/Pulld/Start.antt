-- ===== src/Pulld/Start.antt =====
-- How the watchdog (injectService/pulld/src/main.cpp) goes into the background, with the pid file it
-- locks, and how it learns its address. Log calls change nothing that is modelled.
use pull_stream.Base.{
  ℕ, ℤ, pos, none, some, Text, c_str, eq_ℤ, is_negative, take, ltb, if◌then◌else◌,
}
use pull_stream.External.{External, read_write, read_write_create}
use pull_stream.Utils.{dev_null, minus_one, pid_line}
use pull_stream.World.{Action, pure, gets, on_os, exit, ◌>>=◌, ◌>>◌}

module _ ⦃x : External⦄ where
  open x use {
    getpid, open_file, close, set_cloexec, lock_file, write, fork_self, setsid, umask, dup2, socket,
    siocgifaddr,
  }

  -- The part behind `open`: the descriptor stays open, and with it the lock.
  hold_lock : ℕ → ℤ → Action (Unit {0})
  hold_lock m_fd pid = do
    on_os (λ s. set_cloexec s m_fd)
    ret ← on_os (λ s. lock_file s m_fd)
    if is_negative ret then exit 0 else (do
      len ← on_os (λ s. write s m_fd (pid_line pid))
      if is_negative len then exit 0 else pure tt)

  unfoldable pub write_pid_to_file : Text → Action (Unit {0})
  unfolding hold_lock
  write_pid_to_file file = do
    pid ← gets (λ w. getpid w.os)
    m_fd ← on_os (λ s. open_file s file read_write_create)
    elim m_fd [ none ↦ exit 0 | some fd ↦ hold_lock fd pid ]

  -- `if (fd > STDERR_FILENO)`
  close_null : ℕ → Action ℤ
  close_null fd =
      if ltb 2 fd
      then (do
        closed ← on_os (λ s. close s fd)
        if eq_ℤ closed minus_one then pure minus_one else pure (pos 0))
      else pure (pos 0)

  -- The two `dup2`.
  use_null : ℕ → Action ℤ
  unfolding close_null
  use_null fd = do
    stdin ← on_os (λ s. dup2 s fd 0)
    if eq_ℤ stdin minus_one then pure minus_one else (do
      stdout ← on_os (λ s. dup2 s fd 1)
      if eq_ℤ stdout minus_one then pure minus_one else close_null fd)

  -- The child, behind its pid file.
  lead_session : Action ℤ
  unfolding use_null
  lead_session = do
    sid ← on_os setsid
    if eq_ℤ sid minus_one then pure minus_one else (do
      on_os (λ s. umask s 0)
      fd ← on_os (λ s. open_file s dev_null read_write)
      elim fd [ none ↦ pure minus_one | some null_fd ↦ use_null null_fd ])

  -- The switch on what `fork` returns; the pid that goes out through a reference is not read.
  unfoldable pub daemon : Text → Action ℤ
  unfolding write_pid_to_file lead_session
  daemon pid_path = do
    ppid ← on_os fork_self
    if eq_ℤ ppid minus_one
        then pure minus_one
        else (if eq_ℤ ppid (pos 0) then (write_pid_to_file pid_path >> lead_session) else exit 0)

  -- `ip` is what the 16 bytes held before, up to a null.
  unfoldable pub get_local_ip : Text → Text → Action (ℤ × Text)
  get_local_ip eth_inf ip = do
    sd ← on_os socket
    elim sd [
      | none ↦ pure (minus_one, ip)
      | some fd ↦ do
        sin ← on_os (λ s. siocgifaddr s fd (take 15 (c_str eth_inf)))
        on_os (λ s. close s fd)
        elim sin [ none ↦ pure (minus_one, ip) | some a ↦ pure (pos 0, take 15 (c_str a)) ]
    ]

-- ===== src/Utils.antt =====
-- `CUtils` (injectService/pull/src/utils/utils.cpp): the pid file and its lock, the step into the
-- background, the address of a network interface. Log calls change nothing that is modelled, and
-- `printf` on the way to `exit` is left out.
pub mod Daemon
pub mod PidFile
use pull_stream.Base.{
  ◌+◌, ℕ, ℤ, pos, negsuc, Bool, true, false, ◌++◌, Option, none, some, Text, bytes, c_str, decimal,
  eq_ℤ, is_negative, null, not, ◌||◌, ◌==◌, [], ◌∷◌, take, ltb, if◌then◌else◌,
}
use pull_stream.Common.{ErrorCode, error_ok, internal, open_pid_file}
use pull_stream.Ini.{atoi, is_digit, is_space}
use pull_stream.PString.{padded}
use pull_stream.External.{External, read_only, read_write, read_write_create}
use pull_stream.World.{
  deref, undefined_behaviour, World, Action, pure, gets, on_os, exit, ◌>>=◌, ◌>>◌,
}

-- `%d` of an `int`.
abbrev pub decimal_ℤ : ℤ → Text
decimal_ℤ (pos n) = decimal n
decimal_ℤ (negsuc n) = bytes "-" ++ decimal (n + 1)

-- `-1`, which a call returns on failure.
abbrev pub minus_one : ℤ
minus_one = negsuc 0

-- `/dev/null`, `STDIN_FILENO`, `STDOUT_FILENO` and `STDERR_FILENO`
abbrev pub dev_null : Text
dev_null = bytes "/dev/null"

-- What `write_pid_to_file` writes.
abbrev pub pid_line : ℤ → Text
pid_line pid = decimal_ℤ pid ++ bytes "\n"

-- Whether `atoi` comes to a character behind the number before the text ends.
abbrev pub digits_end : Text → Bool
digits_end [] = false
digits_end (c ∷ s) = not (is_digit c) || digits_end s

abbrev pub number_ends : Text → Bool
number_ends [] = false
number_ends (c ∷ s) =
    if is_space c
    then number_ends s
    else if c == b'-' || c == b'+'
    then digits_end s
    else digits_end (c ∷ s)

module _ ⦃x : External⦄ where
  open x use {
    read, access, mkdir, getpid, open_file, close, set_cloexec, lock_file, write, fork_self, setsid,
    umask, dup2, socket, siocgifaddr,
  }

  -- The lock of the pid file and the number in it: the descriptor stays open, and with it the lock.
  unfoldable pub lock_and_write : ℕ → ℤ → Action (Unit {0})
  lock_and_write fd pid = do
    on_os (λ s. set_cloexec s fd)
    locked ← on_os (λ s. lock_file s fd)
    if is_negative locked then exit 0 else (do
      written ← on_os (λ s. write s fd (pid_line pid))
      if is_negative written then exit 0 else pure tt)

  unfoldable pub write_pid_to_file : Text → Action (Unit {0})
  unfolding lock_and_write
  write_pid_to_file file = do
    pid ← gets (λ w. getpid w.os)
    opened ← on_os (λ s. open_file s file read_write_create)
    elim opened [ none ↦ exit 0 | some fd ↦ lock_and_write fd pid ]

  -- `atoi` on the 64 bytes of `buffer`, null bytes behind what was read: past their end it reads
  -- what is not the buffer's.
  abbrev pub read_number : Text → Action ℤ
  read_number t =
      let buffer = padded 64 t in
      if number_ends buffer then deref (atoi buffer) else undefined_behaviour

  -- The number goes out through a reference, `none` where nothing is written to it.
  unfoldable pub get_pid_from_file : Text → Action (ErrorCode × Option ℤ)
  get_pid_from_file file = do
    opened ← on_os (λ s. open_file s file read_only)
    elim opened [
      | none ↦ pure (open_pid_file, none)
      | some fd ↦ do
        on_os (λ s. set_cloexec s fd)
        got ← on_os (λ s. read s fd 64)
        elim got [
          | none ↦ pure (open_pid_file, none)
          | some t ↦ do pid ← read_number t; pure (error_ok, some pid)
        ]
    ]

  -- `if(access(str, 0) != 0) mkdir(str, 0777);`
  unfoldable pub make_dir : Text → Action (Unit {0})
  make_dir str = do
    there ← gets (λ w. access w.os str)
    if eq_ℤ there (pos 0) then pure tt else (on_os (λ s. mkdir s str) >> pure tt)

  -- The loop, behind the characters `before`: at a slash the folder before it is made.
  unfoldable pub make_parents : Text → Text → Action (Unit {0})
  make_parents before [] = pure tt
  make_parents before (c ∷ rest) =
      let behind = make_parents (before ++ (c ∷ [])) rest in
      if c == b'/' then make_dir before >> behind else behind

  unfoldable pub multi_mkdir : Text → Action (Unit {0})
  unfolding make_dir make_parents
  multi_mkdir dir = do
    let str = take 255 (c_str dir)
    make_parents [] str
    if null str then pure tt else make_dir str

  -- The descriptor goes out through a reference; it is closed if the lock is held elsewhere.
  unfoldable pub try_lock_file : Text → Action (Bool × ℕ)
  try_lock_file file = do
    opened ← on_os (λ s. open_file s file read_write_create)
    elim opened [
      | none ↦ exit 0
      | some fd ↦ do
        on_os (λ s. set_cloexec s fd)
        ret ← on_os (λ s. lock_file s fd)
        if eq_ℤ ret (pos 0) then pure (true, fd) else (on_os (λ s. close s fd) >> pure (false, fd))
    ]

  -- `if (fd > STDERR_FILENO) { if (close(fd) == -1) … }`
  abbrev close_null : ℕ → Action ErrorCode
  close_null fd =
      if ltb 2 fd
      then (do
        closed ← on_os (λ s. close s fd)
        if eq_ℤ closed minus_one then pure internal else pure error_ok)
      else pure error_ok

  -- Standard input and output of a daemon are `/dev/null`.
  unfoldable pub redirect : Action ErrorCode
  redirect = do
    opened ← on_os (λ s. open_file s dev_null read_write)
    elim opened [
      | none ↦ pure internal
      | some fd ↦ do
        in' ← on_os (λ s. dup2 s fd 0)
        if eq_ℤ in' minus_one then pure internal else (do
          out ← on_os (λ s. dup2 s fd 1)
          if eq_ℤ out minus_one then pure internal else close_null fd)
    ]

  -- What the child does behind the pid file.
  unfoldable pub new_session : Action ErrorCode
  unfolding redirect
  new_session = do
    sid ← on_os setsid
    if eq_ℤ sid minus_one then pure internal else (do on_os (λ s. umask s 0); redirect)

  -- The child's way through `daemon`.
  unfoldable pub detach : Text → Action ErrorCode
  unfolding write_pid_to_file new_session
  detach pid_path = write_pid_to_file pid_path >> new_session

  -- The parent exits. The pid that goes out through a reference is not read.
  unfoldable pub daemon : Text → Action ErrorCode
  unfolding detach
  daemon pid_path = do
    ppid ← on_os fork_self
    if eq_ℤ ppid minus_one
        then pure internal
        else (if eq_ℤ ppid (pos 0) then detach pid_path else exit 0)

  -- An address is copied with its null into 16 bytes; `ip` is what the buffer held before.
  unfoldable pub get_local_ip : Text → Text → Action (ℤ × Text)
  get_local_ip eth_inf ip = do
    sd ← on_os socket
    elim sd [
      | none ↦ pure (minus_one, ip)
      | some fd ↦ do
        address ← on_os (λ s. siocgifaddr s fd (take 15 (c_str eth_inf)))
        on_os (λ s. close s fd)
        elim address [ none ↦ pure (minus_one, ip) | some a ↦ pure (pos 0, take 15 (c_str a)) ]
    ]

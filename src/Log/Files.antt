-- ===== src/Log/Files.antt =====
-- `new_file` and `init` of `CLog` (injectService/pulld/src/log/pure_log.cpp): the files of the log.
use pull_stream.Base.{
  ℕ, ◌+◌, Bool, true, false, ◌++◌, Option, none, some, Text, length, take, ltb, ◌==◌, if◌then◌else◌,
  ◌>>=◌,
}
use pull_stream.External.{External, Tm, append_create}
use pull_stream.Log.{
  CLog, at, following, Made, success, failure, retry, no_file, next_file, next_filename,
}

module _ ⦃x : External⦄ where
  open x use {Os, open_file, close, localtime}

  -- The old file of the slot is closed.
  abbrev close_old : Option ℕ → Os → Os
  close_old none o = o
  close_old (some fd) o = (close o fd).1

  unfoldable pub open_next : CLog → Tm → Text → Os → Made × CLog × Os
  open_next c t name o =
      let (opened, o') = open_file (close_old (at c.m_fd (following c)) o) name append_create in
      elim opened [ none ↦ (failure, no_file c, o') | some fd ↦ (success, next_file c t fd, o') ]

  -- `m_busy` is 1 only inside the call; `none` is the division by zero.
  unfoldable pub new_file : CLog → Os → Option (Made × CLog × Os)
  unfolding open_next next_filename
  new_file c o =
      let (t, o') = localtime o in
      if c.m_busy == 0
      then (do name ← next_filename c t c.m_stratege_type; some (open_next c t name o'))
      else some (retry, c, o)

  -- `init`: whether it gets as far as `new_file`, whose result is not looked at.
  unfoldable pub init : Text → Text → CLog → Os → Option (Bool × CLog × Os)
  init i_path i_filename c o =
      if ltb 255 (length i_path + length i_filename) then some (false, c, o) else (do
        (made, c', o') ← new_file (record c { m_filename = take 255 (i_path ++ i_filename) }) o
        some (true, c', o'))

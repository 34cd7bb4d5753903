-- ===== src/Log/Prints.antt =====
-- `prt` of `CLog` (injectService/pulld/src/log/pure_log.cpp): a line of the log.
use pull_stream.Base.{
  ℤ, pos, negsuc, ◌++◌, Option, none, some, Text, bytes, c_str, take, eq_ℤ, ltb, if◌then◌else◌,
  ◌>>=◌,
}
use pull_stream.External.{External, Tm}
use pull_stream.Log.{
  CLog, Level, Stratege, log_time, log_space, log_const, at, current, level_number, Made, success,
  failure, retry, counted, is_cut, has_room, log_line,
}
use pull_stream.Log.Files.{new_file}

module _ ⦃x : External⦄ where
  open x use {Os, write, localtime, puts}

  unfoldable pub write_line : Text → CLog → Os → ℤ × CLog × Os
  write_line line c o = elim (at c.m_fd (current c)) [
    | none ↦ (negsuc 0, c, o)
    | some fd ↦ let (r, o') = write o fd line in (r, counted r c, o')
  ]

  abbrev pub Printed : Type 0
  Printed = Option (ℤ × CLog × Os)

  -- `if(new_file() == FAILURE) return -1;`
  abbrev pub unless_failure : Made × CLog × Os → (CLog → Os → Printed) → Printed
  unless_failure (failure, c, o) rest = some (negsuc 0, c, o)
  unless_failure (success, c, o) rest = rest c o
  unless_failure (retry, c, o) rest = rest c o

  abbrev pub after_new_file : CLog → Os → (CLog → Os → Printed) → Printed
  after_new_file c o rest = do made ← new_file c o; unless_failure made rest

  -- With no file yet, one is made.
  abbrev pub with_file : CLog → Os → (CLog → Os → Printed) → Printed
  with_file c o rest = elim (at c.m_fd (current c)) [
    | none ↦ after_new_file c o rest
    | some fd ↦ rest c o
  ]

  abbrev pub written : Text → CLog → Os → Printed
  written line c o = some (write_line line c o)

  unfoldable pub prt_time : Text → Tm → CLog → Os → Printed
  prt_time line t c o = with_file c o λ c' o'.
      if is_cut c' t c'.m_time_stratege_type
      then after_new_file c' o' (written line)
      else written line c' o'

  unfoldable pub prt_space : Text → CLog → Os → Printed
  prt_space line c o =
      with_file c o
        λ c' o'. if has_room c' then written line c' o' else after_new_file c' o' (written line)

  unfoldable pub prt_const : Text → CLog → Os → Printed
  prt_const line c o =
      with_file c o λ c' o'. let (r, c'', o'') = write_line line c' o' in some (pos 0, c'', o'')

  unfoldable pub prt_file : Text → Tm → Stratege → CLog → Os → Printed
  prt_file line t log_time c o = prt_time line t c o
  prt_file line t log_space c o = prt_space line c o
  prt_file line t log_const c o = prt_const line c o

  -- `prt`, on the text that the format and its arguments give.
  unfoldable pub prt : Level → Text → CLog → Os → Printed
  unfolding prt_file log_line
  prt level text c o =
      if ltb (level_number c.m_log_level) (level_number level)
      then some (pos 0, c, o)
      else (let (t, o') = localtime o in
          if eq_ℤ c.log_tank (pos 0)
          then some (pos 0, c, (puts o' (take 511 (c_str text) ++ bytes "\n")).1)
          else prt_file (log_line t level text) t c.m_stratege_type c o')

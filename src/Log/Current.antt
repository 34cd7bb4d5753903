-- ===== src/Log/Current.antt =====
-- The files of `prt` (injectService/pulld/src/log/pure_log.cpp), where files change by the hour.
use mathlib.Core.Path.{subst}
use pull_stream.Base.{
  ℕ, zero, suc, ◌+◌, ◌%◌, ◌≤◌, ℤ, pos, negsuc, ◌≡◌, ◌⊎◌, inl, inr, refl, sym, ap, ◌∙◌, false, some,
  none, Option, Text, eq_ℤ, ltb, ◌==◌, not, arith, if◌then◌else◌, Bool-cases,
}
use pull_stream.External.{External, Tm}
use pull_stream.Log.{
  CLog, Level, level_number, log_time, hour, u32, at, current, Made, success, failure, no_file,
  next_file, counted, is_cut, log_line,
}
use pull_stream.Log.Files.{open_next}
use pull_stream.Log.Prints.{
  write_line, written, unless_failure, after_new_file, prt_time, prt_file, prt, Printed,
}
use pull_stream.Log.Rotation.{IsReady, next_filename-some, new_file-open_next, at-put_self}

-- Files change by the hour, and the log is at rest.
pub record IsHourly (c : CLog) : Type 0 where
  pub ready : IsReady c
  pub by_time : c.m_stratege_type ≡ log_time
  pub by_hour : c.m_time_stratege_type ≡ hour

-- The hour in which the file in use was opened.
abbrev pub file_hour : CLog → ℕ
file_hour c = (at c.m_cur_filetime (current c)).tm_hour

next_file-IsHourly : (c : CLog) (t : Tm) (fd : ℕ) → IsHourly c → IsHourly (next_file c t fd)
next_file-IsHourly c t fd h = record {
  ready = record { free = h.ready.free; position = omega arith; amount = h.ready.amount };
  by_time = h.by_time;
  by_hour = h.by_hour;
}

file_hour-next_file : (c : CLog) (t : Tm) (fd : ℕ) → file_hour (next_file c t fd) ≡ t.tm_hour
file_hour-next_file c t fd =
    ap (λ (s : Tm). s.tm_hour) (at-put_self c.m_cur_filetime ((c.m_pos + 1) % u32 % 2) t)

no_file-IsHourly : (c : CLog) → IsHourly c → IsHourly (no_file c)
no_file-IsHourly c h = record {
  ready = record { free = h.ready.free; position = h.ready.position; amount = h.ready.amount };
  by_time = h.by_time;
  by_hour = h.by_hour;
}

counted-IsHourly :
    (c : CLog) (r : ℤ)
    → IsHourly c
    → IsHourly (counted r c) × (file_hour (counted r c) ≡ file_hour c)
counted-IsHourly c (pos zero) h = (h, refl)
counted-IsHourly c (negsuc n) h = (h, refl)
counted-IsHourly c (pos (suc n)) h = (
  record {
    ready = record { free = h.ready.free; position = h.ready.position; amount = h.ready.amount };
    by_time = h.by_time;
    by_hour = h.by_hour;
  },
  refl,
)

module _ ⦃x : External⦄ where
  open x use {Os, write, localtime, puts}

  -- What a call of `prt` at the hour `now` leaves: it returns, and the file in use was opened in that
  -- hour, or the call returned -1.
  pub record Current (now : ℕ) (r : Printed) : Type 0 where
    pub value : ℤ
    pub log : CLog
    pub os : Os
    pub result : r ≡ some (value, log, os)
    pub hourly : IsHourly log
    pub in_time : (value ≡ negsuc 0) ⊎ (file_hour log ≡ now)

  module _ (now : ℕ) (clock : (o : Os) → (localtime o).0.tm_hour ≡ now) (line : Text) where
    written-Current :
        (c : CLog) (o : Os) → IsHourly c → file_hour c ≡ now → Current now (written line c o)
    unfolding write_line
    written-Current c o h e = go (at c.m_fd (current c)) refl
      where
        go : (f : Option ℕ) → at c.m_fd (current c) ≡ f → Current now (written line c o)
        go none k = record {
          value = negsuc 0;
          log = c;
          os = o;
          result = rw (k, write_line);
          hourly = h;
          in_time = inl refl;
        }
        go (some fd) k =
            let (h', same) = counted-IsHourly c (write o fd line).0 h in
            record {
              value = (write o fd line).0;
              log = counted (write o fd line).0 c;
              os = (write o fd line).1;
              result = rw (k, write_line);
              hourly = h';
              in_time = inr (same ∙ e);
            }

    open_next-Current :
        (c : CLog) (t : Tm) (name : Text) (o : Os) (rest : CLog → Os → Printed)
        → IsHourly c
        → t.tm_hour ≡ now
        → ((c' : CLog) (o' : Os) → IsHourly c' → file_hour c' ≡ now → Current now (rest c' o'))
        → Current now (unless_failure (open_next c t name o) rest)
    unfolding open_next
    open_next-Current c t name o rest h e next = go _
      where
        go :
            (p : Option ℕ × Os)
            → Current now (
                unless_failure
                  (elim p.0 as (λ _. Made × CLog × Os) [
                    | none ↦ (failure, no_file c, p.1)
                    | some fd ↦ (success, next_file c t fd, p.1)
                  ])
                  rest)
        go (none, o') = record {
          value = negsuc 0;
          log = no_file c;
          os = o';
          result = refl;
          hourly = no_file-IsHourly c h;
          in_time = inl refl;
        }
        go (some fd, o') =
            next (next_file c t fd) o' (next_file-IsHourly c t fd h)
              (file_hour-next_file c t fd ∙ e)

    -- A new file is of this hour, whatever is done then.
    after_new_file-Current :
        (c : CLog) (o : Os) (rest : CLog → Os → Printed)
        → IsHourly c
        → ((c' : CLog) (o' : Os) → IsHourly c' → file_hour c' ≡ now → Current now (rest c' o'))
        → Current now (after_new_file c o rest)
    after_new_file-Current c o rest h next =
        let t = (localtime o).0 in
        let (name, named) = next_filename-some c t c.m_stratege_type h.ready.amount in
        rw (new_file-open_next c o name h.ready.free named)
          (open_next-Current c t name (localtime o).1 rest h (clock o) next)

    module _ (t : Tm) (e : t.tm_hour ≡ now) where
      -- What `prt` does once there is a file.
      abbrev choose : CLog → Os → Printed
      choose c o =
          if is_cut c t c.m_time_stratege_type
          then after_new_file c o (written line)
          else written line c o

      choose-Current : (c : CLog) (o : Os) → IsHourly c → Current now (choose c o)
      choose-Current c o h = elim (Bool-cases (is_cut c t c.m_time_stratege_type)) [
        | inl cut ↦ rw cut (after_new_file-Current c o (written line) h written-Current)
        | inr same ↦
            let hours : not (file_hour c == t.tm_hour) ≡ false =
              rw (← same) (rw (h.by_hour) refl) in
            rw same (written-Current c o h (ground (arith, hours, e)))
      ]

      prt_time-Current : (c : CLog) (o : Os) → IsHourly c → Current now (prt_time line t c o)
      unfolding prt_time
      prt_time-Current c o h = go (at c.m_fd (current c))
        where
          go :
              (f : Option ℕ)
              → Current now (elim f [ none ↦ after_new_file c o choose | some fd ↦ choose c o ])
          go none = after_new_file-Current c o choose h (λ c' o' h' _. choose-Current c' o' h')
          go (some fd) = choose-Current c o h

  -- On a log at rest that changes files by the hour and goes to files, while the clock stands at one
  -- hour: a call of `prt` whose level is on comes to an end, and leaves the log so; then the file in
  -- use was opened at that hour of the day, on whatever day, or the call returned -1.
  pub prt-Current :
      (now : ℕ)
      → ((o : Os) → (localtime o).0.tm_hour ≡ now)
      → (level : Level) (text : Text) (c : CLog) (o : Os) → IsHourly c
      → eq_ℤ c.log_tank (pos 0) ≡ false
      → level_number level ≤ level_number c.m_log_level
      → Current now (prt level text c o)
  unfolding prt prt_file
  prt-Current now clock level text c o h to_file on =
      let t = (localtime o).0 in
      let off : ltb (level_number c.m_log_level) (level_number level) ≡ false = ground arith in
      rw (off, to_file)
        (subst (λ s. Current now (prt_file (log_line t level text) t s c (localtime o).1))
          (sym h.by_time)
          (prt_time-Current now clock (log_line t level text) t (clock o) c (localtime o).1 h))

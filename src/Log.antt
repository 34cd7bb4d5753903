-- ===== src/Log.antt =====
-- The watchdog's log, `CLog` (injectService/pulld/src/log/pure_log.cpp): lines go to the console or
-- to a file, and files change by time, by size or never. Two descriptors are in use in turn, so that
-- the file before the last stays open for a thread that is about to write to it. A call is one step.
pub mod Files
pub mod Prints
pub mod Rotation
pub mod Bound
pub mod Cycle
pub mod Current
use pull_stream.Base.{
  ℕ, zero, suc, ◌+◌, ◌-◌, ◌*◌, ◌%◌, ◌^◌, ℤ, pos, negsuc, Bool, true, false, not, List, [], ◌∷◌,
  ◌++◌, Option, none, some, String, Text, bytes, c_str, decimal, length, take, text_eq, eq_ℤ, ltb,
  leb, ◌==◌, if◌then◌else◌, ◌>>=◌,
}
use pull_stream.External.{External, Tm, append_create}

-- `PURE_LOG_TYPE_E`, with the names that `lvl` gives to the levels.
pub data Level : Type 0 where
  term crit error warn info debug : Level

abbrev pub level_number : Level → ℕ
level_number term = 0
level_number crit = 1
level_number error = 2
level_number warn = 3
level_number info = 4
level_number debug = 5

abbrev level_name : Level → Text
level_name term = bytes "TERM"
level_name crit = bytes "CRIT"
level_name error = bytes "ERROR"
level_name warn = bytes "WARN"
level_name info = bytes "INFO"
level_name debug = bytes "DEBUG"

-- `PURE_LOG_STRATEGE_TYPE_E` and `PURE_LOG_TIME_STRATEGE_E`
pub data Stratege : Type 0 where
  log_time log_space log_const : Stratege

pub data TimeStratege : Type 0 where
  hour day week : TimeStratege

-- An array of two.
pub record Two (A : Type 0) : Type 0 where
  pub zeroth : A
  pub first : A

module _ {A : Type 0} where
  abbrev pub at : Two A → ℕ → A
  at t zero = t.zeroth
  at t (suc i) = t.first

  abbrev pub put : Two A → ℕ → A → Two A
  put t zero a = record t { zeroth = a }
  put t (suc i) a = record t { first = a }

-- A descriptor is `none` where the code has -1; `m_pos`, the sizes are `u32`; the `s32` of
-- `m_amount_size` is held as the `u32` that the division takes it as.
pub record CLog : Type 0 where
  pub m_filename : Text
  pub m_stratege_type : Stratege
  pub m_time_stratege_type : TimeStratege
  pub m_amount_size : ℕ
  pub m_log_level : Level
  pub m_cur_filetime : Two Tm
  pub m_cur_file_size : Two ℕ
  pub m_max_file_size : ℕ
  pub m_fd : Two (Option ℕ)
  pub m_pos : ℕ
  pub m_busy : ℕ
  pub log_tank : ℤ

abbrev pub u32 : ℕ
u32 = 2 ^ 32

-- `PURE_LOG_MAX_PARA_STR_LEN`
abbrev pub max_para_str_len : ℕ
max_para_str_len = 512

abbrev no_time : Tm
no_time = record { tm_year = 0; tm_mon = 0; tm_mday = 0; tm_hour = 0; tm_min = 0; tm_sec = 0 }

-- The constructor; nothing sets `log_tank`.
unfoldable pub new_log : ℤ → CLog
new_log junk = record {
  m_filename = [];
  m_stratege_type = log_const;
  m_time_stratege_type = hour;
  m_amount_size = 10;
  m_log_level = debug;
  m_cur_filetime = record { zeroth = no_time; first = no_time };
  m_cur_file_size = record { zeroth = 0; first = 0 };
  m_max_file_size = 10 * 1024 * 1024;
  m_fd = record { zeroth = none; first = none };
  m_pos = u32 - 1;
  m_busy = 0;
  log_tank = junk;
}

unfoldable pub set_log_level : Level → CLog → CLog
set_log_level i_lvl c = record c { m_log_level = i_lvl }

unfoldable pub set_log_tank : Text → CLog → CLog
set_log_tank tank c =
    if text_eq (bytes "file") tank
    then record c { log_tank = pos 1 }
    else if text_eq (bytes "console") tank
    then record c { log_tank = pos 0 }
    else c

unfoldable pub set_log_out_by_time : ℤ → CLog → CLog
set_log_out_by_time (pos (suc n)) c = record c {
  m_stratege_type = log_time;
  m_time_stratege_type = hour;
}
set_log_out_by_time _ c = record c { m_stratege_type = log_time; m_time_stratege_type = day }

unfoldable pub set_log_out_by_amount : ℕ → ℕ → CLog → CLog
set_log_out_by_amount i_len i_size c = record c {
  m_stratege_type = log_space;
  m_amount_size = i_size;
  m_max_file_size = i_len;
}

-- `m_pos & 0x1`, and `(m_pos + 1) & 0x1` of the `u32` sum.
abbrev pub current : CLog → ℕ
current c = c.m_pos % 2

abbrev pub following : CLog → ℕ
following c = (c.m_pos + 1) % u32 % 2

-- `%02d` and `%04d`
abbrev zeros : ℕ → Text
zeros zero = []
zeros (suc n) = b'0' ∷ zeros n

padded_decimal : ℕ → ℕ → Text
padded_decimal width n = let d = decimal n in zeros (width - length d) ++ d

-- `"%04d%02d%02d_%02dh"`
time_suffix : Tm → Text
unfolding padded_decimal
time_suffix t =
    padded_decimal 4 (t.tm_year + 1900)
    ++ (padded_decimal 2 (t.tm_mon + 1)
        ++ (padded_decimal 2 t.tm_mday ++ (bytes "_" ++ (padded_decimal 2 t.tm_hour ++ bytes "h"))))

-- `"[%04d-%02d-%02d %02d-%02d-%02d]"`
date_str : Tm → Text
unfolding padded_decimal
date_str t =
    bytes "["
    ++ (padded_decimal 4 (t.tm_year + 1900)
        ++ (bytes "-"
            ++ (padded_decimal 2 (t.tm_mon + 1)
                ++ (bytes "-"
                    ++ (padded_decimal 2 t.tm_mday
                        ++ (bytes " "
                            ++ (padded_decimal 2 t.tm_hour
                                ++ (bytes "-"
                                    ++ (padded_decimal 2 t.tm_min
                                        ++ (bytes "-"
                                            ++ (padded_decimal 2 t.tm_sec ++ bytes "]")))))))))))

-- The number of the file that comes next, from 1 to `m_amount_size`; by zero it is a fault.
unfoldable pub next_index : CLog → Option ℕ
next_index c =
    if c.m_amount_size == 0 then none else some ((c.m_pos + 1) % u32 % c.m_amount_size + 1)

-- The name of the next file.
unfoldable pub next_filename : CLog → Tm → Stratege → Option Text
unfolding time_suffix next_index
next_filename c t log_time =
    some (take 255 (c_str c.m_filename ++ (bytes "_" ++ (time_suffix t ++ bytes ".log"))))
next_filename c t log_space = do
  index ← next_index c
  some (take 255 (c_str c.m_filename ++ (bytes "_" ++ (decimal index ++ bytes ".log"))))
next_filename c t log_const = some (take 255 (c_str c.m_filename ++ bytes ".log"))

-- `buf`: the date, the level and at most 511 bytes of the text, 1023 bytes at most.
unfoldable pub log_line : Tm → Level → Text → Text
unfolding date_str
log_line t level text = take 1023 (
    date_str t
    ++ (bytes "[" ++ (level_name level ++ (bytes "] " ++ (take 511 (c_str text) ++ bytes "\n")))))

-- What `new_file` returns: `SUCCESS`, `FAILURE` or `RETRY`.
pub data Made : Type 0 where
  success failure retry : Made

abbrev pub no_file : CLog → CLog
no_file c = record c { m_fd = put c.m_fd (following c) none }

abbrev pub next_file : CLog → Tm → ℕ → CLog
next_file c t fd = record c {
  m_fd = put c.m_fd (following c) (some fd);
  m_cur_filetime = put c.m_cur_filetime (following c) t;
  m_cur_file_size = put c.m_cur_file_size (following c) 0;
  m_pos = (c.m_pos + 1) % u32;
}

-- A write that reports more than 0 bytes is counted.
abbrev pub counted : ℤ → CLog → CLog
counted (pos (suc n)) c = record c {
  m_cur_file_size =
      put c.m_cur_file_size (current c) ((at c.m_cur_file_size (current c) + suc n) % u32);
}
counted _ c = c

-- Whether the file is of another hour, or of another day of the month.
abbrev pub is_cut : CLog → Tm → TimeStratege → Bool
is_cut c t hour = not ((at c.m_cur_filetime (current c)).tm_hour == t.tm_hour)
is_cut c t day = not ((at c.m_cur_filetime (current c)).tm_mday == t.tm_mday)
is_cut c t week = false

-- Whether there is room: the `u32` difference wraps.
abbrev pub has_room : CLog → Bool
has_room c =
    ltb (at c.m_cur_file_size (current c)) ((c.m_max_file_size + u32 - max_para_str_len) % u32)

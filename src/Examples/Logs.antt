-- ===== src/Examples/Logs.antt =====
-- The watchdog's log, at examples.
use pull_stream.Base.{some, ◌≡◌, ◌+◌, Text, text_eq, pos, refl, bytes, arith}
use pull_stream.Examples.Machine.{toy, Machine}
use pull_stream.External.{External}
use pull_stream.Log.Cycle.{SameFile, Changes, new_file-Changes}
use pull_stream.Log.Current.{IsHourly, Current, prt-Current}
use pull_stream.Examples.Setting.{service}
use pull_stream.Log.{
  CLog, new_log, set_log_out_by_amount, set_log_tank, set_log_out_by_time, next_file, next_filename,
  error,
}
use pull_stream.Log.Files.{new_file, open_next}
use pull_stream.Log.Prints.{prt}
use pull_stream.Log.Rotation.{IsReady, Turn, new_file-Turn}

abbrev by_amount : CLog
by_amount = set_log_tank (bytes "file") (set_log_out_by_amount 4096 3 (new_log (pos 7)))

by_amount-IsReady : IsReady by_amount
unfolding set_log_tank set_log_out_by_amount new_log text_eq bytes
by_amount-IsReady = record { free = refl; position = omega arith; amount = omega arith }

new_file-Turn_example : Turn by_amount service.os (new_file by_amount service.os)
new_file-Turn_example = new_file-Turn by_amount service.os by_amount-IsReady

-- The log behind its first file.
abbrev pub in_use : CLog
in_use = record by_amount { m_pos = 0 }

abbrev opened : CLog → Machine → CLog
opened c o = next_file c o.clock o.next_fd

abbrev more_open : Machine → Machine
more_open o = record o { next_fd = o.next_fd + 1 }

same_file : (c : CLog) → SameFile c c
same_file c = record { pos = refl; busy = refl; name = refl; amount = refl; stratege = refl }

pub in_use-IsReady : IsReady in_use
unfolding set_log_tank set_log_out_by_amount new_log text_eq bytes
in_use-IsReady = record { free = refl; position = omega arith; amount = omega arith }

abbrev hourly : CLog
hourly = set_log_tank (bytes "file") (set_log_out_by_time (pos 1) (new_log (pos 7)))

hourly-IsHourly : IsHourly hourly
unfolding set_log_tank set_log_out_by_time new_log text_eq bytes
hourly-IsHourly = record {
  ready = record { free = refl; position = omega arith; amount = omega arith };
  by_time = refl;
  by_hour = refl;
}

-- The clock stands.
abbrev standing : External
standing = record toy { posix = record toy.posix { localtime = λ m. (service.os.clock, m) } }

prt-Current_example :
    Current ⦃x = standing⦄ 9 (prt ⦃x = standing⦄ error (bytes "no host") hourly service.os)
unfolding set_log_tank set_log_out_by_time new_log text_eq bytes
prt-Current_example =
    prt-Current ⦃x = standing⦄ 9 (λ o. refl) error (bytes "no host") hourly service.os
      hourly-IsHourly refl (omega arith)

abbrev file_1 : CLog
file_1 = opened in_use service.os

abbrev file_2 : CLog
file_2 = opened file_1 service.os

abbrev file_3 : CLog
file_3 = opened file_2 service.os

three-Changes : Changes 3 in_use file_3
unfolding new_file open_next next_filename set_log_tank set_log_out_by_amount new_log text_eq bytes
three-Changes =
    Changes.change in_use file_1 service.os (more_open service.os) (same_file in_use) refl (
      Changes.change file_1 file_2 service.os (more_open service.os) (same_file file_1) refl (
        Changes.change file_2 file_3 service.os (more_open service.os) (same_file file_2) refl
          (Changes.lines (same_file file_3))))

new_file-Changes_example :
    (name : Text) × (new_file in_use service.os
      ≡ some (open_next in_use service.os.clock name service.os))
    × (new_file file_3 service.os ≡ some (open_next file_3 service.os.clock name service.os))
unfolding set_log_tank set_log_out_by_amount new_log text_eq bytes
new_file-Changes_example =
    new_file-Changes service.os service.os in_use-IsReady refl three-Changes (omega arith)

-- ===== src/Log/Bound.antt =====
-- The size of a file of `CLog` (injectService/pulld/src/log/pure_log.cpp), where files change by size.
use pull_stream.Base.{ℕ, ◌+◌, ◌<◌, ◌≤◌, ℤ, pos, ◌≡◌, some, Text, length}
use pull_stream.External.{External}
use pull_stream.Log.{CLog, log_space, u32, at, current}
use pull_stream.Log.Prints.{Printed}
use pull_stream.Log.Rotation.{IsReady}

-- Files change by size, and the file in use has at most 510 bytes more than the limit.
pub record IsBounded (c : CLog) : Type 0 where
  pub ready : IsReady c
  pub by_size : c.m_stratege_type ≡ log_space
  pub least : 513 ≤ c.m_max_file_size
  pub most : c.m_max_file_size + 510 < u32
  pub size : at c.m_cur_file_size (current c) ≤ c.m_max_file_size + 510

-- Behind a write of at most 1023 bytes.
abbrev HasSpace : CLog → Type 0
HasSpace c = at c.m_cur_file_size (current c) + 1023 ≤ c.m_max_file_size + 510

module _ ⦃x : External⦄ where
  open x use {Os, write, localtime, puts}

  -- `write` reports no more bytes than it was given.
  abbrev pub WritesWithin : Type 0
  WritesWithin = (o : Os) (fd : ℕ) (t : Text) (n : ℕ) → (write o fd t).0 ≡ pos n → n ≤ length t

  -- What a call of `prt` leaves: it is bounded, and the call has not come to a fault.
  pub record Bounded (r : Printed) : Type 0 where
    pub value : ℤ
    pub log : CLog
    pub os : Os
    pub result : r ≡ some (value, log, os)
    pub bounded : IsBounded log

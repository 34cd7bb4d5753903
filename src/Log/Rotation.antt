-- ===== src/Log/Rotation.antt =====
-- What `new_file` (injectService/pulld/src/log/pure_log.cpp) does to the two slots.
use pull_stream.Base.{
  ◌++◌, bytes, decimal, c_str, take, ℕ, zero, suc, ◌+◌, ◌%◌, ◌<◌, ◌≡◌, ◌≢◌, ◌⊎◌, inl, inr, refl,
  sym, ap, ◌∙◌, ◌-◌, Option-cases, false, Option, none, some, Text, ◌==◌, arith,
}
use pull_stream.External.{External, Tm, append_create}
use pull_stream.Log.{
  CLog, Stratege, log_time, log_space, log_const, u32, Two, at, put, current, following,
  next_filename, Made, success, failure, no_file, next_file,
}
use pull_stream.Log.Files.{open_next, new_file}

-- The log is at rest, and its numbers are in range.
pub record IsReady (c : CLog) : Type 0 where
  pub free : c.m_busy ≡ 0
  pub position : c.m_pos < u32
  pub amount : 0 < c.m_amount_size

other_slot : (p : ℕ) → p < u32 → (p + 1) % u32 % 2 ≢ p % 2
other_slot p h = omega arith

pub at-put_self : {A : Type 0} (t : Two A) (i : ℕ) (a : A) → at (put t i a) i ≡ a
at-put_self t zero a = refl
at-put_self t (suc i) a = refl

pub at-put_ne :
    {A : Type 0} (t : Two A) (i j : ℕ) (a : A) → i < 2 → j < 2 → i ≢ j → at (put t i a) j ≡ at t j
at-put_ne t zero zero a hi hj ne = absurd (ne refl)
at-put_ne t zero (suc j) a hi hj ne = refl
at-put_ne t (suc i) zero a hi hj ne = refl
at-put_ne t (suc zero) (suc zero) a hi hj ne = absurd (ne refl)
at-put_ne t (suc zero) (suc (suc j)) a hi hj ne = absurd (omega arith)
at-put_ne t (suc (suc i)) (suc j) a hi hj ne = absurd (omega arith)

-- The file in use before stays open, the settings stay, and the log is at rest again.
pub record Kept (c c' : CLog) : Type 0 where
  pub ready : IsReady c'
  pub open' : at c'.m_fd (current c) ≡ at c.m_fd (current c)
  pub size : at c'.m_cur_file_size (current c) ≡ at c.m_cur_file_size (current c)
  pub stratege : c'.m_stratege_type ≡ c.m_stratege_type
  pub max : c'.m_max_file_size ≡ c.m_max_file_size

-- A new file, empty, is the one in use.
pub record Rotated (c c' : CLog) : Type 0 where
  pub kept : Kept c c'
  pub fd : ℕ
  pub in_use : at c'.m_fd (current c') ≡ some fd
  pub empty : at c'.m_cur_file_size (current c') ≡ 0
  pub turned : current c' ≢ current c

-- The file in use is the one that was.
pub record NotRotated (c c' : CLog) : Type 0 where
  pub kept : Kept c c'
  pub stays : current c' ≡ current c

other_is : (c : CLog) → c.m_pos < u32 → 1 - current c ≡ following c
other_is c h = omega arith

current_lt : (c : CLog) → current c < 2
current_lt c = omega arith

following_lt : (c : CLog) → following c < 2
following_lt c = omega arith

next_file-Rotated : (c : CLog) (t : Tm) (fd : ℕ) → IsReady c → Rotated c (next_file c t fd)
next_file-Rotated c t fd r =
    let ne = other_slot c.m_pos r.position in
    record {
      kept = record {
        ready = record { free = r.free; position = omega arith; amount = r.amount };
        open' =
            at-put_ne c.m_fd (following c) (current c) (some fd) (following_lt c) (current_lt c) ne;
        size =
            at-put_ne c.m_cur_file_size (following c) (current c) 0 (following_lt c) (current_lt c)
              ne;
        stratege = refl;
        max = refl;
      };
      fd = fd;
      in_use = at-put_self c.m_fd (following c) (some fd);
      empty = at-put_self c.m_cur_file_size (following c) 0;
      turned = ne;
    }

no_file-NotRotated : (c : CLog) → IsReady c → NotRotated c (no_file c)
no_file-NotRotated c r = record {
  kept = record {
    ready = record { free = r.free; position = r.position; amount = r.amount };
    open' =
        at-put_ne c.m_fd (following c) (current c) none (following_lt c) (current_lt c)
          (other_slot c.m_pos r.position);
    size = refl;
    stratege = refl;
    max = refl;
  };
  stays = refl;
}

-- The parity of the position decides the slot: the file that was in use stays open.
pub next_filename-some :
    (c : CLog) (t : Tm) (s : Stratege)
    → 0 < c.m_amount_size
    → (name : Text) × (next_filename c t s ≡ some name)
unfolding next_filename
next_filename-some c t log_time h = (_, refl)
next_filename-some c t log_const h = (_, refl)
next_filename-some c t log_space h =
    let b : (c.m_amount_size == 0) ≡ false = ground arith in
    (
      take 255 (
          c_str c.m_filename
          ++ (bytes "_" ++ (decimal ((c.m_pos + 1) % u32 % c.m_amount_size + 1) ++ bytes ".log"))),
      rw b refl,
    )

module _ ⦃x : External⦄ where
  open x use {Os, localtime, open_file, close}

  -- The file of a slot is closed, if it has one.
  abbrev pub closed : Option ℕ → Os → Os
  closed none o = o
  closed (some fd) o = (close o fd).1

  -- What the kernel answers where the file of the slot that is not in use is closed, if it has one,
  -- and then `name` is opened to append.
  abbrev pub answer : CLog → Os → Text → Option ℕ × Os
  answer c o name =
      open_file (closed (at c.m_fd (1 - current c)) (localtime o).1) name append_create

  -- How a call of `new_file` on a log at rest ends, at the kernel's state `o`.
  pub record Turn (c : CLog) (o : Os) (r : Option (Made × CLog × Os)) : Type 0 where
    pub made : Made
    pub log : CLog
    pub os : Os
    pub name : Text
    pub named : next_filename c (localtime o).0 c.m_stratege_type ≡ some name
    pub result : r ≡ some (made, log, os)
    pub calls : os ≡ (answer c o name).1
    pub outcome :
        ((made ≡ success) × (at log.m_fd (current log) ≡ (answer c o name).0) × Rotated c log)
        ⊎ ((made ≡ failure) × ((answer c o name).0 ≡ none) × NotRotated c log)

  -- What `new_file` makes of the kernel's answer.
  abbrev taken : CLog → Tm → Option ℕ × Os → Made × CLog × Os
  taken c t p = elim p.0 [
    | none ↦ (failure, no_file c, p.1)
    | some fd ↦ (success, next_file c t fd, p.1)
  ]

  open_next-answer :
      (c : CLog) (t : Tm) (name : Text) (o : Os)
      → c.m_pos < u32
      → open_next c t name (localtime o).1 ≡ taken c t (answer c o name)
  unfolding open_next
  open_next-answer c t name o h =
      ap
        (λ (i : ℕ). taken c t (open_file (closed (at c.m_fd i) (localtime o).1) name append_create))
        (sym (other_is c h))

  open_next-Turn :
      (c : CLog) (name : Text) (o : Os)
      → IsReady c
      → next_filename c (localtime o).0 c.m_stratege_type ≡ some name
      → Turn c o (some (open_next c (localtime o).0 name (localtime o).1))
  open_next-Turn c name o r e =
      let t = (localtime o).0 in
      rw (open_next-answer c t name o r.position) (elim (Option-cases (answer c o name).0) [
        | inl none' ↦ record {
          made = failure;
          log = no_file c;
          os = (answer c o name).1;
          name = name;
          named = e;
          result = rw (none', taken) refl;
          calls = refl;
          outcome = inr (refl, none', no_file-NotRotated c r);
        }
        | inr (fd, opened) ↦ record {
          made = success;
          log = next_file c t fd;
          os = (answer c o name).1;
          name = name;
          named = e;
          result = rw (opened, taken) refl;
          calls = refl;
          outcome = inl (
            refl,
            at-put_self c.m_fd (following c) (some fd) ∙ sym opened,
            next_file-Rotated c t fd r,
          );
        }
      ])

  pub new_file-open_next :
      (c : CLog) (o : Os) (name : Text)
      → c.m_busy ≡ 0
      → next_filename c (localtime o).0 c.m_stratege_type ≡ some name
      → new_file c o ≡ some (open_next c (localtime o).0 name (localtime o).1)
  unfolding new_file
  new_file-open_next c o name b e = ground (arith, e)

  -- A call of `new_file` on a log that is at rest returns and leaves the log at rest: it closes the
  -- file of the slot that is not in use, if there is one, and then opens the file of the next name to
  -- append; the file in use before keeps its descriptor and its count. If the kernel opened the new
  -- file, it is in the other slot, in use, and its count is 0; if not, the file in use is the one that
  -- was.
  pub new_file-Turn : (c : CLog) (o : Os) → IsReady c → Turn c o (new_file c o)
  new_file-Turn c o r =
      let (name, e) = next_filename-some c (localtime o).0 c.m_stratege_type r.amount in
      rw (new_file-open_next c o name r.free e) (open_next-Turn c name o r e)

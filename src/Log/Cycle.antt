-- ===== src/Log/Cycle.antt =====
-- The numbered files of `new_file` (injectService/pulld/src/log/pure_log.cpp), where files change by
-- size.
use pull_stream.Base.{
  ℕ, zero, suc, ◌+◌, ◌%◌, ◌<◌, ◌≡◌, refl, ap, ◌∙◌, some, none, Option, Text, arith,
}
use native.Mathlib.Nat.{add-mod_right}
use pull_stream.External.{External, Tm}
use pull_stream.Log.{
  CLog, log_space, u32, Made, success, failure, no_file, next_file, next_filename,
}
use pull_stream.Log.Files.{open_next, new_file}
use pull_stream.Log.Rotation.{IsReady, next_filename-some, new_file-open_next}

-- Two states of a log between two changes of file: lines may have been written.
pub record SameFile (c d : CLog) : Type 0 where
  pub pos : d.m_pos ≡ c.m_pos
  pub busy : d.m_busy ≡ c.m_busy
  pub name : d.m_filename ≡ c.m_filename
  pub amount : d.m_amount_size ≡ c.m_amount_size
  pub stratege : d.m_stratege_type ≡ c.m_stratege_type

-- A change of file has happened.
record NextFile (c d : CLog) : Type 0 where
  pos : d.m_pos ≡ (c.m_pos + 1) % u32
  busy : d.m_busy ≡ c.m_busy
  name : d.m_filename ≡ c.m_filename
  amount : d.m_amount_size ≡ c.m_amount_size
  stratege : d.m_stratege_type ≡ c.m_stratege_type

module _ ⦃x : External⦄ where
  open x use {Os, localtime}

  -- `n` changes of file that succeed, with any number of lines in between.
  pub data Changes : ℕ → CLog → CLog → Type 0 where
    lines : {c d : CLog} → SameFile c d → Changes 0 c d
    change :
        {n : ℕ} {c e : CLog} (c' d : CLog) (o o' : Os)
        → SameFile c c'
        → new_file c' o ≡ some (success, d, o')
        → Changes n d e
        → Changes (suc n) c e

  open_next-NextFile :
      (c d : CLog) (t : Tm) (name : Text) (o o' : Os)
      → open_next c t name o ≡ (success, d, o')
      → NextFile c d
  unfolding open_next
  open_next-NextFile c d t name o o' e = go _ refl e
    where
      go :
          (p : Option ℕ × Os)
          → p ≡ p
          → elim p.0 as (λ _. Made × CLog × Os) [
            | none ↦ (failure, no_file c, p.1)
            | some fd ↦ (success, next_file c t fd, p.1)
          ]
            ≡ (success, d, o')
          → NextFile c d
      go (none, q) h k = absurd (ground arith)
      go (some fd, q) h k =
          let same : next_file c t fd ≡ d = ap (λ (r : Made × CLog × Os). r.1) k in
          rw (← same)
            (record { pos = refl; busy = refl; name = refl; amount = refl; stratege = refl })

  new_file-NextFile :
      (c d : CLog) (o o' : Os) → IsReady c → new_file c o ≡ some (success, d, o') → NextFile c d
  new_file-NextFile c d o o' r e =
      let (name, named) = next_filename-some c (localtime o).0 c.m_stratege_type r.amount in
      open_next-NextFile c d (localtime o).0 name (localtime o).1 o'
        (cc (new_file-open_next c o name r.free named, e))

  -- The position behind `n` changes, and the settings as they were.
  record Changed (n : ℕ) (c e : CLog) : Type 0 where
    pos : e.m_pos ≡ c.m_pos + n
    name : e.m_filename ≡ c.m_filename
    amount : e.m_amount_size ≡ c.m_amount_size
    stratege : e.m_stratege_type ≡ c.m_stratege_type
    ready : IsReady e

  SameFile-IsReady : (c d : CLog) → SameFile c d → IsReady c → IsReady d
  SameFile-IsReady c d s r = record {
    free = s.busy ∙ r.free;
    position = omega (arith, s.pos, r.position);
    amount = omega (arith, s.amount, r.amount);
  }

  Changes-Changed :
      (n : ℕ) {c e : CLog} → Changes n c e → IsReady c → c.m_pos + n < u32 → Changed n c e
  Changes-Changed zero {c} {e} (lines s) r h = record {
    pos = omega (arith, s.pos);
    name = s.name;
    amount = s.amount;
    stratege = s.stratege;
    ready = SameFile-IsReady c e s r;
  }
  Changes-Changed (suc n) {c} {e} (change c' d o o' s made rest) r h =
      let r' = SameFile-IsReady c c' s r in
      let k = new_file-NextFile c' d o o' r' made in
      let pos : d.m_pos ≡ c.m_pos + 1 = omega (arith, k.pos, s.pos) in
      let ready : IsReady d = record {
        free = k.busy ∙ r'.free;
        position = omega (arith, pos);
        amount = omega (arith, k.amount, r'.amount);
      } in
      let q = Changes-Changed n rest ready (omega (arith, pos)) in
      record {
        pos = omega (arith, q.pos, pos);
        name = q.name ∙ k.name ∙ s.name;
        amount = q.amount ∙ k.amount ∙ s.amount;
        stratege = q.stratege ∙ k.stratege ∙ s.stratege;
        ready = q.ready;
      }

  next_filename-Changed :
      (c e : CLog) (t t' : Tm)
      → Changed c.m_amount_size c e
      → c.m_stratege_type ≡ log_space
      → c.m_pos + c.m_amount_size + 1 < u32
      → next_filename e t' e.m_stratege_type ≡ next_filename c t c.m_stratege_type
  unfolding next_filename
  next_filename-Changed c e t t' k by_size h =
      let a = c.m_amount_size in
      let wrap : (c.m_pos + a + 1) % u32 ≡ c.m_pos + 1 + a = omega (arith, h) in
      let wrap' : (c.m_pos + 1) % u32 ≡ c.m_pos + 1 = omega (arith, h) in
      let turn = add-mod_right (c.m_pos + 1) a in
      rw (k.stratege, by_size, k.pos, k.amount, k.name, wrap, wrap', turn) refl

  -- On a log at rest that changes files by size, after as many changes that succeed as the log has
  -- numbers, with any lines in between and the position within `u32`, the next change opens the file
  -- of the name that the first one opened; it opens it to append.
  pub new_file-Changes :
      {c e : CLog} (o o' : Os)
      → IsReady c
      → c.m_stratege_type ≡ log_space
      → Changes c.m_amount_size c e
      → c.m_pos + c.m_amount_size + 1 < u32
      → (name : Text) × (new_file c o ≡ some (open_next c (localtime o).0 name (localtime o).1))
        × (new_file e o' ≡ some (open_next e (localtime o').0 name (localtime o').1))
  new_file-Changes {c} {e} o o' r by_size cs h =
      let k = Changes-Changed c.m_amount_size cs r (omega (arith, h)) in
      let (name, named) = next_filename-some c (localtime o).0 c.m_stratege_type r.amount in
      (
        name,
        new_file-open_next c o name r.free named,
        new_file-open_next e o' name k.ready.free
            (next_filename-Changed c e _ _ k by_size h ∙ named),
      )

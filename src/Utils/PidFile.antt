-- ===== src/Utils/PidFile.antt =====
-- The line of the pid file, written by `write_pid_to_file` and read by `get_pid_from_file`
-- (injectService/pull/src/utils/utils.cpp).
use pull_stream.Base.{
  append_assoc, ℕ, zero, suc, ◌+◌, ◌-◌, ◌*◌, ◌/◌, ◌%◌, ◌^◌, ◌≤◌, ◌<◌, pos, ◌≡◌, refl, ap, sym, ◌∙◌,
  [], ◌∷◌, ◌++◌, true, false, ◌==◌, some, Text, bytes, length, length-append, ltb, arith, decimal,
  digits_onto, Bool-cases, inl, inr,
}
use pull_stream.Common.{error_ok}
use pull_stream.External.{External, read_only}
use pull_stream.Ini.{atoi, is_digit, is_space}
use pull_stream.Ini.Numbers.{atoi-decimal, digits_onto-append, digits_onto-FirstDigit}
use pull_stream.PString.{padded}
use pull_stream.Utils.{pid_line, digits_end, number_ends, read_number, get_pid_from_file}
use pull_stream.World.{World, ret}

padded-longer : (m : ℕ) (t : Text) → length t ≤ m → padded m t ≡ t ++ padded (m - length t) []
unfolding padded
padded-longer zero [] h = refl
padded-longer zero (c ∷ t) h = absurd (omega arith)
padded-longer (suc m) [] h =
    let e : suc m ≡ suc m - length {A = ℕ} [] = omega arith in ap (λ (k : ℕ). padded k []) e
padded-longer (suc m) (c ∷ t) h =
    ap (λ (s : Text). c ∷ s) (padded-longer m t (omega arith))
    ∙ ap (λ (k : ℕ). c ∷ (t ++ padded k [])) (omega arith)

-- `10 ^ k`
abbrev ten_to : ℕ → ℕ
ten_to zero = 1
ten_to (suc k) = 10 * ten_to k

length-digits_onto :
    (fuel k n : ℕ) (rest : Text)
    → n < ten_to (suc k)
    → length (digits_onto fuel n rest) ≤ suc k + length rest
unfolding digits_onto
length-digits_onto zero k n rest h = omega arith
length-digits_onto (suc fuel) zero n rest h =
    let small : ltb n 10 ≡ true = ground (arith, h) in rw small (omega arith)
length-digits_onto (suc fuel) (suc k) n rest h = elim (Bool-cases (ltb n 10)) [
  | inl small ↦ rw small (omega arith)
  | inr large ↦ rw large (
      omega (arith, length-digits_onto fuel k (n / 10) ((b'0' + n % 10) ∷ rest) (omega (arith, h))))
]

length-decimal : (n : ℕ) → n < 2 ^ 31 → length (decimal n) ≤ 10
unfolding decimal
length-decimal n h = length-digits_onto (suc n) 9 n [] (omega (arith, h))

digits_end_digit : (d : ℕ) (s : Text) → d < 10 → digits_end ((b'0' + d) ∷ s) ≡ digits_end s
digits_end_digit d s h = let digit : is_digit (b'0' + d) ≡ true = ground arith in rw digit refl

digits_end-digits_onto :
    (fuel n : ℕ) (rest : Text) → n < fuel → digits_end (digits_onto fuel n rest) ≡ digits_end rest
unfolding digits_onto
digits_end-digits_onto zero n rest h = refl
digits_end-digits_onto (suc fuel) n rest h = elim (Bool-cases (ltb n 10)) [
  | inl small ↦ rw small (digits_end_digit n rest (ground arith))
  | inr large ↦
      let big : 10 ≤ n = ground arith in
      rw large (
        digits_end-digits_onto fuel (n / 10) ((b'0' + n % 10) ∷ rest) (omega (arith, big))
        ∙ digits_end_digit (n % 10) rest (omega arith))
]

number_ends_digit :
    (d : ℕ) (s : Text) → d < 10 → number_ends ((b'0' + d) ∷ s) ≡ digits_end ((b'0' + d) ∷ s)
number_ends_digit d s h =
    let no_space : is_space (b'0' + d) ≡ false = ground arith in
    let no_minus : ((b'0' + d) == b'-') ≡ false = ground arith in
    let no_plus : ((b'0' + d) == b'+') ≡ false = ground arith in
    rw (no_space, no_minus, no_plus) refl

number_ends-decimal :
    (n : ℕ) (rest : Text) → digits_end rest ≡ true → number_ends (decimal n ++ rest) ≡ true
unfolding decimal
number_ends-decimal n rest h =
    let f = digits_onto-FirstDigit (suc n) n rest (omega arith) in
    ap number_ends (digits_onto-append (suc n) n [] rest ∙ f.is)
    ∙ number_ends_digit f.digit f.behind f.below
    ∙ ap digits_end (sym f.is)
    ∙ digits_end-digits_onto (suc n) n rest (omega arith)
    ∙ h

-- The buffer behind a read of the line.
buffered :
    (n : ℕ)
    → n < 2 ^ 31
    → padded 64 (pid_line (pos n))
      ≡ decimal n ++ (b'\n' ∷ padded (64 - length (pid_line (pos n))) [])
unfolding bytes
buffered n h =
    padded-longer 64 (pid_line (pos n))
      (omega (arith, length-append (decimal n) (bytes "\n"), length-decimal n h))
    ∙ append_assoc (decimal n) (bytes "\n") (padded (64 - length (pid_line (pos n))) [])

module _ ⦃x : External⦄ where
  open x use {open_file, set_cloexec, read}

  read_number-pid_line :
      (n : ℕ) (w : World) → n < 2 ^ 31 → read_number (pid_line (pos n)) w ≡ (ret (pos n), w)
  read_number-pid_line n w h =
      let zeros = padded (64 - length (pid_line (pos n))) [] in
      let ends : number_ends (padded 64 (pid_line (pos n))) ≡ true =
        ap number_ends (buffered n h) ∙ number_ends-decimal n (b'\n' ∷ zeros) refl in
      let value : atoi (padded 64 (pid_line (pos n))) ≡ some (pos n) =
        ap atoi (buffered n h) ∙ atoi-decimal n (b'\n' ∷ zeros) h refl in
      rw (ends, value) refl

  -- Where the pid file can be opened and the read gives the line that `write_pid_to_file` writes for
  -- a pid that is not negative, `get_pid_from_file` succeeds and gives that pid.
  pub get_pid_from_file-pid_line :
      (file : Text) (w : World) (fd n : ℕ)
      → (open_file w.os file read_only).0 ≡ some fd
      → (read (set_cloexec (open_file w.os file read_only).1 fd).1 fd 64).0
        ≡ some (pid_line (pos n))
      → n < 2 ^ 31
      → (get_pid_from_file file w).0 ≡ ret (error_ok, some (pos n))
  unfolding get_pid_from_file
  get_pid_from_file-pid_line file w fd n opened got h = ground (
    arith,
    opened,
    got,
    read_number-pid_line n
        (record w { os = (read (set_cloexec (open_file w.os file read_only).1 fd).1 fd 64).1 }) h,
  )

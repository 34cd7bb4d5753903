-- ===== src/Ini/Numbers.antt =====
-- `atoi`, which `GetInt` calls (injectService/pull/src/config/iniReader.cpp), on decimal digits.
use pull_stream.Base.{
  ℕ, zero, suc, ◌+◌, ◌-◌, ◌*◌, ◌/◌, ◌%◌, ◌^◌, ◌≤◌, ◌<◌, pos, ◌≡◌, refl, ap, sym, ◌∙◌, [], ◌∷◌, ◌++◌,
  true, false, some, Text, ltb, ◌==◌, arith, decimal, digits_onto, Bool-cases, inl, inr,
}
use pull_stream.Ini.{number_from, atoi, is_digit, is_space}

-- A text that begins with no digit.
abbrev pub NoDigit : Text → Type 0
NoDigit [] = Unit
NoDigit (c ∷ s) = is_digit c ≡ false

number_from-NoDigit : (s : Text) (n : ℕ) → NoDigit s → number_from s n ≡ n
unfolding number_from
number_from-NoDigit [] n h = refl
number_from-NoDigit (c ∷ s) n h = rw h refl

number_from_digit :
    (d : ℕ) (s : Text) (n : ℕ)
    → d < 10
    → number_from ((b'0' + d) ∷ s) n ≡ number_from s (n * 10 + d)
unfolding number_from
number_from_digit d s n h =
    let digit : is_digit (b'0' + d) ≡ true = ground arith in
    let same : n * 10 + (b'0' + d - 48) ≡ n * 10 + d = omega arith in rw (digit, same) refl

-- The digits of a number, before any text, are read as that number.
number_from-digits_onto :
    (fuel n : ℕ) (rest : Text)
    → n < fuel
    → number_from (digits_onto fuel n rest) 0 ≡ number_from rest n
unfolding digits_onto
number_from-digits_onto zero n rest h = absurd (omega arith)
number_from-digits_onto (suc fuel) n rest h = elim (Bool-cases (ltb n 10)) [
  | inl small ↦
      rw small (
        number_from_digit n rest 0 (ground arith)
        ∙ ap (λ (m : ℕ). number_from rest m) (omega arith))
  | inr large ↦
      let big : 10 ≤ n = ground arith in
      rw large (
        number_from-digits_onto fuel (n / 10) ((b'0' + n % 10) ∷ rest) (omega (arith, big))
        ∙ number_from_digit (n % 10) rest (n / 10) (omega arith)
        ∙ ap (λ (m : ℕ). number_from rest m) (omega arith))
]

-- The first character is a digit.
pub record FirstDigit (t : Text) : Type 0 where
  pub digit : ℕ
  pub behind : Text
  pub below : digit < 10
  pub is : t ≡ (b'0' + digit) ∷ behind

pub digits_onto-FirstDigit :
    (fuel n : ℕ) (rest : Text) → n < fuel → FirstDigit (digits_onto fuel n rest)
unfolding digits_onto
digits_onto-FirstDigit zero n rest h = absurd (omega arith)
digits_onto-FirstDigit (suc fuel) n rest h = elim (Bool-cases (ltb n 10)) [
  | inl small ↦ rw small (record { digit = n; behind = rest; below = ground arith; is = refl })
  | inr large ↦
      let big : 10 ≤ n = ground arith in
      rw large (digits_onto-FirstDigit fuel (n / 10) ((b'0' + n % 10) ∷ rest) (omega (arith, big)))
]

pub digits_onto-append :
    (fuel n : ℕ) (rest more : Text)
    → digits_onto fuel n rest ++ more ≡ digits_onto fuel n (rest ++ more)
unfolding digits_onto
digits_onto-append zero n rest more = refl
digits_onto-append (suc fuel) n rest more = elim (Bool-cases (ltb n 10)) [
  | inl small ↦ rw small refl
  | inr large ↦ rw large (digits_onto-append fuel (n / 10) ((b'0' + n % 10) ∷ rest) more)
]

atoi_digit :
    (d : ℕ) (s : Text)
    → d < 10
    → number_from ((b'0' + d) ∷ s) 0 < 2 ^ 31
    → atoi ((b'0' + d) ∷ s) ≡ some (pos (number_from ((b'0' + d) ∷ s) 0))
unfolding atoi
atoi_digit d s h small =
    let no_space : is_space (b'0' + d) ≡ false = ground arith in
    let no_minus : ((b'0' + d) == b'-') ≡ false = ground arith in
    let no_plus : ((b'0' + d) == b'+') ≡ false = ground arith in
    let fits : ltb (number_from ((b'0' + d) ∷ s) 0) (2 ^ 31) ≡ true = ground (arith, small) in
    rw (no_space, no_minus, no_plus, fits) refl

-- The decimal digits of a number below 2 ^ 31, before a text that begins with no digit.
pub atoi-decimal :
    (n : ℕ) (rest : Text) → n < 2 ^ 31 → NoDigit rest → atoi (decimal n ++ rest) ≡ some (pos n)
unfolding decimal
atoi-decimal n rest h stop =
    let e = digits_onto-append (suc n) n [] rest in
    let f = digits_onto-FirstDigit (suc n) n rest (omega arith) in
    let v : number_from (digits_onto (suc n) n rest) 0 ≡ n =
      number_from-digits_onto (suc n) n rest (omega arith) ∙ number_from-NoDigit rest n stop in
    let v' : number_from ((b'0' + f.digit) ∷ f.behind) 0 ≡ n =
      ap (λ (t : Text). number_from t 0) (sym f.is) ∙ v in
    ap atoi (e ∙ f.is)
    ∙ atoi_digit f.digit f.behind f.below (omega (arith, v', h))
    ∙ ap (λ (m : ℕ). some (pos m)) v'

-- ===== src/PString/Numbers.antt =====
-- `p_atoof` (injectService/pulld/src/string/p_string.cpp) on decimal digits.
use pull_stream.Base.{
  ℕ, ◌+◌, ◌-◌, ◌*◌, ◌%◌, ◌^◌, ◌≤◌, ◌<◌, pos, ◌≡◌, [], ◌∷◌, false, ◌||◌, some, Text, length, ltb,
  arith,
}
use pull_stream.PString.{atoof_loop, p_atoof}

abbrev pub AllDigits : Text → Type 0
AllDigits [] = Unit
AllDigits (c ∷ s) = ((48 ≤ c) × (c ≤ 57)) × AllDigits s

-- The number that digits write, behind what `n` stands for.
abbrev pub number : Text → ℕ → ℕ
number [] n = n
number (c ∷ s) n = number s (n * 10 + (c - 48))

number-above : (s : Text) (n : ℕ) → n ≤ number s n
number-above [] n = omega arith
number-above (c ∷ s) n = omega (arith, number-above s (n * 10 + (c - 48)))

small : (v : ℕ) → v < 2 ^ 31 → v % 2 ^ 32 ≡ v
small v h = omega arith

atoof_loop-number :
    (s : Text) (n : ℕ)
    → AllDigits s
    → number s n < 2 ^ 31
    → atoof_loop s (length s) n ≡ some (pos (number s n))
unfolding atoof_loop
atoof_loop-number [] n d h = ground arith
atoof_loop-number (c ∷ s) n d h =
    let v = n * 10 + (c - 48) in
    let e = small v (omega (arith, number-above s v)) in
    let b : (ltb c 48 || ltb 57 c) ≡ false = ground arith in rw (b, e) (atoof_loop-number s v d.1 h)

-- On a line of digits that is not empty and writes a number below 2 ^ 31, `p_atoof` returns that
-- number.
pub p_atoof-number :
    (c : ℕ) (s : Text)
    → AllDigits (c ∷ s)
    → number (c ∷ s) 0 < 2 ^ 31
    → p_atoof (c ∷ s) (length (c ∷ s)) ≡ some (pos (number (c ∷ s) 0))
unfolding p_atoof
p_atoof-number c s d h = atoof_loop-number (c ∷ s) 0 d h

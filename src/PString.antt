-- ===== src/PString.antt =====
-- The string helpers of the watchdog (injectService/pulld/src/string/p_string.cpp), on buffers.

pub mod Copies
pub mod Numbers
use pull_stream.Base.{
  ℕ, zero, suc, ◌+◌, ◌-◌, ◌*◌, ◌%◌, ◌^◌, ℤ, pos, negsuc, Bool, true, false, ◌||◌, List, [], ◌∷◌,
  ◌++◌, Option, none, some, Text, c_str, length, take, drop, set, ltb, leb, is_negative,
  if◌then◌else◌, ◌>>=◌,
}

-- The `n` bytes that `strncpy` writes: those of the C string, then null bytes.
unfoldable pub padded : ℕ → Text → Text
padded zero src = []
padded (suc n) [] = 0 ∷ padded n []
padded (suc n) (c ∷ src) = c ∷ padded n src

-- `strncpy(dest, src, n)`: out of bounds it is `none`.
unfoldable pub strncpy : Text → Text → ℕ → Option Text
unfolding padded
strncpy dest src n =
    if leb n (length dest) then some (padded n (c_str src) ++ drop n dest) else none

-- `dest[i] = '\0'`
abbrev pub terminate : Text → ℕ → Option Text
terminate dest i = if ltb i (length dest) then some (set dest i 0) else none

abbrev pub copy : Text → Text → ℕ → Option Text
copy dest src n = do written ← strncpy dest src n; terminate written n

-- A negative size is a huge `size_t`: `none`.
unfoldable pub rc_strncpy : Text → ℤ → Text → ℤ → Option Text
unfolding strncpy
rc_strncpy dest (pos (suc room)) src (pos s_l) =
    if ltb s_l room then copy dest src s_l else copy dest src room
rc_strncpy dest _ src _ = none

abbrev counted : Option Text → ℕ → Option (ℕ × Text)
counted none n = none
counted (some dest) n = some (n, dest)

unfoldable pub rn_strncpy : Text → ℤ → Text → ℤ → Option (ℕ × Text)
unfolding strncpy
rn_strncpy dest (pos (suc room)) src (pos zero) =
    if ltb 0 room then none else counted (copy dest src room) room
rn_strncpy dest (pos (suc room)) src (pos (suc s)) =
    if ltb (suc s) room then counted (copy dest src s) s else counted (copy dest src room) room
rn_strncpy dest _ src _ = none

-- `rn_snprintf`, on what `vsnprintf` returns.
abbrev pub less_ℤ : ℤ → ℤ → Bool
less_ℤ (pos a) (pos b) = ltb a b
less_ℤ (pos a) (negsuc b) = false
less_ℤ (negsuc a) (pos b) = true
less_ℤ (negsuc a) (negsuc b) = ltb b a

unfoldable pub rn_snprintf : ℤ → ℤ → ℤ
rn_snprintf n cnt = if is_negative cnt then cnt else if less_ℤ cnt n then cnt else n

-- The loop of `p_atoof`, with the `int` kept modulo 2 ^ 32; reading past the buffer is `none`.
pub atoof_loop : Text → ℕ → ℕ → Option ℤ
atoof_loop line zero value = if leb (2 ^ 31) value then some (negsuc 0) else some (pos value)
atoof_loop [] (suc n) value = none
atoof_loop (c ∷ line) (suc n) value =
    let rest = atoof_loop line n ((value * 10 + (c - 48)) % 2 ^ 32) in
    if ltb c 48 || ltb 57 c then some (negsuc 0) else rest

unfoldable pub p_atoof : Text → ℕ → Option ℤ
unfolding atoof_loop
p_atoof line zero = some (negsuc 0)
p_atoof line (suc n) = atoof_loop line (suc n) 0

-- ===== src/PString/Copies.antt =====
-- The copies into buffers of injectService/pulld/src/string/p_string.cpp.
use pull_stream.Base.{
  ℕ, zero, suc, ◌-◌, ◌<◌, pos, ◌≡◌, refl, ap, [], ◌∷◌, ◌++◌, true, false, Option, some, Text, c_str,
  length, length-set, length-append, take, drop, set, min, ltb, arith, dec_lt,
}
use pull_stream.PString.{padded, strncpy, copy, rc_strncpy}

pub length-padded : (n : ℕ) (t : Text) → length (padded n t) ≡ n
unfolding padded
length-padded zero t = refl
length-padded (suc n) [] = ap suc (length-padded n [])
length-padded (suc n) (c ∷ t) = ap suc (length-padded n t)

pub length-drop : (n : ℕ) (s : Text) → length (drop n s) ≡ length s - n
length-drop zero s = omega arith
length-drop (suc n) [] = omega arith
length-drop (suc n) (c ∷ s) = omega (arith, length-drop n s)

-- The buffer after `strncpy` and the null byte behind it.
abbrev pub copied : Text → Text → ℕ → Text
copied dest src n = set (padded n (c_str src) ++ drop n dest) n 0

pub length-copied :
    (dest src : Text) (n : ℕ) → n < length dest → length (copied dest src n) ≡ length dest
length-copied dest src n h = omega (
  arith,
  length-set (padded n (c_str src) ++ drop n dest) n 0,
  length-append (padded n (c_str src)) (drop n dest),
  length-padded n (c_str src),
  length-drop n dest,
)

pub copy-copied :
    (dest src : Text) (n : ℕ) → n < length dest → copy dest src n ≡ some (copied dest src n)
unfolding strncpy
copy-copied dest src n h =
    let l : length (padded n (c_str src) ++ drop n dest) ≡ length dest = omega (
      arith,
      length-append (padded n (c_str src)) (drop n dest),
      length-padded n (c_str src),
      length-drop n dest,
    ) in
    ground arith

pub c_str-copied :
    (dest src : Text) (n : ℕ) → n < length dest → c_str (copied dest src n) ≡ take n (c_str src)
unfolding c_str padded
c_str-copied [] src n h = elim h [ ]
c_str-copied (d ∷ dest) src zero h = refl
c_str-copied (d ∷ dest) [] (suc n) h = refl
c_str-copied (d ∷ dest) (zero ∷ src) (suc n) h = refl
c_str-copied (d ∷ dest) (suc c ∷ src) (suc n) h =
    ap (λ (t : Text). suc c ∷ t) (c_str-copied dest src n (omega arith))

-- What a copy leaves in a buffer: a C string of at most `n` of the source's characters, in a buffer
-- of the same size.
pub record Copied (dest src : Text) (n : ℕ) (r : Option Text) : Type 0 where
  pub buffer : Text
  pub done : r ≡ some buffer
  pub size : length buffer ≡ length dest
  pub content : c_str buffer ≡ take n (c_str src)

copy-Copied : (dest src : Text) (n : ℕ) → n < length dest → Copied dest src n (copy dest src n)
copy-Copied dest src n h = record {
  buffer = copied dest src n;
  done = copy-copied dest src n h;
  size = length-copied dest src n h;
  content = c_str-copied dest src n h;
}

-- With a buffer of `d_l` bytes and a limit that is not negative, `rc_strncpy` writes inside the
-- buffer, and leaves there the C string of the source's first characters: as many as the limit
-- allows, and one less than `d_l` at most.
pub rc_strncpy_lem :
    (dest src : Text) (room s_l : ℕ)
    → length dest ≡ suc room
    → Copied dest src (min s_l room) (rc_strncpy dest (pos (suc room)) src (pos s_l))
unfolding rc_strncpy
rc_strncpy_lem dest src room s_l e = elim (dec_lt s_l room) [
  | yes lt ↦
      let m : min s_l room ≡ s_l = omega arith in
      let b : ltb s_l room ≡ true = ground arith in
      rw (b, m) (copy-Copied dest src s_l (omega arith))
  | no ge ↦
      let m : min s_l room ≡ room = omega arith in
      let b : ltb s_l room ≡ false = ground arith in
      rw (b, m) (copy-Copied dest src room (omega arith))
]

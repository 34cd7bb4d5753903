-- ===== src/Paths/Folder.antt =====
-- The last slash of a path, and the folder before it (`CUtils::get_cur_path` of
-- injectService/pull/src/utils/utils.cpp).
use pull_stream.Base.{
  negsuc, dec_lt, ℕ, zero, suc, ◌+◌, ◌<◌, ◌≤◌, pos, ◌≡◌, refl, ap, ◌∙◌, [], ◌∷◌, ◌++◌, false,
  Option, none, some, Text, length, length-append, null, drop, c_str, ltb, ◌==◌, arith,
  if◌then◌else◌, Bool-cases, inl, inr, ◌≢◌,
}
use pull_stream.Ini.{index_of}
use pull_stream.PString.{strncpy, padded}
use pull_stream.Paths.{slash_loop, last_slash, get_cur_path}

-- No character of a text is a slash.
abbrev pub NoSlash : Text → Type 0
NoSlash [] = Unit
NoSlash (c ∷ s) = (c ≢ b'/') × NoSlash s

index_of-NoSlash : (name : Text) → NoSlash name → index_of b'/' name ≡ none
unfolding index_of
index_of-NoSlash [] h = refl
index_of-NoSlash (c ∷ name) h = ground (arith, index_of-NoSlash name h.1)

-- The first slash of a text that has one.
index_of_found :
    (dir name : Text) → (i : ℕ) × (index_of b'/' (dir ++ (b'/' ∷ name)) ≡ some i) × (i ≤ length dir)
unfolding index_of
index_of_found [] name = (0, refl, omega arith)
index_of_found (c ∷ dir) name =
    let (i, e, h) = index_of_found dir name in
    elim (Bool-cases (c == b'/')) [
      | inl here ↦ (0, rw here, omega arith)
      | inr there ↦ (suc i, rw (there, e), omega arith)
    ]

drop_within :
    (i : ℕ) (dir rest : Text)
    → i < length dir
    → drop (suc i) (dir ++ rest) ≡ drop (suc i) dir ++ rest
drop_within i [] rest h = elim h [ ]
drop_within zero (c ∷ dir) rest h = refl
drop_within (suc i) (c ∷ dir) rest h = drop_within i dir rest (omega arith)

drop_all : (dir name : Text) (c : ℕ) → drop (suc (length dir)) (dir ++ (c ∷ name)) ≡ name
drop_all [] name c = refl
drop_all (d ∷ dir) name c = drop_all dir name c

length-drop_within :
    (i : ℕ) (dir : Text) → i < length dir → length (drop (suc i) dir) + suc i ≡ length dir
length-drop_within i [] h = elim h [ ]
length-drop_within zero (c ∷ dir) h = omega arith
length-drop_within (suc i) (c ∷ dir) h = omega (arith, length-drop_within i dir (omega arith))

slash_loop-NoSlash :
    (fuel : ℕ) (name : Text) (from : ℕ) (last : Option ℕ)
    → NoSlash name
    → slash_loop fuel name from last ≡ last
unfolding slash_loop
slash_loop-NoSlash zero name from last h = refl
slash_loop-NoSlash (suc fuel) name from last h = ground (arith, index_of-NoSlash name h)

null-append : (dir name : Text) (c : ℕ) → null (dir ++ (c ∷ name)) ≡ false
null-append [] name c = refl
null-append (d ∷ dir) name c = refl

-- One round of the loop, where the slash is the last, and where it is not.
slash_round :
    (fuel : ℕ) (rest behind : Text) (from i : ℕ) (last : Option ℕ)
    → index_of b'/' rest ≡ some i
    → drop (suc i) rest ≡ behind
    → null behind ≡ false
    → slash_loop (suc fuel) rest from last ≡ slash_loop fuel behind (from + suc i) (some (from + i))
unfolding slash_loop
slash_round fuel rest behind from i last e d n =
    rw (e, slash_loop)
      (rw (d, n, slash_loop)
        (ap (λ (t : Text). slash_loop fuel t (from + suc i) (some (from + i))) d))

slash_last :
    (fuel : ℕ) (rest name : Text) (from i : ℕ) (last : Option ℕ)
    → index_of b'/' rest ≡ some i
    → drop (suc i) rest ≡ name
    → NoSlash name
    → slash_loop (suc fuel) rest from last ≡ some (from + i)
unfolding slash_loop
slash_last fuel rest [] from i last e d h = rw (e, slash_loop) (rw (d, slash_loop))
slash_last fuel rest (c ∷ name) from i last e d h =
    rw (e, slash_loop)
      (rw (d, slash_loop)
        (ap (λ (t : Text). slash_loop fuel t (from + suc i) (some (from + i))) d
          ∙ slash_loop-NoSlash fuel (c ∷ name) (from + suc i) (some (from + i)) h))

slash_loop_lem :
    (fuel : ℕ) (dir name : Text) (from : ℕ) (last : Option ℕ)
    → NoSlash name
    → length dir < fuel
    → slash_loop fuel (dir ++ (b'/' ∷ name)) from last ≡ some (from + length dir)
slash_loop_lem zero dir name from last h short = absurd (omega arith)
slash_loop_lem (suc fuel) dir name from last h short =
    let (i, e, le) = index_of_found dir name in
    elim (dec_lt i (length dir)) [
      | yes lt ↦
          slash_round fuel _ (drop (suc i) dir ++ (b'/' ∷ name)) from i last e
            (drop_within i dir (b'/' ∷ name) lt) (null-append (drop (suc i) dir) name b'/')
          ∙ slash_loop_lem fuel (drop (suc i) dir) name (from + suc i) (some (from + i)) h
              (omega (arith, length-drop_within i dir lt))
          ∙ ap some (omega (arith, length-drop_within i dir lt))
      | no ge ↦
          let same : i ≡ length dir = omega arith in
          slash_last fuel _ name from i last e (rw same (drop_all dir name b'/')) h
          ∙ ap (λ (k : ℕ). some (from + k)) same
    ]

-- The position of the last slash, where there is one.
pub last_slash_lem :
    (dir name : Text) → NoSlash name → last_slash (dir ++ (b'/' ∷ name)) ≡ some (length dir)
unfolding last_slash
last_slash_lem dir name h =
    slash_loop_lem (suc (length (dir ++ (b'/' ∷ name)))) dir name 0 none h
      (omega (arith, length-append dir (b'/' ∷ name)))
    ∙ ap some (omega arith)

-- The `n` first bytes of a C string, all of them there.
padded-append :
    (dir rest : Text) → c_str dir ≡ dir → padded (length dir) (c_str (dir ++ rest)) ≡ dir
unfolding padded c_str
padded-append [] rest h = refl
padded-append (zero ∷ dir) rest h = cc
padded-append (suc c ∷ dir) rest h =
    ap (λ (t : Text). suc c ∷ t) (padded-append dir rest (ap tail h))
  where
    tail : Text → Text
    tail [] = []
    tail (c ∷ s) = s

-- For a path `dir/name` the service's function succeeds, and writes `dir` at the start of the
-- buffer, whose other bytes stay, if `dir` is shorter than the buffer; else it returns -1 and writes
-- nothing.
pub get_cur_path_lem :
    (dir name o_path : Text) (i_l : ℕ)
    → NoSlash name
    → c_str dir ≡ dir
    → length o_path ≡ i_l
    → get_cur_path (dir ++ (b'/' ∷ name)) o_path i_l
      ≡ some (
          if ltb (length dir) i_l
          then (pos 0, dir ++ drop (length dir) o_path)
          else (negsuc 0, o_path))
unfolding get_cur_path strncpy
get_cur_path_lem dir name o_path i_l h plain room = elim (dec_lt (length dir) i_l) [
  | yes lt ↦ ground (arith, last_slash_lem dir name h, padded-append dir (b'/' ∷ name) plain)
  | no ge ↦ ground (arith, last_slash_lem dir name h)
]

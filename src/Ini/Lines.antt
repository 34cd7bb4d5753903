-- ===== src/Ini/Lines.antt =====
-- One line, in the loop of `Load` (injectService/pull/src/config/iniReader.cpp).
use pull_stream.Base.{
  ℕ, zero, suc, ◌<◌, ◌≡◌, ◌≢◌, refl, ap, ◌∙◌, [], ◌∷◌, ◌++◌, true, none, some, Text, c_str, length,
  take, drop, arith, ◌==◌, ◌>>=◌, append-nil,
}
use pull_stream.Ini.{
  assign, fgets, index_of, erase, erase_first, Loading, flush, load_section, load_setting,
  load_clean, load_line, load_lines,
}

-- A character does not occur in a text.
abbrev pub Lacks : ℕ → Text → Type 0
Lacks c [] = Unit
Lacks c (d ∷ s) = (d ≢ c) × Lacks c s

pub Lacks-append : (c : ℕ) (a b : Text) → Lacks c a → Lacks c b → Lacks c (a ++ b)
Lacks-append c [] b h k = k
Lacks-append c (d ∷ a) b h k = (h.0, Lacks-append c a b h.1 k)

index_of-Lacks : (c : ℕ) (s : Text) → Lacks c s → index_of c s ≡ none
unfolding index_of
index_of-Lacks c [] h = refl
index_of-Lacks c (d ∷ s) h = ground (arith, h.0, index_of-Lacks c s h.1)

index_of-append : (c : ℕ) (a b : Text) → Lacks c a → index_of c (a ++ (c ∷ b)) ≡ some (length a)
unfolding index_of
index_of-append c [] b h = let e : (c == c) ≡ true = ground arith in rw e refl
index_of-append c (d ∷ a) b h = ground (arith, h.0, index_of-append c a b h.1)

take-append : (a b : Text) → take (length a) (a ++ b) ≡ a
take-append [] b = refl
take-append (c ∷ a) b = ap (λ (s : Text). c ∷ s) (take-append a b)

drop-append : (a b : Text) (c : ℕ) → drop (suc (length a)) (a ++ (c ∷ b)) ≡ b
drop-append [] b c = refl
drop-append (d ∷ a) b c = drop-append a b c

erase-append : (a b : Text) (c : ℕ) → erase (length a) (a ++ (c ∷ b)) ≡ a ++ b
erase-append a b c = rw (take-append a (c ∷ b), drop-append a b c) refl

c_str-Lacks : (s : Text) → Lacks 0 s → c_str s ≡ s
unfolding c_str
c_str-Lacks [] h = refl
c_str-Lacks (zero ∷ s) h = absurd (h.0 refl)
c_str-Lacks (suc c ∷ s) h = ap (λ (t : Text). suc c ∷ t) (c_str-Lacks s h.1)

erase_first-Lacks : (c : ℕ) (s : Text) → Lacks c s → erase_first c s ≡ s
unfolding erase_first
erase_first-Lacks c s h = rw (index_of-Lacks c s h, erase_first) refl

erase_first-append : (c : ℕ) (s : Text) → Lacks c s → erase_first c (s ++ (c ∷ [])) ≡ s
unfolding erase_first
erase_first-append c s h =
    rw (index_of-append c s [] h, erase_first) (erase-append s [] c ∙ append-nil s)

-- A text with no null byte, no end of a line and no opening bracket.
pub record IsPlain (s : Text) : Type 0 where
  pub null : Lacks 0 s
  pub newline : Lacks b'\n' s
  pub return' : Lacks b'\r' s
  pub bracket : Lacks b'[' s

fgets-append :
    (room : ℕ) (line rest : Text)
    → Lacks b'\n' line
    → length line < room
    → fgets room (line ++ (b'\n' ∷ rest)) ≡ (line ++ (b'\n' ∷ []), rest)
unfolding fgets
fgets-append zero line rest h l = absurd (omega arith)
fgets-append (suc room) [] rest h l = refl
fgets-append (suc room) (c ∷ line) rest h l =
    ground (arith, h.0, fgets-append room line rest h.1 (omega arith))

-- The loop's round on a line of fewer than 255 characters.
pub load_lines-line :
    (fuel : ℕ) (line rest : Text) (st : Loading)
    → Lacks b'\n' line
    → length line < 255
    → load_lines (suc fuel) (line ++ (b'\n' ∷ rest)) st
      ≡ (load_line (line ++ (b'\n' ∷ [])) st >>= load_lines fuel rest)
unfolding load_lines
load_lines-line fuel [] rest st h l = rw (fgets-append 255 [] rest h l) refl
load_lines-line fuel (c ∷ line) rest st h l = rw (fgets-append 255 (c ∷ line) rest h l) refl

load_line_clean :
    (line : Text) (st : Loading)
    → Lacks 0 line
    → Lacks b'\n' line
    → Lacks b'\r' line
    → load_line (line ++ (b'\n' ∷ [])) st ≡ load_clean line st
unfolding load_line
load_line_clean line st z n r =
    let e : c_str (line ++ (b'\n' ∷ [])) ≡ line ++ (b'\n' ∷ []) =
      c_str-Lacks (line ++ (b'\n' ∷ []))
        (Lacks-append 0 line (b'\n' ∷ []) z ((λ q. omega arith), tt)) in
    rw (e, erase_first-append b'\n' line n, erase_first-Lacks b'\r' line r) refl

-- A setting's line.
pub load_line_setting :
    (k v : Text) (st : Loading)
    → IsPlain k
    → Lacks b'=' k
    → IsPlain v
    → load_line ((k ++ (b'=' ∷ v)) ++ (b'\n' ∷ [])) st
      ≡ some (record st { last_map = assign st.last_map k v })
unfolding load_clean load_setting
load_line_setting k v st pk ek pv =
    let line = k ++ (b'=' ∷ v) in
    let bracket : index_of b'[' line ≡ none =
      index_of-Lacks b'[' line
        (Lacks-append b'[' k (b'=' ∷ v) pk.bracket ((λ q. omega arith), pv.bracket)) in
    load_line_clean line st (Lacks-append 0 k (b'=' ∷ v) pk.null ((λ q. omega arith), pv.null))
      (Lacks-append b'\n' k (b'=' ∷ v) pk.newline ((λ q. omega arith), pv.newline))
      (Lacks-append b'\r' k (b'=' ∷ v) pk.return' ((λ q. omega arith), pv.return'))
    ∙ ground (
      arith,
      bracket,
      index_of-append b'=' k v ek,
      take-append k (b'=' ∷ v),
      drop-append k v b'=',
    )

-- A section's line.
pub load_line_section :
    (name : Text) (st : Loading)
    → IsPlain name
    → Lacks b']' name
    → load_line ((b'[' ∷ (name ++ (b']' ∷ []))) ++ (b'\n' ∷ [])) st
      ≡ some (record { m_map = flush st; last_main_key = name; last_map = [] })
unfolding load_clean load_section
load_line_section name st p right =
    let line = b'[' ∷ (name ++ (b']' ∷ [])) in
    let l : index_of b'[' line ≡ some 0 = index_of-append b'[' [] (name ++ (b']' ∷ [])) tt in
    let r : index_of b']' line ≡ some (suc (length name)) =
      index_of-append b']' (b'[' ∷ name) [] ((λ q. omega arith), right) in
    load_line_clean line st
      ((λ q. omega arith), Lacks-append 0 name (b']' ∷ []) p.null ((λ q. omega arith), tt))
      ((λ q. omega arith), Lacks-append b'\n' name (b']' ∷ []) p.newline ((λ q. omega arith), tt))
      ((λ q. omega arith), Lacks-append b'\r' name (b']' ∷ []) p.return' ((λ q. omega arith), tt))
    ∙ ground (arith, l, r, erase-append name [] b']', append-nil name)

-- ===== src/Ini/Bounds.antt =====
-- The buffer `m_szKey` that `GetKey` copies a value into (injectService/pull/src/config/iniReader.cpp).
use pull_stream.Base.{
  ℕ, zero, suc, ◌≤◌, ◌<◌, ◌≡◌, List, [], ◌∷◌, Option, none, some, Text, text_eq, c_str, length,
  take, drop, arith, ◌==◌, ◌>>=◌, Option-cases, inl, inr, Bool-cases,
}
use pull_stream.Ini.{
  configlen, KeyMap, MainKeyMap, assign, lookup, fgets, index_of, erase, erase_first, Loading,
  flush, load_section, load_setting, load_clean, load_line, load_lines, Loaded, ini_success, loaded,
  load, section_added, get_key, get_str,
}

-- Every entry of a map satisfies a predicate.
abbrev pub Every : {A : Type 0} → (A → Type 0) → List (Text × A) → Type 0
Every P [] = Unit
Every P ((k, a) ∷ m) = P a × Every P m

Every-assign :
    {A : Type 0} (P : A → Type 0) (m : List (Text × A)) (key : Text) (v : A)
    → Every P m
    → P v
    → Every P (assign m key v)
unfolding assign
Every-assign P [] key v h p = (p, tt)
Every-assign P ((k, a) ∷ m) key v h p = elim (Bool-cases (text_eq k key)) [
  | inl e ↦ rw e (p, h.1)
  | inr e ↦ rw e (h.0, Every-assign P m key v h.1 p)
]

Every-lookup :
    {A : Type 0} (P : A → Type 0) (m : List (Text × A)) (default : A) (key : Text)
    → Every P m
    → P default
    → P (lookup default m key)
unfolding lookup
Every-lookup P [] default key h p = p
Every-lookup P ((k, a) ∷ m) default key h p = elim (Bool-cases (text_eq k key)) [
  | inl e ↦ rw e h.0
  | inr e ↦ rw e (Every-lookup P m default key h.1 p)
]

fgets_room : (room : ℕ) (file : Text) → length (fgets room file).0 ≤ room
unfolding fgets
fgets_room zero file = omega arith
fgets_room (suc room) [] = omega arith
fgets_room (suc room) (c ∷ file) = elim (Bool-cases (c == b'\n')) [
  | inl e ↦ rw e (omega arith)
  | inr e ↦ rw e (omega (arith, fgets_room room file))
]

length-c_str : (s : Text) → length (c_str s) ≤ length s
unfolding c_str
length-c_str [] = omega arith
length-c_str (zero ∷ s) = omega arith
length-c_str (suc c ∷ s) = omega (arith, length-c_str s)

length-drop : (n : ℕ) (s : Text) → length (drop n s) ≤ length s
length-drop zero s = omega arith
length-drop (suc n) [] = omega arith
length-drop (suc n) (c ∷ s) = omega (arith, length-drop n s)

length-erase : (i : ℕ) (s : Text) → length (erase i s) ≤ length s
length-erase zero [] = omega arith
length-erase zero (c ∷ s) = omega arith
length-erase (suc i) [] = omega arith
length-erase (suc i) (c ∷ s) = omega (arith, length-erase i s)

length-erase_first : (c : ℕ) (s : Text) → length (erase_first c s) ≤ length s
unfolding erase_first
length-erase_first c s = elim (Option-cases (index_of c s)) [
  | inl e ↦ rw (e, erase_first) (omega arith)
  | inr (i, e) ↦ rw (e, erase_first) (length-erase i s)
]

abbrev Short : Text → Type 0
Short v = length v < configlen

abbrev ShortMap : KeyMap → Type 0
ShortMap = Every Short

-- Every value that has been read, in the map or not yet, is short.
pub record IsShort (st : Loading) : Type 0 where
  pub map : Every ShortMap st.m_map
  pub last : ShortMap st.last_map

-- What a step gives, if it gives something.
abbrev Holds : Option Loading → Type 0
Holds none = Unit
Holds (some st) = IsShort st

flush-short : (st : Loading) → IsShort st → Every ShortMap (flush st)
unfolding flush
flush-short st h = Every-assign ShortMap st.m_map st.last_main_key st.last_map h.map h.last

load_setting-IsShort :
    (line : Text) (st : Loading) → Short line → IsShort st → IsShort (load_setting line st)
unfolding load_setting
load_setting-IsShort line st s h = elim (Option-cases (index_of b'=' line)) [
  | inl e ↦ rw (e, load_setting) h
  | inr (i, e) ↦
      rw (e, load_setting)
        (record {
          map = h.map;
          last =
              Every-assign Short st.last_map (take i line) (drop (suc i) line) h.last
                (omega (arith, length-drop (suc i) line));
        })
]

load_section-IsShort :
    (line : Text) (left right : ℕ) (st : Loading)
    → IsShort st
    → Holds (load_section line left right st)
unfolding load_section
load_section-IsShort line left zero st h = tt
load_section-IsShort line left (suc right) st h = record { map = flush-short st h; last = tt }

load_clean-IsShort :
    (line : Text) (st : Loading) → Short line → IsShort st → Holds (load_clean line st)
unfolding load_clean
load_clean-IsShort line st s h = elim (Option-cases (index_of b'[' line)) [
  | inl e ↦ rw (e, load_clean) (load_setting-IsShort line st s h)
  | inr (left, e) ↦ elim (Option-cases (index_of b']' line)) [
    | inl e' ↦ rw (e, e', load_clean) (load_setting-IsShort line st s h)
    | inr (right, e') ↦ rw (e, e', load_clean) (load_section-IsShort line left right st h)
  ]
]

load_line-IsShort :
    (read : Text) (st : Loading) → length read ≤ 255 → IsShort st → Holds (load_line read st)
unfolding load_line
load_line-IsShort read st s h =
    load_clean-IsShort (erase_first b'\r' (erase_first b'\n' (c_str read))) st
      (omega (
        arith,
        length-erase_first b'\r' (erase_first b'\n' (c_str read)),
        length-erase_first b'\n' (c_str read),
        length-c_str read,
      ))
      h

Holds-bind :
    (o : Option Loading) (f : Loading → Option Loading)
    → Holds o
    → ((st : Loading) → IsShort st → Holds (f st))
    → Holds (o >>= f)
Holds-bind none f h k = tt
Holds-bind (some st) f h k = k st h

load_lines-IsShort :
    (fuel : ℕ) (file : Text) (st : Loading) → IsShort st → Holds (load_lines fuel file st)
unfolding load_lines
load_lines-IsShort zero file st h = h
load_lines-IsShort (suc fuel) [] st h = h
load_lines-IsShort (suc fuel) (c ∷ file) st h =
    Holds-bind (load_line (fgets 255 (c ∷ file)).0 st) _
      (load_line-IsShort (fgets 255 (c ∷ file)).0 st (fgets_room 255 (c ∷ file)) h)
      (λ st' h'. load_lines-IsShort fuel (fgets 255 (c ∷ file)).1 st' h')

-- What `Load` gives, if it gives a map.
abbrev ShortLoaded : Loaded → Type 0
ShortLoaded (ini_success m) = Every ShortMap m
ShortLoaded _ = Unit

loaded-short : (o : Option Loading) → Holds o → ShortLoaded (loaded o)
loaded-short none h = tt
loaded-short (some st) h = flush-short st h

load-short : (file : Option Text) → ShortLoaded (load file)
unfolding load
load-short none = tt
load-short (some file) =
    loaded-short (load_lines (length file) file _)
      (load_lines-IsShort (length file) file _ (record { map = tt; last = tt }))

get_key-short :
    (m : MainKeyMap) (attr key : Text)
    → Every ShortMap m
    → get_key m attr key ≡ some (c_str (lookup [] (lookup [] m attr) key), section_added m attr)
unfolding get_key
get_key-short m attr key h =
    let short : Short (lookup [] (lookup [] m attr) key) =
      Every-lookup Short (lookup [] m attr) [] key (Every-lookup ShortMap m [] attr h tt)
        (omega arith) in
    let s = length-c_str (lookup [] (lookup [] m attr) key) in ground arith

-- Whatever is in the file, after a `Load` that succeeds every `GetStr` copies its value into
-- `m_szKey` in bounds: it gives the value of the setting, up to its first null byte, which is the
-- empty text if there is no such setting.
pub get_str-load :
    (file : Option Text) (m : MainKeyMap) (attr key : Text)
    → load file ≡ ini_success m
    → get_str m attr key ≡ some (c_str (lookup [] (lookup [] m attr) key), section_added m attr)
unfolding get_str
get_str-load file m attr key e = get_key-short m attr key (rw e at (load-short file))

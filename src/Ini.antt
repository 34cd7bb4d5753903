-- ===== src/Ini.antt =====
-- `CIniReader` (injectService/pull/src/config/iniReader.cpp), which reads the service's settings. A
-- `std::map` is an association list: nothing walks through one.

pub mod Loops
pub mod Pieces
pub mod Bounds
pub mod Numbers
pub mod Lines
pub mod Printed
use pull_stream.Base.{
  ℕ, zero, suc, ◌+◌, ◌-◌, ◌*◌, ◌^◌, ℤ, pos, negsuc, Bool, true, false, ◌&&◌, ◌||◌, List, [], ◌∷◌,
  ◌++◌, Option, none, some, Text, bytes, c_str, text_eq, length, take, drop, ltb, leb, ◌==◌,
  if◌then◌else◌, ◌>>=◌,
}

-- `CONFIGLEN`
abbrev pub configlen : ℕ
configlen = 256

abbrev pub KeyMap : Type 0
KeyMap = List (Text × Text)

abbrev pub MainKeyMap : Type 0
MainKeyMap = List (Text × KeyMap)

-- `map[key] = v`
unfoldable pub assign : {A : Type 0} → List (Text × A) → Text → A → List (Text × A)
assign [] key v = (key, v) ∷ []
assign ((k, a) ∷ m) key v =
    let rest = assign m key v in if text_eq k key then (k, v) ∷ m else (k, a) ∷ rest

-- `map[key]`, read: a missing key gets the default value.
unfoldable pub lookup : {A : Type 0} → A → List (Text × A) → Text → A
lookup default [] key = default
lookup default ((k, a) ∷ m) key =
    let rest = lookup default m key in if text_eq k key then a else rest

-- `fgets` with room for so many characters: what is read, and the rest of the file.
unfoldable pub fgets : ℕ → Text → Text × Text
fgets zero file = ([], file)
fgets (suc room) [] = ([], [])
fgets (suc room) (c ∷ file) =
    let (line, rest) = fgets room file in if c == b'\n' then (c ∷ [], file) else (c ∷ line, rest)

-- `find` of one character; `npos` is `none`.
unfoldable pub index_of : ℕ → Text → Option ℕ
index_of c [] = none
index_of c (d ∷ s) =
    let rest = index_of c s in
    if d == c then some 0 else elim rest [ none ↦ none | some i ↦ some (suc i) ]

-- `s.erase(i, 1)` with a position in the string.
abbrev pub erase : ℕ → Text → Text
erase i s = take i s ++ drop (suc i) s

-- The blocks `if(string::npos != nLeftPos) szLine.erase(nLeftPos, 1)`.
unfoldable pub erase_first : ℕ → Text → Text
erase_first c s = elim (index_of c s) [ none ↦ s | some i ↦ erase i s ]

-- `m_Map`, `szLastMainKey` and `mLastMap`.
pub record Loading : Type 0 where
  pub m_map : MainKeyMap
  pub last_main_key : Text
  pub last_map : KeyMap

unfoldable pub flush : Loading → MainKeyMap
flush st = assign st.m_map st.last_main_key st.last_map

-- A section's line: `nRightPos` counts from behind the erased bracket, and `erase` of position -1
-- throws, which nothing catches: `none`.
unfoldable pub load_section : Text → ℕ → ℕ → Loading → Option Loading
load_section line left zero st = none
load_section line left (suc right) st =
    some (record { m_map = flush st; last_main_key = erase right (erase left line); last_map = [] })

-- Any other line: a setting, if it has a `=`.
unfoldable pub load_setting : Text → Loading → Loading
load_setting line st = elim (index_of b'=' line) [
  | none ↦ st
  | some i ↦ record st { last_map = assign st.last_map (take i line) (drop (suc i) line) }
]

unfoldable pub load_clean : Text → Loading → Option Loading
load_clean line st = elim (index_of b'[' line) [
  | none ↦ some (load_setting line st)
  | some left ↦ elim (index_of b']' line) [
    | none ↦ some (load_setting line st)
    | some right ↦ load_section line left right st
  ]
]

-- The body of the loop, on what `fgets` has read.
unfoldable pub load_line : Text → Loading → Option Loading
load_line read st = load_clean (erase_first b'\r' (erase_first b'\n' (c_str read))) st

-- `while(fgets(...))`, on fuel.
unfoldable pub load_lines : ℕ → Text → Loading → Option Loading
load_lines zero file st = some st
load_lines (suc fuel) [] st = some st
load_lines (suc fuel) (c ∷ file) st = do
  st' ← load_line (fgets (configlen - 1) (c ∷ file)).0 st
  load_lines fuel (fgets (configlen - 1) (c ∷ file)).1 st'

pub data Loaded : Type 0 where
  ini_success : MainKeyMap → Loaded
  ini_openfile_error thrown : Loaded

abbrev pub loaded : Option Loading → Loaded
loaded none = thrown
loaded (some st) = ini_success (flush st)

-- `Load`, on the file's content, or `none` where `fopen` fails.
unfoldable pub load : Option Text → Loaded
load none = ini_openfile_error
load (some file) =
    loaded
      (load_lines (length file) file (record { m_map = []; last_main_key = []; last_map = [] }))

-- `m_Map[mAttr]` adds an empty section where there is none.
unfoldable pub section_added : MainKeyMap → Text → MainKeyMap
section_added m attr = assign m attr (lookup [] m attr)

-- `GetKey`: `strcpy` into `m_szKey` is in bounds only if there is room for the null byte.
unfoldable pub get_key : MainKeyMap → Text → Text → Option (Text × MainKeyMap)
get_key m attr key =
    let v = c_str (lookup [] (lookup [] m attr) key) in
    if ltb (length v) configlen then some (v, section_added m attr) else none

-- `isspace`, in the C locale.
abbrev pub is_space : ℕ → Bool
is_space c = c == 32 || (leb 9 c && leb c 13)

abbrev pub is_digit : ℕ → Bool
is_digit c = leb 48 c && leb c 57

unfoldable pub number_from : Text → ℕ → ℕ
number_from [] n = n
number_from (c ∷ s) n =
    let more = number_from s (n * 10 + (c - 48)) in if is_digit c then more else n

-- The sign's effect; a number that is no `int` is undefined behaviour.
abbrev signed : Bool → ℕ → Option ℤ
signed false n = if ltb n (2 ^ 31) then some (pos n) else none
signed true zero = some (pos 0)
signed true (suc n) = if ltb n (2 ^ 31) then some (negsuc n) else none

unfoldable pub atoi : Text → Option ℤ
atoi [] = some (pos 0)
atoi (c ∷ s) =
    let rest = atoi s in
    if is_space c
    then rest
    else if c == b'-'
    then signed true (number_from s 0)
    else if c == b'+'
    then signed false (number_from s 0)
    else signed false (number_from (c ∷ s) 0)

-- `GetInt`
unfoldable pub get_int : MainKeyMap → Text → Text → Option (ℤ × MainKeyMap)
get_int m attr key = do (v, m') ← get_key m attr key; n ← atoi v; some (n, m')

-- `GetStr`: `GetKey` returns `INI_SUCCESS` always, so the text "NULL" is never given.
unfoldable pub get_str : MainKeyMap → Text → Text → Option (Text × MainKeyMap)
get_str m attr key = get_key m attr key

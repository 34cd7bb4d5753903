-- ===== src/Ini/Printed.antt =====
-- Files of sections and settings, printed, and `Load` (injectService/pull/src/config/iniReader.cpp) on
-- them.
use pull_stream.Base.{
  suc, ◌+◌, ◌<◌, ◌≡◌, refl, ap, ◌∙◌, List, [], ◌∷◌, ◌++◌, Option, some, Text, length, length-append,
  arith,
}
use pull_stream.Ini.{
  KeyMap, MainKeyMap, assign, Loading, flush, load_line, load_lines, load, loaded, ini_success,
}
use pull_stream.Ini.Lines.{
  Lacks, Lacks-append, IsPlain, load_lines-line, load_line_setting, load_line_section,
}
use pull_stream.Ini.Loops.{load_lines-fuel}

abbrev setting_line : Text → Text → Text
setting_line k v = k ++ (b'=' ∷ v)

abbrev section_line : Text → Text
section_line name = b'[' ∷ (name ++ (b']' ∷ []))

-- The settings of a section, one a line, before a text.
abbrev pub print_settings : List (Text × Text) → Text → Text
print_settings [] rest = rest
print_settings ((k, v) ∷ settings) rest = setting_line k v ++ (b'\n' ∷ print_settings settings rest)

abbrev pub print_sections : List (Text × List (Text × Text)) → Text
print_sections [] = []
print_sections ((name, settings) ∷ sections) =
    section_line name ++ (b'\n' ∷ print_settings settings (print_sections sections))

-- A key or a value that a line can hold.
pub record IsSetting (k v : Text) : Type 0 where
  pub key : IsPlain k
  pub no_equals : Lacks b'=' k
  pub value : IsPlain v
  pub short : length (setting_line k v) < 255

abbrev pub AllSettings : List (Text × Text) → Type 0
AllSettings [] = Unit
AllSettings ((k, v) ∷ settings) = IsSetting k v × AllSettings settings

pub record IsSection (name : Text) (settings : List (Text × Text)) : Type 0 where
  pub plain : IsPlain name
  pub no_bracket : Lacks b']' name
  pub short : length (section_line name) < 255
  pub all : AllSettings settings

abbrev pub AllSections : List (Text × List (Text × Text)) → Type 0
AllSections [] = Unit
AllSections ((name, settings) ∷ sections) = IsSection name settings × AllSections sections

-- The settings, put into a map one after the other, and the sections into the main map.
abbrev pub add_settings : List (Text × Text) → KeyMap → KeyMap
add_settings [] m = m
add_settings ((k, v) ∷ settings) m = add_settings settings (assign m k v)

abbrev pub add_sections : List (Text × List (Text × Text)) → MainKeyMap → MainKeyMap
add_sections [] m = m
add_sections ((name, settings) ∷ sections) m =
    add_sections sections (assign m name (add_settings settings []))

-- The loop on a whole text.
abbrev read_all : Text → Loading → Option Loading
read_all t st = load_lines (length t) t st

read_all-line :
    (line rest : Text) (st st' : Loading)
    → Lacks b'\n' line
    → length line < 255
    → load_line (line ++ (b'\n' ∷ [])) st ≡ some st'
    → read_all (line ++ (b'\n' ∷ rest)) st ≡ read_all rest st'
read_all-line line rest st st' h l e =
    let size = length-append line (b'\n' ∷ rest) in
    load_lines-fuel (length (line ++ (b'\n' ∷ rest))) (suc (length line + length rest))
      (line ++ (b'\n' ∷ rest)) st (omega arith) (omega (arith, size))
    ∙ load_lines-line (length line + length rest) line rest st h l
    ∙ rw e (
        load_lines-fuel (length line + length rest) (length rest) rest st' (omega arith)
          (omega arith))

read_all-settings :
    (settings : List (Text × Text)) (rest : Text) (st : Loading)
    → AllSettings settings
    → read_all (print_settings settings rest) st
      ≡ read_all rest (record st { last_map = add_settings settings st.last_map })
read_all-settings [] rest st h = refl
read_all-settings ((k, v) ∷ settings) rest st h =
    read_all-line (setting_line k v) (print_settings settings rest) st
      (record st { last_map = assign st.last_map k v })
      (Lacks-append b'\n' k (b'=' ∷ v) h.0.key.newline ((λ q. omega arith), h.0.value.newline))
      h.0.short (load_line_setting k v st h.0.key h.0.no_equals h.0.value)
    ∙ read_all-settings settings rest (record st { last_map = assign st.last_map k v }) h.1

read_all-sections :
    (sections : List (Text × List (Text × Text))) (st : Loading)
    → AllSections sections
    → loaded (read_all (print_sections sections) st)
      ≡ ini_success (add_sections sections (flush st))
unfolding load_lines assign flush
read_all-sections [] st h = refl
read_all-sections ((name, settings) ∷ sections) st h =
    let opened : Loading = record { m_map = flush st; last_main_key = name; last_map = [] } in
    ap loaded (
      read_all-line (section_line name) (print_settings settings (print_sections sections)) st
        opened
        (
          (λ q. omega arith),
          Lacks-append b'\n' name (b']' ∷ []) h.0.plain.newline ((λ q. omega arith), tt),
        )
        h.0.short (load_line_section name st h.0.plain h.0.no_bracket)
      ∙ read_all-settings settings (print_sections sections) opened h.0.all)
    ∙ read_all-sections sections (record opened { last_map = add_settings settings [] }) h.1

-- A file that is printed from sections, with names, keys and values that a line can hold, is loaded
-- as a map: to an empty section under the empty name each section is added under its name with its
-- settings, in order, and of two with one name the later counts.
pub load-print_sections :
    (sections : List (Text × List (Text × Text)))
    → AllSections sections
    → load (some (print_sections sections)) ≡ ini_success (add_sections sections (([], []) ∷ []))
unfolding load flush assign
load-print_sections sections h =
    read_all-sections sections (record { m_map = []; last_main_key = []; last_map = [] }) h

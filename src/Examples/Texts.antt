-- ===== src/Examples/Texts.antt =====
-- The reader of settings, the text functions and the paths, at examples.
use pull_stream.Base.{ℕ, ℤ, pos, ◌≡◌, ◌≢◌, [], ◌∷◌, refl, some, Text, bytes, c_str, arith, length}
use pull_stream.Ini.{MainKeyMap, load, load_lines, get_str, section_added, lookup, ini_success}
use pull_stream.Ini.Bounds.{get_str-load}
use pull_stream.PString.{rc_strncpy}
use pull_stream.PString.Copies.{Copied, rc_strncpy_lem}

abbrev conf_file : Text
conf_file = bytes "[system]\ndaemon=on\r\nlisten=80\n[mongodb]\naddress=h\n"

abbrev conf_map : MainKeyMap
conf_map =
    ([], [])
    ∷ (bytes "system", (bytes "daemon", bytes "on") ∷ (bytes "listen", bytes "80") ∷ [])
    ∷ (bytes "mongodb", (bytes "address", bytes "h") ∷ [])
    ∷ []

conf_loads : load (some conf_file) ≡ ini_success conf_map
unfolding load load_lines bytes pull_stream.Ini.load_line pull_stream.Ini.load_clean
    pull_stream.Ini.index_of pull_stream.Ini.erase_first c_str pull_stream.Ini.fgets
    pull_stream.Ini.load_section pull_stream.Ini.flush pull_stream.Ini.assign
    pull_stream.Ini.load_setting pull_stream.Base.text_eq
conf_loads = refl

get_str-load_example :
    get_str conf_map (bytes "system") (bytes "daemon")
    ≡ some (bytes "on", section_added conf_map (bytes "system"))
unfolding bytes c_str lookup pull_stream.Base.text_eq
get_str-load_example =
    get_str-load (some conf_file) conf_map (bytes "system") (bytes "daemon") conf_loads

rc_strncpy_lem_example :
    Copied
      (bytes "....")
      (bytes "h264")
      3
      (rc_strncpy (bytes "....") (pos 4) (bytes "h264") (pos 9))
unfolding bytes
rc_strncpy_lem_example = rc_strncpy_lem (bytes "....") (bytes "h264") 3 9 refl

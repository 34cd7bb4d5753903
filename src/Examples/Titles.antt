-- ===== src/Examples/Titles.antt =====
-- The process title, at an example.
use pull_stream.Base.{ℕ, ◌-◌, ◌≡◌, refl, some, List, [], ◌∷◌, ◌++◌, Text, bytes, arith}
use pull_stream.Title.{GConf, init_process_title, set_process_titile}
use pull_stream.Title.Bounds.{IsLaidOut, end_of, Titled, set_process_titile-init_process_title}

-- Two bytes of something else, `pulld`, `-d`, then `A=1`, and a byte of something else.
abbrev program : Text
program = bytes "##" ++ (bytes "pulld" ++ (0 ∷ bytes "-d") ++ (0 ∷ bytes "A=1")) ++ (0 ∷ bytes "#")

abbrev program_conf : GConf
program_conf = record { argv = 2 ∷ 8 ∷ []; os_argv = 2; last = 0 }

program-IsLaidOut : IsLaidOut program (11 ∷ []) program_conf
unfolding bytes pull_stream.Base.c_str end_of
program-IsLaidOut = record {
  more = 8 ∷ [];
  argv = refl;
  texts = (refl, (refl, (refl, tt)));
  room = omega arith;
  inside = omega arith;
}

set_process_titile-init_process_title_example :
    let end = end_of program 2 (2 ∷ 8 ∷ 11 ∷ []) in
    (titled : GConf) × (init_process_title program (11 ∷ []) program_conf ≡ some titled)
    × (after : Text) × (set_process_titile (bytes "watchdog: idle") titled program ≡ some after)
    × Titled program (bytes "watchdog: idle") 2 (end - 2 - 2) after
set_process_titile-init_process_title_example =
    set_process_titile-init_process_title program (bytes "watchdog: idle") (11 ∷ []) program_conf
      program-IsLaidOut

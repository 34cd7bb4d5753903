-- ===== src/Examples/Files.antt =====
-- A file of settings, printed and loaded, at an example.
use pull_stream.Base.{
  ℕ, ◌≡◌, refl, Bool, true, not, ◌&&◌, List, [], ◌∷◌, some, Text, bytes, ◌==◌, arith,
}
use pull_stream.Ini.{load, ini_success}
use pull_stream.Ini.Lines.{Lacks, IsPlain}
use pull_stream.Ini.Printed.{print_sections, add_sections, IsSection, load-print_sections}

lacks : ℕ → Text → Bool
lacks c [] = true
lacks c (d ∷ s) = not (d == c) && lacks c s

Lacks-lacks : (c : ℕ) (s : Text) → lacks c s ≡ true → Lacks c s
unfolding lacks
Lacks-lacks c [] h = tt
Lacks-lacks c (d ∷ s) h = ((λ e. ground (arith, e, h)), Lacks-lacks c s (ground (arith, h)))

abbrev IsPlainTest : Text → Type 0
IsPlainTest s =
    (lacks 0 s ≡ true) × (lacks b'\n' s ≡ true) × (lacks b'\r' s ≡ true) × (lacks b'[' s ≡ true)

plain : (s : Text) → IsPlainTest s → IsPlain s
plain s h = record {
  null = Lacks-lacks 0 s h.0;
  newline = Lacks-lacks b'\n' s h.1;
  return' = Lacks-lacks b'\r' s h.2;
  bracket = Lacks-lacks b'[' s h.3;
}

abbrev sections : List (Text × List (Text × Text))
sections =
    (bytes "system", (bytes "daemon", bytes "on") ∷ (bytes "listen", bytes "80") ∷ [])
    ∷ (bytes "mongodb", (bytes "address", bytes "mongodb://h") ∷ [])
    ∷ []

system_plain :
    IsSection (bytes "system") ((bytes "daemon", bytes "on") ∷ (bytes "listen", bytes "80") ∷ [])
unfolding bytes lacks
system_plain = record {
  plain = plain (bytes "system") (refl, refl, refl, refl);
  no_bracket = Lacks-lacks b']' (bytes "system") refl;
  short = omega arith;
  all = (
    record {
      key = plain (bytes "daemon") (refl, refl, refl, refl);
      no_equals = Lacks-lacks b'=' (bytes "daemon") refl;
      value = plain (bytes "on") (refl, refl, refl, refl);
      short = omega arith;
    },
    (
      record {
        key = plain (bytes "listen") (refl, refl, refl, refl);
        no_equals = Lacks-lacks b'=' (bytes "listen") refl;
        value = plain (bytes "80") (refl, refl, refl, refl);
        short = omega arith;
      },
      tt,
    ),
  );
}

mongodb_plain : IsSection (bytes "mongodb") ((bytes "address", bytes "mongodb://h") ∷ [])
unfolding bytes lacks
mongodb_plain = record {
  plain = plain (bytes "mongodb") (refl, refl, refl, refl);
  no_bracket = Lacks-lacks b']' (bytes "mongodb") refl;
  short = omega arith;
  all = (
    record {
      key = plain (bytes "address") (refl, refl, refl, refl);
      no_equals = Lacks-lacks b'=' (bytes "address") refl;
      value = plain (bytes "mongodb://h") (refl, refl, refl, refl);
      short = omega arith;
    },
    tt,
  );
}

load-print_sections_example :
    load (some (print_sections sections)) ≡ ini_success (add_sections sections (([], []) ∷ []))
load-print_sections_example = load-print_sections sections (system_plain, (mongodb_plain, tt))

-- ===== src/Ini/Pieces.antt =====
-- What `Load` (injectService/pull/src/config/iniReader.cpp) does with a file, without `fgets` and its
-- loop: the file is cut into pieces first.
use pull_stream.Base.{
  ℕ, zero, suc, List, [], ◌∷◌, Option, some, Text, ◌==◌, ◌||◌, leb, ◌>>=◌, if◌then◌else◌,
}
use pull_stream.Ini.{Loading, load_line}

-- A character before the first piece.
abbrev onto : ℕ → List Text → List Text
onto c [] = (c ∷ []) ∷ []
onto c (p ∷ ps) = (c ∷ p) ∷ ps

abbrev one_less : ℕ → ℕ
one_less zero = zero
one_less (suc n) = n

-- The file, cut behind each newline and where a piece has 255 characters; the first piece has `room`
-- at most.
unfoldable pub pieces : ℕ → Text → List Text
pieces room [] = []
pieces room (c ∷ file) =
    let fresh = pieces 255 file in
    let more = pieces (one_less room) file in
    if c == b'\n' || leb room 1 then (c ∷ []) ∷ fresh else onto c more

-- Each piece in turn, until one throws.
abbrev pub load_all : List Text → Loading → Option Loading
load_all [] st = some st
load_all (p ∷ ps) st = load_line p st >>= load_all ps

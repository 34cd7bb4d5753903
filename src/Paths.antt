-- ===== src/Paths.antt =====
-- The folder that a program stands in, from its `argv[0]`: `CUtils::get_cur_path`
-- (injectService/pull/src/utils/utils.cpp) and `get_cur_path`
-- (injectService/pulld/src/global_conf.cpp). `argv[0]` is the text up to its null byte; lengths are
-- below 2 ^ 31.
pub mod Folder
use pull_stream.Base.{
  ℕ, zero, suc, ◌+◌, ℤ, pos, negsuc, Bool, true, false, Option, none, some, Text, length, null,
  drop, leb, if◌then◌else◌, ◌>>=◌,
}
use pull_stream.Ini.{index_of}
use pull_stream.PString.{strncpy, rc_strncpy}

-- The loop over the slashes, on fuel, at position `from` with `rest` behind it: the position of the
-- last slash found. `strchr` gives the next one; the loop goes on behind it, if there is more text.
unfoldable pub slash_loop : ℕ → Text → ℕ → Option ℕ → Option ℕ
slash_loop zero rest from last = last
slash_loop (suc fuel) rest from last = elim (index_of b'/' rest) [
  | none ↦ last
  | some i ↦
      let behind = drop (suc i) rest in
      elim (null behind) [
        | true ↦ some (from + i)
        | false ↦ slash_loop fuel behind (from + suc i) (some (from + i))
      ]
]

unfoldable pub last_slash : Text → Option ℕ
unfolding slash_loop
last_slash str = slash_loop (suc (length str)) str 0 none

-- The service's: -1 if the folder does not fit the buffer. With no slash the code subtracts a
-- pointer from null: `none`.
unfoldable pub get_cur_path : Text → Text → ℕ → Option (ℤ × Text)
get_cur_path str o_path i_l = do
  len ← last_slash str
  if leb i_l len
      then some (negsuc 0, o_path)
      else (do written ← strncpy o_path str len; some (pos 0, written))

-- How the watchdog's ends: with the folder in the buffer, or by `exit(0)`.
pub data Located : Type 0 where
  located : Text → Located
  path_too_long : Located

unfoldable pub get_cur_path_or_exit : Text → Text → ℕ → Option Located
get_cur_path_or_exit str o_path i_l = do
  len ← last_slash str
  if leb i_l len
      then some path_too_long
      else (do written ← rc_strncpy o_path (pos i_l) str (pos len); some (located written))

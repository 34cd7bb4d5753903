-- ===== src/Title.antt =====
-- The process title (injectService/pulld/src/global_conf.cpp and global_conf.h): the texts of `argv`
-- and `environ` in the memory of the process, which the title is written over. Memory is the list of
-- its bytes, and a pointer is a position in it; a null pointer ends the two arrays.
pub mod Bounds
use pull_stream.Base.{
  ℕ, zero, suc, ◌+◌, ◌-◌, pos, List, [], ◌∷◌, ◌++◌, Option, none, some, Text, c_str, length, take,
  drop, leb, ltb, ◌==◌, if◌then◌else◌, ◌>>=◌,
}
use pull_stream.PString.{padded, rc_strncpy}

-- `G_CONF_S`, what the title needs of it.
pub record GConf : Type 0 where
  pub argv : List ℕ
  pub os_argv : ℕ
  pub last : ℕ

-- `strlen` of the text at a position.
abbrev pub strlen_at : Text → ℕ → ℕ
strlen_at memory p = length (c_str (drop p memory))

-- The loops: an entry that begins where the text before it ends moves `last` behind it.
unfoldable pub step_over : Text → List ℕ → ℕ → ℕ
step_over memory [] last = last
step_over memory (p ∷ ps) last =
    step_over memory ps (if last == p then p + strlen_at memory p + 1 else last)

-- With no `argv[0]` it is a fault.
unfoldable pub init_process_title : Text → List ℕ → GConf → Option GConf
unfolding step_over
init_process_title memory environ i_conf = elim i_conf.argv [
  | [] ↦ none
  | p ∷ ps ↦
      let last = step_over memory environ (step_over memory (p ∷ ps) p) in
      some (record i_conf { last = last - 1 })
]

-- `memset(s, 0, n)` on the bytes from `s` on: out of bounds it is `none`.
abbrev pub memset_zero : Text → ℕ → Option Text
memset_zero dest n = if leb n (length dest) then some (padded n [] ++ drop n dest) else none

-- A negative length is a huge `size_t`: `none`.
unfoldable pub set_process_titile : Text → GConf → Text → Option Text
set_process_titile i_title i_conf memory = if ltb i_conf.last i_conf.os_argv then none else (do
  let len = i_conf.last - i_conf.os_argv
  cleared ← memset_zero (drop i_conf.os_argv memory) len
  titled ← rc_strncpy cleared (pos len) i_title (pos (length (c_str i_title)))
  some (take i_conf.os_argv memory ++ titled))

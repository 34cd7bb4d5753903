-- ===== src/Title/Bounds.antt =====
-- Where the process title of injectService/pulld/src/global_conf.cpp is written.
use pull_stream.Base.{
  take_all, leb, false, dec_lt, length-append, ltb, sym, ℕ, zero, suc, ◌+◌, ◌-◌, ◌≤◌, ◌<◌, pos, ◌≡◌,
  refl, ap, ◌∙◌, List, [], ◌∷◌, ◌++◌, some, Text, c_str, length, take, drop, min, arith, ==_iff,
  ◌==◌, true,
}
use pull_stream.PString.{padded, rc_strncpy}
use pull_stream.PString.Copies.{length-drop, length-padded, copied, copy-copied, c_str-copied}
use pull_stream.Title.{GConf, strlen_at, step_over, init_process_title, set_process_titile}

-- Texts that stand one behind the other from `p` on, each with its null byte.
abbrev pub Contiguous : Text → ℕ → List ℕ → Type 0
Contiguous memory p [] = Unit
Contiguous memory p (q ∷ qs) = (q ≡ p) × Contiguous memory (p + strlen_at memory p + 1) qs

-- The position behind them.
unfoldable pub end_of : Text → ℕ → List ℕ → ℕ
end_of memory p [] = p
end_of memory p (q ∷ qs) = end_of memory (p + strlen_at memory p + 1) qs

end_of-append :
    (memory : Text) (p : ℕ) (qs rs : List ℕ)
    → end_of memory p (qs ++ rs) ≡ end_of memory (end_of memory p qs) rs
unfolding end_of
end_of-append memory p [] rs = refl
end_of-append memory p (q ∷ qs) rs = end_of-append memory (p + strlen_at memory p + 1) qs rs

Contiguous-append :
    (memory : Text) (p : ℕ) (qs rs : List ℕ)
    → Contiguous memory p (qs ++ rs)
    → Contiguous memory p qs × Contiguous memory (end_of memory p qs) rs
unfolding end_of
Contiguous-append memory p [] rs h = (tt, h)
Contiguous-append memory p (q ∷ qs) rs h =
    let r = Contiguous-append memory (p + strlen_at memory p + 1) qs rs h.1 in ((h.0, r.0), r.1)

step_over-end_of :
    (memory : Text) (p : ℕ) (qs : List ℕ)
    → Contiguous memory p qs
    → step_over memory qs p ≡ end_of memory p qs
unfolding step_over end_of
step_over-end_of memory p [] h = refl
step_over-end_of memory p (q ∷ qs) h =
    let same : (p == q) ≡ true = (==_iff p q).1 (sym h.0) in
    rw same (
      ap (λ (k : ℕ). step_over memory qs (k + strlen_at memory k + 1)) h.0
      ∙ step_over-end_of memory (p + strlen_at memory p + 1) qs h.1)

end_of_le : (memory : Text) (p : ℕ) (qs : List ℕ) → p ≤ end_of memory p qs
unfolding end_of
end_of_le memory p [] = omega arith
end_of_le memory p (q ∷ qs) = omega (arith, end_of_le memory (p + strlen_at memory p + 1) qs)

-- Behind the copied text and its null byte the buffer is as it was.
drop-copied :
    (dest src : Text) (n k : ℕ) → n < length dest → n < k → drop k (copied dest src n) ≡ drop k dest
unfolding padded c_str
drop-copied [] src n k h lt = absurd (omega arith)
drop-copied (d ∷ dest) src n zero h lt = absurd (omega arith)
drop-copied (d ∷ dest) src zero (suc k) h lt = refl
drop-copied (d ∷ dest) [] (suc n) (suc k) h lt = drop-copied dest [] n k (omega arith) (omega arith)
drop-copied (d ∷ dest) (zero ∷ src) (suc n) (suc k) h lt =
    drop-copied dest [] n k (omega arith) (omega arith)
drop-copied (d ∷ dest) (suc c ∷ src) (suc n) (suc k) h lt =
    drop-copied dest src n k (omega arith) (omega arith)

-- Two parts of a memory, the first of `n` bytes.
drop-take_append : (n k : ℕ) (s t : Text) → n ≤ length s → drop (n + k) (take n s ++ t) ≡ drop k t
drop-take_append zero k s t h = ap (λ (i : ℕ). drop i t) (omega arith)
drop-take_append (suc n) k [] t h = absurd (omega arith)
drop-take_append (suc n) k (c ∷ s) t h =
    ap (λ (i : ℕ). drop i (c ∷ (take n s ++ t))) {x = suc n + k} {y = suc (n + k)} (omega arith)
    ∙ drop-take_append n k s t (omega arith)

take-take_append : (n : ℕ) (s t : Text) → n ≤ length s → take n (take n s ++ t) ≡ take n s
take-take_append zero s t h = refl
take-take_append (suc n) [] t h = absurd (omega arith)
take-take_append (suc n) (c ∷ s) t h =
    ap (λ (l : Text). c ∷ l) (take-take_append n s t (omega arith))

drop-nil : (n : ℕ) → drop {A = ℕ} n [] ≡ []
drop-nil zero = refl
drop-nil (suc n) = refl

drop-drop : (n k : ℕ) (s : Text) → drop k (drop n s) ≡ drop (n + k) s
drop-drop zero k s = ap (λ (i : ℕ). drop i s) (omega arith)
drop-drop (suc n) k [] = drop-nil k ∙ sym (drop-nil (suc n + k))
drop-drop (suc n) k (c ∷ s) =
    drop-drop n k s ∙ ap (λ (i : ℕ). drop i (c ∷ s)) {x = suc (n + k)} {y = suc n + k} (omega arith)

drop-padded_append : (n : ℕ) (t : Text) → drop n (padded n [] ++ t) ≡ t
unfolding padded
drop-padded_append zero t = refl
drop-padded_append (suc n) t = drop-padded_append n t

-- The memory behind a title that was set in the `room + 1` bytes from `p` on.
pub record Titled (memory title : Text) (p room : ℕ) (after : Text) : Type 0 where
  pub before : take p after ≡ take p memory
  pub content : c_str (drop p after) ≡ take room (c_str title)
  pub behind : drop (p + suc room) after ≡ drop (p + suc room) memory

take-min-length : (n : ℕ) (t : Text) → take (min (length t) n) t ≡ take n t
take-min-length n t = elim (dec_lt (length t) n) [
  | yes lt ↦
      let m : min (length t) n ≡ length t = omega arith in
      rw m (take_all (length t) t (omega arith) ∙ sym (take_all n t (omega arith)))
  | no ge ↦ let m : min (length t) n ≡ n = omega arith in rw m refl
]

rc_strncpy-copied :
    (dest src : Text) (room s_l : ℕ)
    → room < length dest
    → rc_strncpy dest (pos (suc room)) src (pos s_l) ≡ some (copied dest src (min s_l room))
unfolding rc_strncpy
rc_strncpy-copied dest src room s_l h = elim (dec_lt s_l room) [
  | yes lt ↦
      let m : min s_l room ≡ s_l = omega arith in
      ground (arith, m, copy-copied dest src s_l (omega arith))
  | no ge ↦
      let m : min s_l room ≡ room = omega arith in ground (arith, m, copy-copied dest src room h)
]

module _ (memory title : Text) (i_conf : GConf) (room : ℕ)
    (last : i_conf.last ≡ i_conf.os_argv + suc room) (inside : i_conf.last ≤ length memory) where
  abbrev rest : Text
  rest = drop i_conf.os_argv memory

  abbrev cleared : Text
  cleared = padded (suc room) [] ++ drop (suc room) rest

  abbrev limit : ℕ
  limit = min (length (c_str title)) room

  length-cleared : room < length cleared
  length-cleared = omega (
    arith,
    length-append (padded (suc room) []) (drop (suc room) rest),
    length-padded (suc room) [],
  )

  abbrev after : Text
  after = take i_conf.os_argv memory ++ copied cleared title limit

  set_process_titile-after : set_process_titile title i_conf memory ≡ some after
  unfolding set_process_titile
  set_process_titile-after =
      let len : i_conf.last - i_conf.os_argv ≡ suc room = omega (arith, last) in
      let forward : ltb i_conf.last i_conf.os_argv ≡ false = ground (arith, last) in
      let room_left : leb (suc room) (length rest) ≡ true =
        ground (arith, length-drop i_conf.os_argv memory, last, inside) in
      rw (forward, len, room_left)
        (rw (rc_strncpy-copied cleared title room (length (c_str title)) length-cleared) refl)

  after-Titled : Titled memory title i_conf.os_argv room after
  after-Titled =
      let within : i_conf.os_argv ≤ length memory = omega (arith, last, inside) in
      let behind_start : drop i_conf.os_argv after ≡ copied cleared title limit =
        ap (λ (i : ℕ). drop i after) {x = i_conf.os_argv} {y = i_conf.os_argv + 0} (omega arith)
        ∙ drop-take_append i_conf.os_argv 0 memory (copied cleared title limit) within in
      let short : limit < length cleared = omega (arith, length-cleared) in
      record {
        before = take-take_append i_conf.os_argv memory (copied cleared title limit) within;
        content =
            ap (λ (t : Text). c_str t) behind_start
            ∙ c_str-copied cleared title limit short
            ∙ take-min-length room (c_str title);
        behind =
            drop-take_append i_conf.os_argv (suc room) memory (copied cleared title limit) within
            ∙ drop-copied cleared title limit (suc room) short (omega arith)
            ∙ drop-padded_append (suc room) (drop (suc room) rest)
            ∙ drop-drop i_conf.os_argv (suc room) memory;
      }

-- The texts of `argv` and `environ` stand one behind the other in memory, with one byte at least
-- beside a last null byte, and `os_argv` is the first of them.
pub record IsLaidOut (memory : Text) (environ : List ℕ) (i_conf : GConf) : Type 0 where
  pub more : List ℕ
  pub argv : i_conf.argv ≡ i_conf.os_argv ∷ more
  pub texts : Contiguous memory i_conf.os_argv ((i_conf.os_argv ∷ more) ++ environ)
  pub room : i_conf.os_argv + 1 < end_of memory i_conf.os_argv (i_conf.argv ++ environ)
  pub inside : end_of memory i_conf.os_argv (i_conf.argv ++ environ) ≤ length memory

init_process_title-last :
    (memory : Text) (environ : List ℕ) (i_conf : GConf)
    → IsLaidOut memory environ i_conf
    → init_process_title memory environ i_conf
      ≡ some (record i_conf { last = end_of memory i_conf.os_argv (i_conf.argv ++ environ) - 1 })
unfolding init_process_title
init_process_title-last memory environ i_conf l =
    let p = i_conf.os_argv in
    let parts = Contiguous-append memory p (p ∷ l.more) environ l.texts in
    let first' = step_over-end_of memory p (p ∷ l.more) parts.0 in
    let second' = step_over-end_of memory (end_of memory p (p ∷ l.more)) environ parts.1 in
    let whole =
      ap (step_over memory environ) first'
      ∙ second'
      ∙ sym (end_of-append memory p (p ∷ l.more) environ) in
    rw (l.argv)
      (ap (λ (k : ℕ). some (record { argv = p ∷ l.more; os_argv = p; last = k - 1 })) whole)

-- With the texts of `argv` and `environ` one behind the other in memory, `init_process_title` finds
-- their end, and `set_process_titile` then writes inside them: it leaves there the C string of the
-- title, cut to what they have room for, and the bytes before them and from their last null byte on
-- as they were.
pub set_process_titile-init_process_title :
    (memory title : Text) (environ : List ℕ) (i_conf : GConf)
    → IsLaidOut memory environ i_conf
    → let end = end_of memory i_conf.os_argv (i_conf.argv ++ environ) in
      (titled : GConf) × (init_process_title memory environ i_conf ≡ some titled)
      × (after : Text) × (set_process_titile title titled memory ≡ some after)
      × Titled memory title i_conf.os_argv (end - 2 - i_conf.os_argv) after
set_process_titile-init_process_title memory title environ i_conf l =
    let end = end_of memory i_conf.os_argv (i_conf.argv ++ environ) in
    let titled = record i_conf { last = end - 1 } in
    let room = end - 2 - i_conf.os_argv in
    let last : end - 1 ≡ i_conf.os_argv + suc room = omega (arith, l.room) in
    let inside : end - 1 ≤ length memory = omega (arith, l.inside) in
    (
      titled,
      init_process_title-last memory environ i_conf l,
      after memory title titled room last inside,
      set_process_titile-after memory title titled room last inside,
      after-Titled memory title titled room last inside,
    )

-- ===== src/Ini/Loops.antt =====
-- The loop of `Load` (injectService/pull/src/config/iniReader.cpp), and its fuel.
use pull_stream.Base.{
  ℕ, zero, suc, ◌≤◌, ◌≡◌, refl, [], ◌∷◌, Option, none, some, Text, length, arith, ◌==◌, ◌>>=◌, inl,
  inr, Bool-cases,
}
use pull_stream.Ini.{fgets, Loading, load_line, load_lines}

pub fgets_rest : (room : ℕ) (file : Text) → length (fgets room file).1 ≤ length file
unfolding fgets
fgets_rest zero file = omega arith
fgets_rest (suc room) [] = omega arith
fgets_rest (suc room) (c ∷ file) = elim (Bool-cases (c == b'\n')) [
  | inl e ↦ rw e (omega arith)
  | inr e ↦ rw e (omega (arith, fgets_rest room file))
]

pub fgets_takes : (room c : ℕ) (file : Text) → length (fgets (suc room) (c ∷ file)).1 ≤ length file
unfolding fgets
fgets_takes room c file = elim (Bool-cases (c == b'\n')) [
  | inl e ↦ rw e (omega arith)
  | inr e ↦ rw e (fgets_rest room file)
]

-- The fuel that a round leaves is enough for what it leaves of the file.
le_pred : (a b f : ℕ) → a ≤ b → suc b ≤ suc f → a ≤ f
le_pred a b f h k = omega arith

pub fgets_left :
    (c : ℕ) (file : Text) (f : ℕ) → length (c ∷ file) ≤ suc f → length (fgets 255 (c ∷ file)).1 ≤ f
fgets_left c file f h =
    le_pred (length (fgets 255 (c ∷ file)).1) (length file) f (fgets_takes 254 c file) h

pub bind_ap :
    {A B : Type 0} (o : Option A) (f g : A → Option B)
    → ((a : A) → f a ≡ g a)
    → (o >>= f) ≡ (o >>= g)
bind_ap none f g h = refl
bind_ap (some a) f g h = h a

-- The loop of `Load` needs no more rounds than the file has characters: whatever fuel there is
-- beyond that, the result is the same.
pub load_lines-fuel :
    (f g : ℕ) (file : Text) (st : Loading)
    → length file ≤ f
    → length file ≤ g
    → load_lines f file st ≡ load_lines g file st
unfolding load_lines
load_lines-fuel zero zero [] st hf hg = refl
load_lines-fuel zero (suc g) [] st hf hg = refl
load_lines-fuel (suc f) zero [] st hf hg = refl
load_lines-fuel (suc f) (suc g) [] st hf hg = refl
load_lines-fuel zero g (c ∷ file) st hf hg = absurd (omega arith)
load_lines-fuel (suc f) zero (c ∷ file) st hf hg = absurd (omega arith)
load_lines-fuel (suc f) (suc g) (c ∷ file) st hf hg =
    bind_ap (load_line (fgets 255 (c ∷ file)).0 st) _ _ (λ st'.
      load_lines-fuel f g (fgets 255 (c ∷ file)).1 st' (fgets_left c file f hf)
        (fgets_left c file g hg))

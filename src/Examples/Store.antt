-- ===== src/Examples/Store.antt =====
-- A database in memory that meets `MongoLaws`.
use pull_stream.Base.{
  ℤ, Bool, true, false, ◌&&◌, List, [], ◌∷◌, ◌++◌, ◌≡◌, ◌≢◌, ◌↔◌, ◌⊎◌, inl, inr, refl, ap, Option,
  none, some, Text, text_eq, text_eq_iff, eq_ℤ, eq_ℤ_iff, arith, Bool-cases, if◌then◌else◌,
}
use pull_stream.Bson.{Bson, utf8, int32, document, Doc, nil, field, doc_get}
use pull_stream.External.{Collection}
use pull_stream.External.Laws.{keep, Replaced}

abbrev pub Shelf : Type 0
Shelf = Collection → List Doc

pub same : Collection → Collection → Bool
same a b = text_eq a.uri b.uri && (text_eq a.db b.db && text_eq a.name b.name)

pub same_iff : (a b : Collection) → (same a b ≡ true) ↔ (a ≡ b)
unfolding same
same_iff a b =
    ground (arith, text_eq_iff a.uri b.uri, text_eq_iff a.db b.db, text_eq_iff a.name b.name)

pub put : Shelf → Collection → List Doc → Shelf
put s c ds c' = if same c c' then ds else s c'

pub put_self : (s : Shelf) (c : Collection) (ds : List Doc) → put s c ds c ≡ ds
unfolding put
put_self s c ds = rw ((same_iff c c).1 refl)

pub put_ne : (s : Shelf) (c c' : Collection) (ds : List Doc) → c' ≢ c → put s c ds c' ≡ s c'
unfolding put
put_ne s c c' ds h = ground (arith, same_iff c c')

value_is : Option Bson → Bson → Bool
value_is (some (utf8 a)) (utf8 b) = text_eq a b
value_is (some (int32 a)) (int32 b) = eq_ℤ a b
value_is _ _ = false

-- Equality queries only.
unfoldable pub fits : Doc → Doc → Bool
unfolding value_is
fits nil d = true
fits (field k v q) d = value_is (doc_get d k) v && fits q d

pub fits_utf8 :
    (k t : Text) (d : Doc) → (fits (field k (utf8 t) nil) d ≡ true) ↔ (doc_get d k ≡ some (utf8 t))
unfolding fits
fits_utf8 k t d = by_value (doc_get d k)
  where
    by_value : (o : Option Bson) → ((value_is o (utf8 t) && true) ≡ true) ↔ (o ≡ some (utf8 t))
    by_value none = ground arith
    by_value (some (utf8 a)) = ground (arith, text_eq_iff a t)
    by_value (some (int32 a)) = ground arith
    by_value (some (document a)) = ground arith

pub fits_int32 :
    (k : Text) (n : ℤ) (d : Doc)
    → (fits (field k (int32 n) nil) d ≡ true) ↔ (doc_get d k ≡ some (int32 n))
unfolding fits
fits_int32 k n d = by_value (doc_get d k)
  where
    by_value : (o : Option Bson) → ((value_is o (int32 n) && true) ≡ true) ↔ (o ≡ some (int32 n))
    by_value none = ground arith
    by_value (some (utf8 a)) = ground arith
    by_value (some (int32 a)) = ground (arith, eq_ℤ_iff a n)
    by_value (some (document a)) = ground arith

-- `$set` of one field.
unfoldable pub revised : Doc → Doc → Doc
revised (field _ (document (field k v nil)) nil) d = field k v d
revised _ d = d

-- The first document that satisfies a test, replaced.
pub replace_first : (Doc → Bool) → (Doc → List Doc) → List Doc → List Doc
replace_first p new [] = []
replace_first p new (d ∷ ds) = if p d then new d ++ ds else d ∷ replace_first p new ds

pub replace_first_lem :
    (p : Doc → Bool) (new : Doc → List Doc) (ds : List Doc)
    → ((keep p ds ≡ []) × (replace_first p new ds ≡ ds))
      ⊎ Replaced p new ds (replace_first p new ds)
unfolding replace_first
replace_first_lem p new [] = inl (refl, refl)
replace_first_lem p new (d ∷ ds) = elim (Bool-cases (p d)) [
  | inl yes' ↦ inr (record { doc = d; fits = yes'; pre = []; post = ds; was = refl; is = rw yes' })
  | inr no' ↦ rw no' (elim (replace_first_lem p new ds) [
    | inl (e, same') ↦ inl (e, ap (λ (l : List Doc). d ∷ l) same')
    | inr r ↦ inr (record {
      doc = r.doc;
      fits = r.fits;
      pre = d ∷ r.pre;
      post = r.post;
      was = ap (λ (l : List Doc). d ∷ l) r.was;
      is = ap (λ (l : List Doc). d ∷ l) r.is;
    })
  ])
]

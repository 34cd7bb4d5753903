-- ===== src/External/Counts.antt =====
-- How many documents satisfy a test, before and after a call of the database.
use pull_stream.Base.{
  ℕ, ◌+◌, ◌≡◌, refl, ap, Bool, List, [], ◌∷◌, ◌++◌, length, length-append, arith, if◌then◌else◌,
}
use pull_stream.Bson.{Doc}
use pull_stream.External.Laws.{keep, Inserted, Replaced}

abbrev pub count : (Doc → Bool) → List Doc → ℕ
count p ds = length (keep p ds)

pub keep-append :
    (p : Doc → Bool) (as' bs : List Doc) → keep p (as' ++ bs) ≡ keep p as' ++ keep p bs
keep-append p [] bs = refl
keep-append p (a ∷ as') bs = ground (arith, keep-append p as' bs)

pub count-append :
    (p : Doc → Bool) (as' bs : List Doc) → count p (as' ++ bs) ≡ count p as' + count p bs
count-append p as' bs = omega (arith, ap_length, length-append (keep p as') (keep p bs))
  where
    ap_length : length (keep p (as' ++ bs)) ≡ length (keep p as' ++ keep p bs)
    ap_length = ap length (keep-append p as' bs)

pub count-Inserted :
    (p : Doc → Bool) (d : Doc) {before after : List Doc}
    → Inserted d before after
    → count p after ≡ count p before + (if p d then 1 else 0)
count-Inserted p d i =
    rw (i.was, i.is)
      (ground (arith, count-append p i.pre i.post, count-append p i.pre (d ∷ i.post)))

pub count-Replaced :
    (p q : Doc → Bool) (new : Doc → List Doc) {before after : List Doc}
    (r : Replaced q new before after)
    → count p after + (if p r.doc then 1 else 0) ≡ count p before + count p (new r.doc)
count-Replaced p q new r =
    rw (r.was, r.is)
      (ground (
        arith,
        count-append p r.pre (r.doc ∷ r.post),
        count-append p r.pre (new r.doc ++ r.post),
        count-append p (new r.doc) r.post,
      ))

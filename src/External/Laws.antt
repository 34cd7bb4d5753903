-- ===== src/External/Laws.antt =====
-- Documented behaviour of the external code, as hypotheses for the theorems that need it.
use pull_stream.Base.{
  ℤ, IsInt32, ◌≡◌, ◌↔◌, ◌≢◌, ◌⊎◌, Bool, true, List, [], ◌∷◌, ◌++◌, some, Text, bytes, text_eq,
  if◌then◌else◌,
}
use pull_stream.Bson.{Doc, nil, field, Bson, utf8, int32, document, doc_get}
use pull_stream.External.{bson_as_json, parse, Collection, External, value}
use pull_stream.Json.{string_at, int_at}

-- The documents that satisfy a test, in their order.
abbrev pub keep : (Doc → Bool) → List Doc → List Doc
keep p [] = []
keep p (d ∷ ds) = if p d then d ∷ keep p ds else keep p ds

-- A document more, at some place.
pub record Inserted (d : Doc) (before after : List Doc) : Type 0 where
  pub pre : List Doc
  pub post : List Doc
  pub was : before ≡ pre ++ post
  pub is : after ≡ pre ++ (d ∷ post)

-- One document that satisfies a test has become the documents `new d`, at its place.
pub record Replaced (p : Doc → Bool) (new : Doc → List Doc) (before after : List Doc) : Type 0 where
  pub doc : Doc
  pub fits : p doc ≡ true
  pub pre : List Doc
  pub post : List Doc
  pub was : before ≡ pre ++ (doc ∷ post)
  pub is : after ≡ pre ++ (new doc ++ post)

module _ ⦃x : External⦄ where
  open x use {
    Server, collection_insert, collection_update, collection_remove, collection_find, Json,
  }

  -- MongoDB: each collection holds documents in some order, and a call works on one collection. An
  -- insertion that reports success has put its document somewhere. A removal (of a single document)
  -- or an update that reports success has changed one document that matches, if there is one. A call
  -- that reports failure may or may not have taken effect.
  pub record MongoLaws : Type 0 where
    pub docs : Server → Collection → List Doc
    pub matches : Doc → Doc → Bool
    -- an update document applied to a document
    pub updated : Doc → Doc → Doc
    pub find_lem :
        (s : Server) (c : Collection) (q : Doc)
        → collection_find s c q ≡ keep (matches q) (docs s c)
    pub insert_true :
        (s : Server) (c : Collection) (d : Doc)
        → (collection_insert s c d).0 ≡ true
        → Inserted d (docs s c) (docs (collection_insert s c d).1 c)
    pub insert_any :
        (s : Server) (c : Collection) (d : Doc)
        → (docs (collection_insert s c d).1 c ≡ docs s c)
          ⊎ Inserted d (docs s c) (docs (collection_insert s c d).1 c)
    pub remove_true :
        (s : Server) (c : Collection) (q : Doc)
        → (collection_remove s c q).0 ≡ true
        → keep (matches q) (docs s c) ≢ []
        → Replaced (matches q) (λ _. []) (docs s c) (docs (collection_remove s c q).1 c)
    pub remove_any :
        (s : Server) (c : Collection) (q : Doc)
        → (docs (collection_remove s c q).1 c ≡ docs s c)
          ⊎ Replaced (matches q) (λ _. []) (docs s c) (docs (collection_remove s c q).1 c)
    pub update_true :
        (s : Server) (c : Collection) (q u : Doc)
        → (collection_update s c q u).0 ≡ true
        → keep (matches q) (docs s c) ≢ []
        → Replaced
            (matches q)
            (λ d. updated u d ∷ [])
            (docs s c)
            (docs (collection_update s c q u).1 c)
    pub update_any :
        (s : Server) (c : Collection) (q u : Doc)
        → (docs (collection_update s c q u).1 c ≡ docs s c)
          ⊎ Replaced
              (matches q)
              (λ d. updated u d ∷ [])
              (docs s c)
              (docs (collection_update s c q u).1 c)
    pub insert_elsewhere :
        (s : Server) (c c' : Collection) (d : Doc)
        → c' ≢ c
        → docs (collection_insert s c d).1 c' ≡ docs s c'
    pub remove_elsewhere :
        (s : Server) (c c' : Collection) (q : Doc)
        → c' ≢ c
        → docs (collection_remove s c q).1 c' ≡ docs s c'
    pub update_elsewhere :
        (s : Server) (c c' : Collection) (q u : Doc)
        → c' ≢ c
        → docs (collection_update s c q u).1 c' ≡ docs s c'
    pub matches_utf8 :
        (k t : Text) (d : Doc)
        → (matches (field k (utf8 t) nil) d ≡ true) ↔ (doc_get d k ≡ some (utf8 t))
    pub matches_int32 :
        (k : Text) (n : ℤ) (d : Doc)
        → (matches (field k (int32 n) nil) d ≡ true) ↔ (doc_get d k ≡ some (int32 n))
    pub updated_set :
        (k j : Text) (v : Bson) (d : Doc)
        → doc_get (updated (field (bytes "$set") (document (field k v nil)) nil) d) j
          ≡ (if text_eq k j then some v else doc_get d j)

  -- What libbson prints, jsoncpp reads: valid UTF-8 and 32-bit numbers come back.
  pub record JsonLaws : Type 0 where
    pub root_of : Doc → Json
    pub is_utf8 : Text → Bool
    pub parse-as_json : (d : Doc) → parse (bson_as_json d) ≡ some (root_of d)
    pub read_utf8 :
        (d : Doc) (k t : Text)
        → is_utf8 t ≡ true
        → doc_get d k ≡ some (utf8 t)
        → string_at (root_of d) k ≡ value t
    pub read_int32 :
        (d : Doc) (k : Text) (n : ℤ)
        → IsInt32 n
        → doc_get d k ≡ some (int32 n)
        → int_at (root_of d) k ≡ value n

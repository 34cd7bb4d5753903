-- ===== src/Mongo.antt =====
-- `MongoAdaptor` (injectService/pull/src/app/mongoCommonApi.cpp). A `void *` to a client is the
-- address it was made with, one to a collection the collection; null is `none`. Closing a client,
-- releasing a collection and freeing a document change nothing that is modelled.
use pull_stream.Base.{
  ℕ, Bool, true, false, List, [], ◌∷◌, ◌++◌, Option, none, some, Text, c_str, is_some,
  if◌then◌else◌,
}
use pull_stream.Bson.{Doc}
use pull_stream.Common.{ErrorCode, error_ok, process_info_none, get_collection_failed, error_number}
use pull_stream.External.{bson_as_json, External, Collection}
use pull_stream.World.{Action, pure, on_server, assert, gets, ◌>>=◌, ◌>>◌}

module _ ⦃x : External⦄ where
  open x use {
    client_new, get_collection, collection_insert, collection_update, collection_remove,
    collection_find,
  }

  unfoldable pub connect : Text → Action (Option Text)
  connect addr = do
    let ins : Option Text = if client_new (c_str addr) then some (c_str addr) else none
    assert (is_some ins)
    pure ins

  -- The test for null behind the `assert` returns null again. The callers' names are literals.
  unfoldable pub collection : Option Text → Text → Text → Action (Option Collection)
  collection none db name = assert false >> pure none
  collection (some uri) db name = do
    assert true
    let c : Collection = record { uri = uri; db = db; name = name }
    let ins : Option Collection = if get_collection c then some c else none
    assert (is_some ins)
    pure ins

  -- A `bool` of libmongoc that is returned as an `int`.
  abbrev pub int_of_bool : Bool → ℕ
  int_of_bool true = 1
  int_of_bool false = 0

  unfoldable pub insert : Option Collection → Doc → Action ℕ
  insert none query = assert false >> pure (error_number get_collection_failed)
  insert (some c) query = do
    assert true
    done ← on_server (λ s. collection_insert s c query)
    pure (int_of_bool done)

  unfoldable pub update : Option Collection → Doc → Doc → Action ℕ
  update none query change = assert false >> pure (error_number get_collection_failed)
  update (some c) query change = do
    assert true
    done ← on_server (λ s. collection_update s c query change)
    pure (int_of_bool done)

  unfoldable pub remove : Option Collection → Doc → Action ℕ
  remove none query = assert false >> pure (error_number get_collection_failed)
  remove (some c) query = do
    assert true
    done ← on_server (λ s. collection_remove s c query)
    pure (int_of_bool done)

  -- The loop over the cursor appends each document, printed, to the caller's vector.
  unfoldable pub push_json : List Doc → List Text → List Text
  push_json [] list = list
  push_json (doc ∷ docs) list = push_json docs (list ++ (bson_as_json doc ∷ []))

  unfoldable pub find : Option Collection → Doc → List Text → Action (ℕ × List Text)
  unfolding push_json
  find none query list = assert false >> pure (error_number get_collection_failed, list)
  find (some c) query list = do
    assert true
    docs ← gets (λ w. collection_find w.server c query)
    pure (0, push_json docs list)

  -- The loop returns in its first round.
  abbrev first_json : List Doc → Text → ErrorCode × Text
  first_json [] item = (process_info_none, item)
  first_json (doc ∷ docs) item = (error_ok, bson_as_json doc)

  unfoldable pub find_one : Option Collection → Doc → Text → Action (ErrorCode × Text)
  find_one none query item = assert false >> pure (get_collection_failed, item)
  find_one (some c) query item = do
    assert true
    docs ← gets (λ w. collection_find w.server c query)
    pure (first_json docs item)

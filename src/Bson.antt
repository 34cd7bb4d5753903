-- ===== src/Bson.antt =====
-- The documents that the code builds with libbson (`bson_new`, `BSON_APPEND_UTF8`,
-- `BSON_APPEND_INT32`, `bson_append_document_begin`): fields in the order in which they are appended.
use pull_stream.Base.{Option, none, some, Text, text_eq, if◌then◌else◌}
use pull_stream.Base.{ℤ}

mutual
  pub data Bson : Type 0 where
    utf8 : Text → Bson
    int32 : ℤ → Bson
    document : Doc → Bson

  pub data Doc : Type 0 where
    nil : Doc
    field : Text → Bson → Doc → Doc

-- The first value under a key.
unfoldable pub doc_get : Doc → Text → Option Bson
doc_get nil k = none
doc_get (field j v d) k = if text_eq j k then some v else doc_get d k

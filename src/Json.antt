-- ===== src/Json.antt =====
-- `root[key].asString()` and `root[key].asInt()`, as the handlers and `ServerBiz::parser` call them.
use pull_stream.Base.{ℤ, Text}
use pull_stream.External.{External, Except, ◌>>=◌}

module _ ⦃x : External⦄ where
  open x use {Json, member, as_string, as_int}

  unfoldable pub string_at : Json → Text → Except Text
  string_at root key = do v ← member root key; as_string v

  unfoldable pub int_at : Json → Text → Except ℤ
  int_at root key = do v ← member root key; as_int v

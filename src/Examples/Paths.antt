-- ===== src/Examples/Paths.antt =====
-- The requests to the service's paths and its start, at examples.
use pull_stream.Base.{pos, bytes, [], ◌∷◌}
use pull_stream.Bson.{nil, field, utf8, int32, Doc}
use pull_stream.Examples.Machine.{toy}
use pull_stream.Ini.{MainKeyMap}

abbrev pub start_doc : Doc
start_doc = field (bytes "src") (utf8 (bytes "rtsp://c")) (
    field (bytes "dest") (utf8 (bytes "rtmp://d"))
      (field (bytes "sid") (utf8 (bytes "s1")) (field (bytes "type") (int32 (pos 1)) nil)))

abbrev pub conf_map : MainKeyMap
conf_map =
    (bytes "system", (bytes "listen", bytes "80") ∷ [])
    ∷ (bytes "mongodb", (bytes "address", bytes "mongodb://h") ∷ [])
    ∷ []

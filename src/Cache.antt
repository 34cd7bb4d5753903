-- ===== src/Cache.antt =====
-- The operations of `ServerBiz` on the database
-- (injectService/pull/src/app/serverBiz.cpp): the collection `process` holds a record for each
-- stream, the collection `host` one for each running service. Log calls, `bson_destroy`,
-- `collection_release` and `connect_close` change nothing that is modelled.
mod Parser
pub mod Connected
pub mod Hosts
pub mod Streams
pub mod Records
unfoldable pub use Parser.{parser, read_fields}
use pull_stream.Base.{
  ℕ, ℤ, Bool, true, false, List, [], ◌∷◌, ◌++◌, Option, none, some, Text, bytes, c_str, eq_ℤ, ◌==◌,
  not, if◌then◌else◌,
}
use pull_stream.Bson.{Bson, utf8, int32, document, Doc, nil, field}
use pull_stream.Common.{
  ErrorCode, error_ok, mongodb, process_info_none, ProcessInfo, new_process_info,
}
use pull_stream.External.{External, Collection}
use pull_stream.Mongo.{connect, collection, insert, update, remove, find, find_one}
use pull_stream.World.{World, Action, pure, gets, modify, on_server, assert, ◌>>=◌, ◌>>◌}

-- `MONGODB_DATABASE`, `MONGODB_COLLECTION_PROCESS` and `MONGODB_COLLECTION_HOSTINFO`
abbrev pub database : Text
database = bytes "pull_stream"

abbrev pub collection_process : Text
collection_process = bytes "process"

abbrev pub collection_hostinfo : Text
collection_hostinfo = bytes "host"

abbrev pub by_sid : Text → Doc
by_sid sid = field (bytes "sid") (utf8 (c_str sid)) nil

abbrev pub by_pid : ℤ → Doc
by_pid pid = field (bytes "pid") (int32 pid) nil

abbrev pub by_host : Text → Doc
by_host host = field (bytes "host") (utf8 (c_str host)) nil

-- `$set: {pid: …}`
abbrev pub set_pid : ℤ → Doc
set_pid pid = field (bytes "$set") (document (field (bytes "pid") (int32 pid) nil)) nil

-- `ppid: {$ne: …}`
abbrev pub by_other_ppid : ℤ → Doc
by_other_ppid pid = field (bytes "ppid") (document (field (bytes "$ne") (int32 pid) nil)) nil

-- What `add_process_to_cache` inserts.
abbrev pub process_record : ProcessInfo → ℤ → Doc
process_record info ppid = field (bytes "sid") (utf8 (c_str info.sid)) (
    field (bytes "pid") (int32 info.pid) (
      field (bytes "ppid") (int32 ppid) (
        field (bytes "src_url") (utf8 (c_str info.src_url)) (
          field (bytes "dest_url") (utf8 (c_str info.dest_url)) (
            field (bytes "type") (int32 info.type) (
              field (bytes "status") (utf8 (bytes "active"))
                (field (bytes "host") (utf8 (c_str info.host)) nil)))))))

-- What `register_host_to_cache` inserts.
abbrev pub host_record : Text → ℤ → Doc
host_record host port =
    field (bytes "host") (utf8 (c_str host)) (field (bytes "port") (int32 port) nil)

-- `if(!MongoAdaptor::…) ret = REC_ERROR_MONGODB;`
abbrev pub checked : ℕ → ErrorCode
checked n = if n == 0 then mongodb else error_ok

module _ ⦃x : External⦄ where
  open x use {getpid, junk}

  -- The first two calls of every operation.
  unfoldable pub open_collection : Text → Text → Action (Option Collection)
  unfolding connect collection
  open_collection db name = do
    address ← gets (λ w. w.db_address)
    client ← connect address
    collection client db name

  unfoldable pub update_process_info : ProcessInfo → Action ErrorCode
  unfolding update
  update_process_info param = do
    c ← open_collection database collection_process
    n ← update c (by_sid param.sid) (set_pid param.pid)
    pure (checked n)

  unfoldable pub add_process_to_cache : ProcessInfo → Action ErrorCode
  unfolding insert
  add_process_to_cache info = do
    c ← open_collection database collection_process
    me ← gets (λ w. getpid w.os)
    n ← insert c (process_record info me)
    pure (checked n)

  abbrev insert_host : Text → Text → ℤ → Action ErrorCode
  insert_host uri host port = do
    c ← collection (some uri) database collection_hostinfo
    elim c [
      | none ↦ pure mongodb
      | some k ↦ do n ← insert (some k) (host_record host port); pure (checked n)
    ]

  -- The tests for null follow asserts.
  unfoldable pub register_host_to_cache : Text → ℤ → Action ErrorCode
  unfolding connect collection insert
  register_host_to_cache host port = do
    modify (λ w. record w { _host = host; _port = port })
    address ← gets (λ w. w.db_address)
    client ← connect address
    elim client [ none ↦ pure mongodb | some uri ↦ insert_host uri host port ]

  -- The loop reads every text into the same `item`, and does not look at what `parser` returns.
  collect_orphans : ℤ → List Text → ProcessInfo → List ProcessInfo → List ProcessInfo
  collect_orphans pid [] item vec = vec
  collect_orphans pid (t ∷ ts) item vec =
      let item' = (parser t item).1 in
      collect_orphans pid ts item' (if not (eq_ℤ item'.ppid pid) then vec ++ (item' ∷ []) else vec)

  unfoldable pub find_orphan_process : List ProcessInfo → Action (ℕ × List ProcessInfo)
  unfolding find collect_orphans
  find_orphan_process processes = do
    c ← open_collection database collection_process
    pid ← gets (λ w. getpid w.os)
    (r, texts) ← find c (by_other_ppid pid) []
    pure (r, collect_orphans pid texts (new_process_info junk) processes)

  unfoldable pub collect : List Text → ProcessInfo → List ProcessInfo → List ProcessInfo
  collect [] item vec = vec
  collect (t ∷ ts) item vec =
      let item' = (parser t item).1 in collect ts item' (vec ++ (item' ∷ []))

  unfoldable pub find_all_process : List ProcessInfo → Action (ℕ × List ProcessInfo)
  unfolding find
  find_all_process processes = do
    c ← open_collection database collection_process
    (r, texts) ← find c nil []
    pure (r, collect texts (new_process_info junk) processes)

  abbrev pub found : ErrorCode → Bool
  found error_ok = true
  found _ = false

  -- The `process_info` that the caller passes is overwritten only if there is a record.
  unfoldable pub is_process_exist_by_pid : ℤ → ProcessInfo → Action (Bool × ProcessInfo)
  unfolding find_one
  is_process_exist_by_pid pid info = do
    c ← open_collection database collection_process
    (r, item) ← find_one c (by_pid pid) []
    pure (if found r then (true, (parser item info).1) else (false, info))

  unfoldable pub is_process_exist : Text → ProcessInfo → Action (Bool × ProcessInfo)
  unfolding find_one
  is_process_exist sid info = do
    c ← open_collection database collection_process
    (r, item) ← find_one c (by_sid sid) []
    pure (if found r then (true, (parser item info).1) else (false, info))

  unfoldable pub is_host_exist : Text → Action Bool
  unfolding find_one
  is_host_exist host = do
    c ← open_collection database collection_hostinfo
    (r, item) ← find_one c (by_host host) []
    pure (found r)

  unfoldable pub get_process_info : Text → Action (Option ProcessInfo)
  unfolding find_one
  get_process_info sid = do
    c ← open_collection database collection_process
    (r, item) ← find_one c (by_sid sid) []
    pure (if found r then some (parser item (new_process_info junk)).1 else none)

  unfoldable pub remove_process_by_stream : Text → Action ErrorCode
  unfolding remove
  remove_process_by_stream sid = do
    c ← open_collection database collection_process
    n ← remove c (by_sid sid)
    pure (checked n)

  unfoldable pub remove_process_by_id : ℤ → Action ErrorCode
  unfolding remove
  remove_process_by_id id = do
    c ← open_collection (bytes "rec_distribute") (bytes "process_info")
    n ← remove c (by_pid id)
    pure (checked n)

  unfoldable pub remove_host : Action ErrorCode
  unfolding remove
  remove_host = do
    c ← open_collection database collection_hostinfo
    host ← gets (λ w. w._host)
    n ← remove c (by_host host)
    pure (checked n)

  unfoldable pub host_register : Text → ℤ → Action Bool
  unfolding is_host_exist register_host_to_cache
  host_register host port = do
    there ← is_host_exist host
    if there then pure false else (register_host_to_cache host port >> pure true)

  unfoldable pub set_mongodb : Text → Action (Unit {0})
  set_mongodb db = modify (λ w. record w { db_address = db })

-- ===== src/Cache/Connected.antt =====
-- Each operation of `ServerBiz` on the cache, once the client and the collection are there.
use pull_stream.Base.{ℤ, true, false, List, [], ◌∷◌, ◌≡◌, none, some, Text, c_str, arith}
use pull_stream.Bson.{Doc, nil}
use pull_stream.Cache.{
  database, collection_process, collection_hostinfo, by_sid, by_pid, by_host, set_pid,
  process_record, host_record, checked, open_collection, update_process_info, add_process_to_cache,
  register_host_to_cache, is_process_exist, is_process_exist_by_pid, find_all_process, collect,
  is_host_exist, get_process_info, parser, remove_process_by_stream, remove_host,
}
use pull_stream.Common.{ProcessInfo, new_process_info}
use pull_stream.External.{bson_as_json, External, Collection}
use pull_stream.Mongo.{int_of_bool, push_json}
use pull_stream.World.{World, ret, aborted}

module _ ⦃x : External⦄ where
  open x use {
    client_new, get_collection, collection_insert, collection_update, collection_remove,
    collection_find, getpid, junk,
  }

  -- The collection that the service of a world uses under a name.
  abbrev pub at : World → Text → Text → Collection
  at w db name = record { uri = c_str w.db_address; db = db; name = name }

  abbrev pub process_at : World → Collection
  process_at w = at w database collection_process

  abbrev pub host_at : World → Collection
  host_at w = at w database collection_hostinfo

  -- libmongoc accepts the address, and gives handles to the collections.
  pub record IsConnected (w : World) : Type 0 where
    pub client : client_new (c_str w.db_address) ≡ true
    pub handle : (db name : Text) → get_collection (at w db name) ≡ true

  pub open_collection-connected :
      (w : World) (db name : Text)
      → IsConnected w
      → open_collection db name w ≡ (ret (some (at w db name)), w)
  unfolding open_collection
  open_collection-connected w db name h = ground (arith, h.handle db name)

  pub open_collection-aborted :
      (w : World) (db name : Text)
      → client_new (c_str w.db_address) ≡ false
      → open_collection db name w ≡ (aborted, w)
  unfolding open_collection
  open_collection-aborted w db name h = ground arith

  -- What is made of the first document that a query finds.
  abbrev pub first : {A : Type 0} → List Doc → A → (Doc → A) → A
  first [] a f = a
  first (d ∷ ds) a f = f d

  module _ (w : World) (h : IsConnected w) where
    pub is_host_exist-connected :
        (host : Text)
        → is_host_exist host w
          ≡ (ret (first (collection_find w.server (host_at w) (by_host host)) false (λ _. true)), w)
    unfolding is_host_exist
    is_host_exist-connected host =
        ground (arith, open_collection-connected w database collection_hostinfo h)

    pub is_process_exist-connected :
        (sid : Text) (info : ProcessInfo)
        → is_process_exist sid info w ≡ (
          ret (
              first
                (collection_find w.server (process_at w) (by_sid sid))
                (false, info)
                (λ d. (true, (parser (bson_as_json d) info).1))),
          w,
        )
    unfolding is_process_exist
    is_process_exist-connected sid info =
        ground (arith, open_collection-connected w database collection_process h)

    pub is_process_exist_by_pid-connected :
        (pid : ℤ) (info : ProcessInfo)
        → is_process_exist_by_pid pid info w ≡ (
          ret (
              first
                (collection_find w.server (process_at w) (by_pid pid))
                (false, info)
                (λ d. (true, (parser (bson_as_json d) info).1))),
          w,
        )
    unfolding is_process_exist_by_pid
    is_process_exist_by_pid-connected pid info =
        ground (arith, open_collection-connected w database collection_process h)

    -- All documents, printed.
    pub find_all_process-connected :
        (processes : List ProcessInfo)
        → find_all_process processes w ≡ (
          ret (
            0,
            collect
                (push_json (collection_find w.server (process_at w) nil) [])
                (new_process_info junk)
                processes,
          ),
          w,
        )
    unfolding find_all_process
    find_all_process-connected processes =
        ground (arith, open_collection-connected w database collection_process h)

    pub get_process_info-connected :
        (sid : Text)
        → get_process_info sid w ≡ (
          ret (
              first
                (collection_find w.server (process_at w) (by_sid sid))
                none
                (λ d. some (parser (bson_as_json d) (new_process_info junk)).1)),
          w,
        )
    unfolding get_process_info
    get_process_info-connected sid =
        ground (arith, open_collection-connected w database collection_process h)

    pub add_process_to_cache-connected :
        (info : ProcessInfo)
        → add_process_to_cache info w ≡ (
            let (done, s) =
              collection_insert w.server (process_at w) (process_record info (getpid w.os)) in
            (ret (checked (int_of_bool done)), record w { server = s }))
    unfolding add_process_to_cache
    add_process_to_cache-connected info =
        ground (arith, open_collection-connected w database collection_process h)

    pub update_process_info-connected :
        (info : ProcessInfo)
        → update_process_info info w ≡ (
            let (done, s) =
              collection_update w.server (process_at w) (by_sid info.sid) (set_pid info.pid) in
            (ret (checked (int_of_bool done)), record w { server = s }))
    unfolding update_process_info
    update_process_info-connected info =
        ground (arith, open_collection-connected w database collection_process h)

    pub remove_process_by_stream-connected :
        (sid : Text)
        → remove_process_by_stream sid w ≡ (
            let (done, s) = collection_remove w.server (process_at w) (by_sid sid) in
            (ret (checked (int_of_bool done)), record w { server = s }))
    unfolding remove_process_by_stream
    remove_process_by_stream-connected sid =
        ground (arith, open_collection-connected w database collection_process h)

    pub remove_host-connected : remove_host w ≡ (
        let (done, s) = collection_remove w.server (host_at w) (by_host w._host) in
        (ret (checked (int_of_bool done)), record w { server = s }))
    unfolding remove_host
    remove_host-connected =
        ground (arith, open_collection-connected w database collection_hostinfo h)

    pub register_host_to_cache-connected :
        (host : Text) (port : ℤ)
        → register_host_to_cache host port w ≡ (
            let (done, s) = collection_insert w.server (host_at w) (host_record host port) in
            (ret (checked (int_of_bool done)), record w { server = s; _host = host; _port = port }))
    unfolding register_host_to_cache
    register_host_to_cache-connected host port =
        ground (arith, h.handle database collection_hostinfo)

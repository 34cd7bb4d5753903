-- ===== src/Cache/Hosts.antt =====
-- Registration of a service's host: `host_register` and `remove_host` of
-- injectService/pull/src/app/serverBiz.cpp.
use pull_stream.Base.{
  ℕ, ◌+◌, ℤ, Bool, true, false, List, [], ◌∷◌, ◌≡◌, refl, Text, text_eq, bytes, c_str, length, ltb,
  ◌<◌, ap, arith,
}
use pull_stream.Bson.{Doc, doc_get}
use pull_stream.Cache.{
  by_host, host_record, is_host_exist, register_host_to_cache, host_register, remove_host,
}
use pull_stream.Cache.Connected.{
  IsConnected, host_at, first, is_host_exist-connected, register_host_to_cache-connected,
  remove_host-connected,
}
use pull_stream.External.{External, Collection}
use pull_stream.External.Counts.{count, count-Inserted, count-Replaced}
use pull_stream.External.Laws.{MongoLaws}
use pull_stream.World.{Outcome, World, ret}

module _ ⦃x : External⦄ (laws : MongoLaws) where
  open x use {Server, collection_insert, collection_remove, collection_find}
  open laws use {docs, matches, find_lem, insert_true, remove_true, matches_utf8}

  -- How many documents of a collection carry a host.
  abbrev pub hosts : Server → Collection → Text → ℕ
  hosts s c host = count (matches (by_host host)) (docs s c)

  pub first-count : (ds : List Doc) → first ds false (λ _. true) ≡ ltb 0 (length ds)
  first-count [] = refl
  first-count (d ∷ ds) = ground arith

  pub is_host_exist-hosts :
      (w : World) (host : Text)
      → IsConnected w
      → is_host_exist host w ≡ (ret (ltb 0 (hosts w.server (host_at w) host)), w)
  is_host_exist-hosts w host h =
      rw (
        is_host_exist-connected w h host,
        find_lem w.server (host_at w) (by_host host),
        first-count,
      )

  host_record-matches :
      (host : Text) (port : ℤ) → matches (by_host host) (host_record host port) ≡ true
  unfolding doc_get text_eq bytes
  host_record-matches host port =
      (matches_utf8 (bytes "host") (c_str host) (host_record host port)).1 refl

  -- An insertion that reports success adds one registration.
  hosts-insert :
      (s : Server) (c : Collection) (host : Text) (port : ℤ)
      → (collection_insert s c (host_record host port)).0 ≡ true
      → hosts (collection_insert s c (host_record host port)).1 c host ≡ hosts s c host + 1
  hosts-insert s c host port h = ground (
    arith,
    count-Inserted (matches (by_host host)) (host_record host port)
        (insert_true s c (host_record host port) h),
    host_record-matches host port,
  )

  pub hosts-remove :
      (s : Server) (c : Collection) (host : Text)
      → (collection_remove s c (by_host host)).0 ≡ true
      → hosts s c host ≡ 1
      → hosts (collection_remove s c (by_host host)).1 c host ≡ 0
  hosts-remove s c host h one =
      let r = remove_true s c (by_host host) h (λ e. absurd (omega (arith, ap length e))) in
      ground (
        arith,
        count-Replaced (matches (by_host host)) (matches (by_host host)) (λ _. []) r,
        r.fits,
      )

  module _ (w : World) (c : IsConnected w) (host : Text) (port : ℤ) where
    host_register-hosts :
        hosts w.server (host_at w) host ≡ 0
        → host_register host port w ≡ (ret true, (register_host_to_cache host port w).1)
    unfolding host_register
    host_register-hosts none_yet =
        ground (arith, is_host_exist-hosts w host c, register_host_to_cache-connected w c host port)

    host_register_refused :
        0 < hosts w.server (host_at w) host → host_register host port w ≡ (ret false, w)
    unfolding host_register
    host_register_refused some_one = ground (arith, is_host_exist-hosts w host c)

  hosts_zero :
      (w : World) (host : Text)
      → IsConnected w
      → is_host_exist host w ≡ (ret false, w)
      → hosts w.server (host_at w) host ≡ 0
  hosts_zero w host c h = ground (arith, is_host_exist-hosts w host c)

  module _ (w : World) (c : IsConnected w) (host : Text) (port : ℤ)
      (absent : is_host_exist host w ≡ (ret false, w))
      (stored : (collection_insert w.server (host_at w) (host_record host port)).0 ≡ true) where
    abbrev pub registered : World
    registered = record w {
      server = (collection_insert w.server (host_at w) (host_record host port)).1;
      _host = host;
      _port = port;
    }

    registered_lem : host_register host port w ≡ (ret true, registered)
    registered_lem = ground (
      arith,
      host_register-hosts w c host port (hosts_zero w host c absent),
      register_host_to_cache-connected w c host port,
    )

    pub registered-hosts : hosts registered.server (host_at w) host ≡ 1
    registered-hosts =
        ground
          (arith, hosts-insert w.server (host_at w) host port stored, hosts_zero w host c absent)

    -- Where a host is not registered, and the database stores the registration, `host_register`
    -- returns true, and a later `host_register` of that host on that database, by whatever service,
    -- returns false and changes nothing.
    pub host_register_exclusive :
        (v : World) (port' : ℤ)
        → IsConnected v
        → v.db_address ≡ w.db_address
        → v.server ≡ (host_register host port w).1.server
        → ((host_register host port w).0 ≡ ret true) × (host_register host port' v ≡ (ret false, v))
    host_register_exclusive v port' cv same_db same_server = (
      ap (λ (p : Outcome Bool × World). p.0) registered_lem,
      host_register_refused v cv host port'
          (rw (same_server, registered_lem, same_db) (omega (arith, registered-hosts))),
    )

    -- The service that registered a host, and then removes it with success, leaves it free: the next
    -- `host_register` of that host returns true.
    pub host_register-remove_host :
        (port' : ℤ)
        → (collection_remove (host_register host port w).1.server (host_at w) (by_host host)).0
          ≡ true
        → (host_register host port' (remove_host (host_register host port w).1).1).0 ≡ ret true
    host_register-remove_host port' removed =
        let removed' = rw registered_lem at removed in
        let cr : IsConnected registered = record { client = c.client; handle = c.handle } in
        let cr' : IsConnected (remove_host registered).1 =
          rw (remove_host-connected registered cr)
            (record { client = c.client; handle = c.handle }) in
        rw registered_lem (
          ap (λ (p : Outcome Bool × World). p.0)
            (host_register-hosts (remove_host registered).1 cr' host port' (
              rw (remove_host-connected registered cr)
                (hosts-remove registered.server (host_at w) host removed' registered-hosts))))

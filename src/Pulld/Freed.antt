-- ===== src/Pulld/Freed.antt =====
-- What the watchdog (injectService/pulld/src/main.cpp) does to the host of a service that is dead.
use pull_stream.Base.{◌≡◌, refl, ◌≤◌, true, false, Text, arith, Bool-cases, inl, inr, ltb}
use pull_stream.Cache.{by_host, checked, database, collection_hostinfo}
use pull_stream.Cache.Connected.{IsConnected, host_at, first}
use pull_stream.Cache.Hosts.{hosts, first-count, hosts-remove}
use pull_stream.External.{External}
use pull_stream.External.Laws.{MongoLaws}
use pull_stream.Pulld
use pull_stream.Pulld.{remove_host, free_host}
use pull_stream.Mongo.{int_of_bool}
use pull_stream.World.{World, Outcome, ret}

module _ ⦃x : External⦄ (laws : MongoLaws) where
  open x use {collection_remove, collection_find}
  open laws use {find_lem}

  module _ (w : World) (c : IsConnected w) (host : Text) where
    watched_lem :
        Pulld.is_host_exist host w.db_address w
        ≡ (ret (first (collection_find w.server (host_at w) (by_host host)) false (λ _. true)), w)
    unfolding Pulld.is_host_exist pull_stream.Mongo.connect pull_stream.Mongo.collection
        pull_stream.Mongo.find_one
    watched_lem = ground (arith, c.client, c.handle database collection_hostinfo)

    watched-hosts :
        Pulld.is_host_exist host w.db_address w
        ≡ (ret (ltb 0 (hosts laws w.server (host_at w) host)), w)
    watched-hosts = rw (watched_lem, find_lem w.server (host_at w) (by_host host), first-count)

    abbrev removed : World
    removed = record w { server = (collection_remove w.server (host_at w) (by_host host)).1 }

    remove_host-removed : remove_host host w.db_address w ≡ (
      ret (checked (int_of_bool (collection_remove w.server (host_at w) (by_host host)).0)),
      removed,
    )
    unfolding remove_host pull_stream.Mongo.connect pull_stream.Mongo.collection
        pull_stream.Mongo.remove
    remove_host-removed = ground (arith, c.client, c.handle database collection_hostinfo)

    -- The database reports that it removes the host, if it is there.
    abbrev pub Removes : Type 0
    Removes = (collection_remove w.server (host_at w) (by_host host)).0 ≡ true

    -- What `free_host` leaves: no registration of the host, and the rest as it was.
    pub record Freed (r : Outcome (Unit {0}) × World) : Type 0 where
      pub result : r.0 ≡ ret tt
      pub none_left : hosts laws r.1.server (host_at w) host ≡ 0
      pub os : r.1.os ≡ w.os

    free_host-removed :
        ltb 0 (hosts laws w.server (host_at w) host) ≡ true
        → free_host host w.db_address w ≡ (ret tt, removed)
    unfolding free_host
    free_host-removed there = ground (arith, watched-hosts, remove_host-removed, there)

    free_host-absent :
        ltb 0 (hosts laws w.server (host_at w) host) ≡ false
        → free_host host w.db_address w ≡ (ret tt, w)
    unfolding free_host
    free_host-absent absent = ground (arith, watched-hosts, absent)

    -- On a connected database `free_host` returns, and changes nothing but the database.
    pub free_host-ret :
        free_host host w.db_address w
        ≡ (ret tt, record w { server = (free_host host w.db_address w).1.server })
    free_host-ret = elim (Bool-cases (ltb 0 (hosts laws w.server (host_at w) host))) [
      | inl there ↦ rw (free_host-removed there) refl
      | inr absent ↦ rw (free_host-absent absent) refl
    ]

    -- On a connected database that reports removals, with at most one registration of the host,
    -- `free_host` returns and leaves no registration of the host and the kernel as it was.
    pub free_host-Freed :
        hosts laws w.server (host_at w) host ≤ 1 → Removes → Freed (free_host host w.db_address w)
    free_host-Freed one done = elim (Bool-cases (ltb 0 (hosts laws w.server (host_at w) host))) [
      | inl there ↦
          let n : hosts laws w.server (host_at w) host ≡ 1 = ground arith in
          rw (free_host-removed there) (record {
            result = refl;
            none_left = hosts-remove laws w.server (host_at w) host done n;
            os = refl;
          })
      | inr absent ↦
          let n : hosts laws w.server (host_at w) host ≡ 0 = ground arith in
          rw (free_host-absent absent) (record { result = refl; none_left = n; os = refl })
    ]

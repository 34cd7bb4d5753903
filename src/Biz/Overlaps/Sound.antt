-- ===== src/Biz/Overlaps/Sound.antt =====
-- The uniqueness of the records on a service with one worker, call by call
-- (injectService/pull/src/app/serverBiz.cpp and processCommonApi.cpp).
use pull_stream.Base.{
  is_negative, some, List, [], ◌∷◌, ◌≡◌, refl, sym, ap, ◌∙◌, Text, arith, Bool-cases, inl, inr,
}
use mathlib.Core.Path.{subst}
use pull_stream.Bson.{Doc}
use pull_stream.Cache.{process_record, by_sid, set_pid}
use pull_stream.Cache.Connected.{
  process_at, is_process_exist-connected, is_process_exist_by_pid-connected,
  add_process_to_cache-connected, update_process_info-connected, get_process_info-connected,
  remove_process_by_stream-connected, find_all_process-connected,
}
use pull_stream.Cache.Streams.{
  streams, insert-IsUnique, remove-IsUnique, update-IsUnique, streams-update,
}
use pull_stream.Common.{
  EventType, create_process, remove_process, reload_process, terminate_process, ProcessInfo,
  new_process_info,
}
use pull_stream.External.{External}
use pull_stream.External.Laws.{MongoLaws}
use pull_stream.Process.{check_system_process_exist, ffmpeg_command, sigkill}
use pull_stream.Process.Calls.{cached}
use pull_stream.Process.Unique.{IsSound, os-IsSound, server-IsSound}
use pull_stream.World.{World, Outcome, ret, aborted, exited, undefined}
use pull_stream.Biz.Overlaps.{
  Place, idle, looking, forking, storing, reloading, reforking, updating, stopping, removing,
  killing, Look, resting, polling, searching, reviving, renewing, begin, call, look, Overlap,
}

module _ ⦃x : External⦄ (laws : MongoLaws) where
  open x use {
    Os, getpid, collection_remove, collection_update, fork, kill, junk, collection_find,
    collection_insert,
  }
  open laws use {find_lem}

  -- Between the look-up and the insertion the stream has no record.
  abbrev pub Absent : Place → World → Type 0
  Absent idle w = Unit
  Absent (looking p) w = Unit
  Absent (forking p) w = streams laws w.server (process_at w) p.sid ≡ 0
  Absent (storing p) w = streams laws w.server (process_at w) p.sid ≡ 0
  Absent (reloading sid) w = Unit
  Absent (reforking p) w = Unit
  Absent (updating p) w = Unit
  Absent (stopping p) w = Unit
  Absent (removing p) w = Unit
  Absent (killing p) w = Unit

  -- The other thread leaves the number of records of each stream, and the cache sound.
  record Leaves (w u : World) : Type 0 where
    sound : IsSound laws u
    same :
        (sid : Text)
        → streams laws u.server (process_at u) sid ≡ streams laws w.server (process_at w) sid

  Leaves-Absent : (p : Place) (w u : World) → Leaves w u → Absent p w → Absent p u
  Leaves-Absent idle w u k a = tt
  Leaves-Absent (looking p) w u k a = tt
  Leaves-Absent (forking p) w u k a = k.same p.sid ∙ a
  Leaves-Absent (storing p) w u k a = k.same p.sid ∙ a
  Leaves-Absent (reloading sid) w u k a = tt
  Leaves-Absent (reforking p) w u k a = tt
  Leaves-Absent (updating p) w u k a = tt
  Leaves-Absent (stopping p) w u k a = tt
  Leaves-Absent (removing p) w u k a = tt
  Leaves-Absent (killing p) w u k a = tt

  stays : (w : World) → IsSound laws w → Leaves w w
  stays w h = record { sound = h; same = λ sid. refl }

  with_os : (w : World) (o : Os) → IsSound laws w → Leaves w (record w { os = o })
  with_os w o h = record { sound = os-IsSound laws w o h; same = λ sid. refl }

  behind : (w : World) {v u : World} → v ≡ u → Leaves w u → Leaves w v
  behind w e k = subst (λ v. Leaves w v) (sym e) k

  updated_at : (p : ProcessInfo) (w : World) → World
  updated_at p w = record w {
    server = (collection_update w.server (process_at w) (by_sid p.sid) (set_pid p.pid)).1;
  }

  updates : (p : ProcessInfo) (w : World) → IsSound laws w → Leaves w (updated_at p w)
  unfolding updated_at
  updates p w h = record {
    sound =
        server-IsSound laws w _ h
          (update-IsUnique laws w.server (process_at w) (by_sid p.sid) p.pid h.unique);
    same = λ sid. streams-update laws w.server (process_at w) (by_sid p.sid) p.pid sid;
  }

  look-Leaves : (l : Look) (w : World) → IsSound laws w → Leaves w (look l w).1
  unfolding look check_system_process_exist updated_at
  look-Leaves resting w h =
      let e : (look resting w).1 ≡ w =
        ground (arith, find_all_process-connected w h.connected []) in
      behind w e (stays w h)
  look-Leaves (polling []) w h = stays w h
  look-Leaves (polling (p ∷ ps)) w h = with_os w (kill w.os p.pid 0).1 h
  look-Leaves (searching pid ps) w h =
      let found = is_process_exist_by_pid-connected w h.connected pid (new_process_info junk) in
      let e : (look (searching pid ps) w).1 ≡ w = ground (arith, found) in behind w e (stays w h)
  look-Leaves (reviving p ps) w h = with_os w (fork w.os (ffmpeg_command p)).1 h
  look-Leaves (renewing p ps) w h =
      let e : (look (renewing p ps) w).1 ≡ updated_at p w =
        ground (arith, update_process_info-connected w h.connected p) in
      behind w e (updates p w h)

  -- What the worker's next call leaves.
  record Called (q : Place) (u : World) : Type 0 where
    sound : IsSound laws u
    absent : Absent q u

  found_none :
      (w : World) (sid : Text)
      → collection_find w.server (process_at w) (by_sid sid) ≡ []
      → streams laws w.server (process_at w) sid ≡ 0
  found_none w sid e = rw (sym (find_lem w.server (process_at w) (by_sid sid)), e)

  -- The same of a call, if it returns.
  abbrev Good : Outcome Place × World → Type 0
  Good r = elim r.0 as (λ _. Type 0) [
    | ret q ↦ Called q r.1
    | aborted ↦ Unit
    | exited n ↦ Unit
    | undefined ↦ Unit
  ]

  known : {r r' : Outcome Place × World} → r ≡ r' → Good r' → Good r
  known e k = subst (λ r. Good r) (sym e) k

  -- A call after which nothing is between look-up and insertion.
  plain : (q : Place) (w u : World) → Leaves w u → Absent q u → Called q u
  plain q w u k a = record { sound = k.sound; absent = a }

  call-looking : (p : ProcessInfo) (w : World) → IsSound laws w → Good (call (looking p) w)
  unfolding call
  call-looking p w h =
      let found = is_process_exist-connected w h.connected p.sid (new_process_info junk) in
      go (collection_find w.server (process_at w) (by_sid p.sid)) refl
    where
      go :
          (ds : List Doc)
          → collection_find w.server (process_at w) (by_sid p.sid) ≡ ds
          → Good (call (looking p) w)
      go [] e =
          let there = is_process_exist-connected w h.connected p.sid (new_process_info junk) in
          let r : call (looking p) w ≡ (ret (forking p), w) = ground (arith, there, e) in
          known r (record { sound = h; absent = found_none w p.sid e })
      go (d ∷ ds) e =
          let there = is_process_exist-connected w h.connected p.sid (new_process_info junk) in
          let r : call (looking p) w ≡ (ret idle, w) = ground (arith, there, e) in
          known r (record { sound = h; absent = tt })

  call-forking :
      (p : ProcessInfo) (w : World)
      → IsSound laws w
      → Absent (forking p) w
      → Good (call (forking p) w)
  unfolding call
  call-forking p w h a =
      let (pid, o) = fork w.os (ffmpeg_command p) in
      let k = os-IsSound laws w o h in
      elim (Bool-cases (is_negative pid)) [
        | inl failed ↦
            let r : call (forking p) w ≡ (ret idle, record w { os = o }) = ground (arith, failed) in
            known r (record { sound = k; absent = tt })
        | inr forked ↦
            let r : call (forking p) w
                ≡ (ret (storing (record p { pid = pid })), record w { os = o }) =
              ground (arith, forked) in
            known r (record { sound = k; absent = a })
      ]

  call-storing :
      (p : ProcessInfo) (w : World)
      → IsSound laws w
      → Absent (storing p) w
      → Good (call (storing p) w)
  unfolding call
  call-storing p w h a =
      let u : World = record w {
        server = (collection_insert w.server (process_at w) (process_record p (getpid w.os))).1;
      } in
      let r : call (storing p) w ≡ (ret idle, u) =
        ground (arith, add_process_to_cache-connected w h.connected p) in
      known r (record {
        sound =
            server-IsSound laws w _ h
              (insert-IsUnique laws w.server (process_at w) p (getpid w.os) a h.unique);
        absent = tt;
      })

  call-reloading : (sid : Text) (w : World) → IsSound laws w → Good (call (reloading sid) w)
  unfolding call
  call-reloading sid w h = go (collection_find w.server (process_at w) (by_sid sid)) refl
    where
      go :
          (ds : List Doc)
          → collection_find w.server (process_at w) (by_sid sid) ≡ ds
          → Good (call (reloading sid) w)
      go [] e =
          let there = is_process_exist-connected w h.connected sid (new_process_info junk) in
          let r : call (reloading sid) w ≡ (ret idle, w) = ground (arith, there, e) in
          known r (record { sound = h; absent = tt })
      go (d ∷ ds) e =
          let there = is_process_exist-connected w h.connected sid (new_process_info junk) in
          let r : call (reloading sid) w ≡ (ret (reforking (cached d)), w) =
            ground (arith, there, e) in
          known r (record { sound = h; absent = tt })

  call-reforking : (p : ProcessInfo) (w : World) → IsSound laws w → Good (call (reforking p) w)
  unfolding call
  call-reforking p w h =
      let (pid, o) = fork w.os (ffmpeg_command p) in
      let k = os-IsSound laws w o h in
      elim (Bool-cases (is_negative pid)) [
        | inl failed ↦
            let r : call (reforking p) w ≡ (ret idle, record w { os = o }) =
              ground (arith, failed) in
            known r (record { sound = k; absent = tt })
        | inr forked ↦
            let r : call (reforking p) w
                ≡ (ret (updating (record p { pid = pid })), record w { os = o }) =
              ground (arith, forked) in
            known r (record { sound = k; absent = tt })
      ]

  call-updating : (p : ProcessInfo) (w : World) → IsSound laws w → Good (call (updating p) w)
  unfolding call updated_at
  call-updating p w h =
      let r : call (updating p) w ≡ (ret idle, updated_at p w) =
        ground (arith, update_process_info-connected w h.connected p) in
      known r (record { sound = (updates p w h).sound; absent = tt })

  call-stopping : (p : ProcessInfo) (w : World) → IsSound laws w → Good (call (stopping p) w)
  unfolding call
  call-stopping p w h = go (collection_find w.server (process_at w) (by_sid p.sid)) refl
    where
      go :
          (ds : List Doc)
          → collection_find w.server (process_at w) (by_sid p.sid) ≡ ds
          → Good (call (stopping p) w)
      go [] e =
          let there = get_process_info-connected w h.connected p.sid in
          let r : call (stopping p) w ≡ (ret idle, w) = ground (arith, there, e) in
          known r (record { sound = h; absent = tt })
      go (d ∷ ds) e =
          let there = get_process_info-connected w h.connected p.sid in
          let r : call (stopping p) w ≡ (ret (removing (cached d)), w) = ground (arith, there, e) in
          known r (record { sound = h; absent = tt })

  call-removing : (p : ProcessInfo) (w : World) → IsSound laws w → Good (call (removing p) w)
  unfolding call
  call-removing p w h =
      let u : World = record w {
        server = (collection_remove w.server (process_at w) (by_sid p.sid)).1;
      } in
      let r : call (removing p) w ≡ (ret (killing p), u) =
        ground (arith, remove_process_by_stream-connected w h.connected p.sid) in
      known r (record {
        sound =
            server-IsSound laws w _ h
              (remove-IsUnique laws w.server (process_at w) (by_sid p.sid) h.unique);
        absent = tt;
      })

  call-Good : (p : Place) (w : World) → IsSound laws w → Absent p w → Good (call p w)
  unfolding call
  call-Good idle w h a = record { sound = h; absent = tt }
  call-Good (looking p) w h a = call-looking p w h
  call-Good (forking p) w h a = call-forking p w h a
  call-Good (storing p) w h a = call-storing p w h a
  call-Good (reloading sid) w h a = call-reloading sid w h
  call-Good (reforking p) w h a = call-reforking p w h
  call-Good (updating p) w h a = call-updating p w h
  call-Good (stopping p) w h a = call-stopping p w h
  call-Good (removing p) w h a = call-removing p w h
  call-Good (killing p) w h a = record {
    sound = os-IsSound laws w (kill w.os p.pid sigkill).1 h;
    absent = tt;
  }

  begin-Absent :
      (t : EventType) (info : ProcessInfo) (p : Place) (w : World)
      → begin t info ≡ some p
      → Absent p w
  begin-Absent create_process info p w e =
      let first' : looking info ≡ p = cc e in subst (λ q. Absent q w) first' tt
  begin-Absent reload_process info p w e =
      let first' : reloading info.sid ≡ p = cc e in subst (λ q. Absent q w) first' tt
  begin-Absent remove_process info p w e =
      let first' : stopping info ≡ p = cc e in subst (λ q. Absent q w) first' tt
  begin-Absent terminate_process info p w e = cc e

  Overlap-keeps :
      {w v : World} {p' : Place} {l l' : Look} {p : Place}
      → Overlap w p l v p' l'
      → IsSound laws w
      → Absent p w
      → IsSound laws v
  Overlap-keeps Overlap.here h a = h
  Overlap-keeps {w} (Overlap.take ev {p = p} e rest) h a =
      Overlap-keeps rest h (begin-Absent ev.type ev.process p w e)
  Overlap-keeps {w} {p = p} (Overlap.work e rest) h a =
      let k = subst (λ r. Good r) e (call-Good p w h a) in Overlap-keeps rest k.sound k.absent
  Overlap-keeps {w} {p = p} (Overlap.schedule {l = l} e rest) h a =
      let k = subst (λ u. Leaves w u) (ap (λ r. r.1) e) (look-Leaves l w h) in
      Overlap-keeps rest k.sound (Leaves-Absent p w _ k a)

  -- On a service with one worker and a database whose finds do not fail, whatever events the worker
  -- takes and in whatever order its calls on the database and the kernel come between those of the
  -- schedule thread's look for dead processes: a cache with at most one record for each stream stays so, at every moment.
  pub Overlap-IsSound :
      {w v : World} {p : Place} {l : Look}
      → Overlap w idle resting v p l
      → IsSound laws w
      → IsSound laws v
  Overlap-IsSound t h = Overlap-keeps t h tt

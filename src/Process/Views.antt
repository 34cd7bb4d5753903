-- ===== src/Process/Views.antt =====
-- The streams that the database has a record of, as the set that Process/Registry speaks of.
use pull_stream.Base.{
  All, ◌+◌, ◌<◌, ℤ, IsInt32, true, false, List, [], ◌∷◌, ◌≡◌, ◌↔◌, refl, ap, sym, ◌∙◌, Text,
  text_eq_iff, c_str, length, ltb, arith, if◌then◌else◌, bytes,
}
use pull_stream.Bson.{Doc}
use pull_stream.Cache.{by_sid, process_record}
use pull_stream.Cache.Connected.{IsConnected, process_at}
use pull_stream.Cache.Records.{All-keep, IsRecord}
use pull_stream.Cache.Streams.{streams, IsUnique, matches-process_record}
use pull_stream.Common.{ErrorCode, ProcessInfo}
use pull_stream.External.{External, Collection}
use pull_stream.External.Counts.{count-Inserted, count-Replaced}
use pull_stream.External.Laws.{MongoLaws, JsonLaws}
use pull_stream.Process.Calls.{with_os}
use pull_stream.Process.Registry.{Registry, same_id, Request, Registers}
use pull_stream.World.{World, Outcome, ret}

module _ ⦃x : External⦄ where
  open x use {
    Os, Server, collection_insert, collection_update, collection_remove, collection_find, fork,
    kill, getpid, junk,
  }

  -- The database takes effect and says so, and pids are `int`s.
  pub record IsReliable : Type 0 where
    pub inserts : (s : Server) (c : Collection) (d : Doc) → (collection_insert s c d).0 ≡ true
    pub removes : (s : Server) (c : Collection) (q : Doc) → (collection_remove s c q).0 ≡ true
    pub child_pid : (o : Os) (command : Text) → IsInt32 (fork o command).0
    pub own_pid : (o : Os) → IsInt32 (getpid o)

  module _ (db : MongoLaws) (json : JsonLaws) where
    open db use {
      docs, matches, find_lem, insert_true, insert_any, remove_true, remove_any, update_any,
      matches_utf8,
    }

    -- A connected service, whose cache has records only, and one at most for each stream.
    pub record IsConsistent (w : World) : Type 0 where
      pub connected : IsConnected w
      pub unique : IsUnique db (process_at w) w.server
      pub records : All (IsRecord db json) (docs w.server (process_at w))

    -- The streams that the database has a record of.
    abbrev pub view : World → Registry
    view w sid = ltb 0 (streams db w.server (process_at w) sid)

    -- A call that returns does to the streams what the specification says.
    pub record Refines (w : World) (q : Request) (r : Outcome ErrorCode × World) : Type 0 where
      pub code : ErrorCode
      pub result : r.0 ≡ ret code
      pub refines : Registers (view w) q code (view r.1)
      pub consistent : IsConsistent r.1

    pub streams-inserted :
        (s : Server) (c : Collection) (info : ProcessInfo) (me : ℤ)
        → (collection_insert s c (process_record info me)).0 ≡ true
        → (t : Text)
        → streams db (collection_insert s c (process_record info me)).1 c t
          ≡ streams db s c t + (if same_id info.sid t then 1 else 0)
    streams-inserted s c info me h t = ground (
      arith,
      count-Inserted (matches (by_sid t)) (process_record info me)
          (insert_true s c (process_record info me) h),
      matches-process_record db info me t,
      text_eq_iff (c_str info.sid) (c_str t),
    )

    pub matches-same_id :
        (d : Doc) (sid t : Text)
        → matches (by_sid sid) d ≡ true
        → (matches (by_sid t) d ≡ true) ↔ (c_str sid ≡ c_str t)
    matches-same_id d sid t h =
        let a = (matches_utf8 (bytes "sid") (c_str sid) d).0 h in
        let b = matches_utf8 (bytes "sid") (c_str t) d in
        ((λ e. cc (a, b.0 e)), (λ e. b.1 (a ∙ rw e refl)))

    pub streams-removed :
        (s : Server) (c : Collection) (sid : Text)
        → (collection_remove s c (by_sid sid)).0 ≡ true
        → 0 < streams db s c sid
        → (t : Text)
        → streams db (collection_remove s c (by_sid sid)).1 c t + (if same_id sid t then 1 else 0)
          ≡ streams db s c t
    streams-removed s c sid h some_one t =
        let r = remove_true s c (by_sid sid) h (λ e. absurd (omega (arith, ap length e))) in
        ground (
          arith,
          count-Replaced (matches (by_sid t)) (matches (by_sid sid)) (λ _. []) r,
          matches-same_id r.doc sid t r.fits,
          text_eq_iff (c_str sid) (c_str t),
        )

    module _ (w : World) (k : IsConsistent w) (sid : Text) where
      pub view-absent :
          collection_find w.server (process_at w) (by_sid sid) ≡ [] → view w sid ≡ false
      view-absent e =
          ground (arith, ap length (sym (find_lem w.server (process_at w) (by_sid sid)) ∙ e))

      pub view-found :
          (d : Doc) (ds : List Doc)
          → collection_find w.server (process_at w) (by_sid sid) ≡ d ∷ ds
          → view w sid ≡ true
      view-found d ds e =
          ground (arith, ap length (sym (find_lem w.server (process_at w) (by_sid sid)) ∙ e))

      pub found-IsRecord :
          (d : Doc) (ds : List Doc)
          → collection_find w.server (process_at w) (by_sid sid) ≡ d ∷ ds
          → (matches (by_sid sid) d ≡ true) × IsRecord db json d
      found-IsRecord d ds e =
          All-keep (IsRecord db json) (matches (by_sid sid)) (docs w.server (process_at w))
            k.records (sym (find_lem w.server (process_at w) (by_sid sid)) ∙ e)

    pub Refines-same :
        (w : World) (o : Os) (q : Request) (code : ErrorCode)
        → IsConsistent w
        → Registers (view w) q code (view w)
        → Refines w q (ret code, with_os w o)
    Refines-same w o q code k g = record {
      code = code;
      result = refl;
      refines = g;
      consistent = record {
        connected = record { client = k.connected.client; handle = k.connected.handle };
        unique = k.unique;
        records = k.records;
      };
    }

-- ===== src/Cache/Streams.antt =====
-- What the cache holds for a stream: how many records, and what `get_process_info` reads back.
use pull_stream.Base.{
  ℕ, ◌+◌, ◌<◌, ◌≤◌, ℤ, IsInt32, true, [], ◌∷◌, ◌≡◌, ◌↔◌, refl, ap, inl, inr, ◌⊎◌, Text, text_eq,
  bytes, c_str, length, arith,
}
use pull_stream.Bson.{int32, Doc, doc_get}
use pull_stream.Cache.{by_sid, process_record, parser, set_pid}
use pull_stream.Common.{error_ok, ProcessInfo}
use pull_stream.External.{bson_as_json, External, Collection}
use pull_stream.External.Counts.{count, count-Inserted, count-Replaced}
use pull_stream.External.Laws.{MongoLaws, JsonLaws}

module _ ⦃x : External⦄ where
  open x use {Server, collection_insert, collection_remove, collection_update}

  -- The texts of a `process_info` are valid UTF-8 with no null byte, and its numbers are `int`s.
  pub record IsStorable (laws : JsonLaws) (info : ProcessInfo) : Type 0 where
    pub sid_text : (laws.is_utf8 info.sid ≡ true) × (c_str info.sid ≡ info.sid)
    pub src_text : (laws.is_utf8 info.src_url ≡ true) × (c_str info.src_url ≡ info.src_url)
    pub dest_text : (laws.is_utf8 info.dest_url ≡ true) × (c_str info.dest_url ≡ info.dest_url)
    pub host_text : (laws.is_utf8 info.host ≡ true) × (c_str info.host ≡ info.host)
    pub active_text : laws.is_utf8 (bytes "active") ≡ true
    pub type_int : IsInt32 info.type
    pub pid_int : IsInt32 info.pid

  module _ (laws : JsonLaws) (info : ProcessInfo) (me : ℤ) (ok : IsStorable laws info)
      (me_int : IsInt32 me) where
    open laws use {parse-as_json, read_utf8, read_int32, root_of}

    -- `parser` reads back what `add_process_to_cache` wrote, whatever `item` held.
    pub parser-process_record :
        (item : ProcessInfo)
        → parser (bson_as_json (process_record info me)) item
          ≡ (error_ok, record info { ppid = me; status = bytes "active" })
    unfolding parser doc_get text_eq bytes
    parser-process_record item =
        let d = process_record info me in
        ground (
          arith,
          ok.sid_text,
          ok.src_text,
          ok.dest_text,
          ok.host_text,
          parse-as_json d,
          read_utf8 d (bytes "src_url") (c_str info.src_url) (rw (ok.src_text.1) ok.src_text.0)
              refl,
          read_utf8 d (bytes "dest_url") (c_str info.dest_url) (rw (ok.dest_text.1) ok.dest_text.0)
              refl,
          read_utf8 d (bytes "sid") (c_str info.sid) (rw (ok.sid_text.1) ok.sid_text.0) refl,
          read_int32 d (bytes "type") info.type ok.type_int refl,
          read_utf8 d (bytes "status") (bytes "active") ok.active_text refl,
          read_utf8 d (bytes "host") (c_str info.host) (rw (ok.host_text.1) ok.host_text.0) refl,
          read_int32 d (bytes "pid") info.pid ok.pid_int refl,
          read_int32 d (bytes "ppid") me me_int refl,
        )

  module _ (laws : MongoLaws) where
    open laws use {
      docs, matches, insert_any, insert_true, remove_any, remove_true, update_any, matches_utf8,
      updated, updated_set,
    }

    -- How many documents of a collection carry a stream's id.
    abbrev pub streams : Server → Collection → Text → ℕ
    streams s c sid = count (matches (by_sid sid)) (docs s c)

    -- The records of a stream are found under its id, and under no other.
    pub matches-process_record :
        (info : ProcessInfo) (me : ℤ) (sid : Text)
        → (matches (by_sid sid) (process_record info me) ≡ true) ↔ (c_str info.sid ≡ c_str sid)
    unfolding doc_get text_eq bytes
    matches-process_record info me sid =
        let m = matches_utf8 (bytes "sid") (c_str sid) (process_record info me) in
        ((λ e. cc (m.0 e)), (λ e. m.1 (rw e refl)))

    -- `$set: {pid: …}` leaves the stream's id.
    matches-updated :
        (pid : ℤ) (d : Doc) (sid : Text)
        → matches (by_sid sid) (updated (set_pid pid) d) ≡ matches (by_sid sid) d
    unfolding text_eq bytes
    matches-updated pid d sid = ground (
      arith,
      matches_utf8 (bytes "sid") (c_str sid) (updated (set_pid pid) d),
      matches_utf8 (bytes "sid") (c_str sid) d,
      updated_set (bytes "pid") (bytes "sid") (int32 pid) d,
    )

    -- A stream's records after the three calls, if the call took effect and if it did not.
    streams-insert :
        (s : Server) (c : Collection) (info : ProcessInfo) (me : ℤ) (sid : Text)
        → let s' = (collection_insert s c (process_record info me)).1 in
          (streams s' c sid ≡ streams s c sid)
          ⊎ ((c_str info.sid ≡ c_str sid) × (streams s' c sid ≡ streams s c sid + 1))
    streams-insert s c info me sid = elim (insert_any s c (process_record info me)) [
      | inl same ↦ inl (ap (λ ds. count (matches (by_sid sid)) ds) same)
      | inr i ↦ ground (
        arith,
        count-Inserted (matches (by_sid sid)) (process_record info me) i,
        matches-process_record info me sid,
      )
    ]

    pub streams-insert_stored :
        (s : Server) (c : Collection) (info : ProcessInfo) (me : ℤ)
        → (collection_insert s c (process_record info me)).0 ≡ true
        → streams (collection_insert s c (process_record info me)).1 c info.sid
          ≡ streams s c info.sid + 1
    streams-insert_stored s c info me h = ground (
      arith,
      count-Inserted (matches (by_sid info.sid)) (process_record info me)
          (insert_true s c (process_record info me) h),
      (matches-process_record info me info.sid).1 refl,
    )

    pub streams-remove :
        (s : Server) (c : Collection) (q : Doc) (sid : Text)
        → streams (collection_remove s c q).1 c sid ≤ streams s c sid
    streams-remove s c q sid = elim (remove_any s c q) [
      | inl same ↦ rw same (omega arith)
      | inr r ↦ omega (arith, count-Replaced (matches (by_sid sid)) (matches q) (λ _. []) r)
    ]

    pub streams-remove_done :
        (s : Server) (c : Collection) (sid : Text)
        → (collection_remove s c (by_sid sid)).0 ≡ true
        → 0 < streams s c sid
        → streams (collection_remove s c (by_sid sid)).1 c sid + 1 ≡ streams s c sid
    streams-remove_done s c sid h some_one =
        let r = remove_true s c (by_sid sid) h (λ e. absurd (omega (arith, ap length e))) in
        ground
          (arith, count-Replaced (matches (by_sid sid)) (matches (by_sid sid)) (λ _. []) r, r.fits)

    pub streams-update :
        (s : Server) (c : Collection) (q : Doc) (pid : ℤ) (sid : Text)
        → streams (collection_update s c q (set_pid pid)).1 c sid ≡ streams s c sid
    streams-update s c q pid sid = elim (update_any s c q (set_pid pid)) [
      | inl same ↦ rw same
      | inr r ↦ ground (
        arith,
        count-Replaced (matches (by_sid sid)) (matches q) (λ d. updated (set_pid pid) d ∷ []) r,
        matches-updated pid r.doc sid,
      )
    ]

    -- No stream has two records.
    pub record IsUnique (c : Collection) (s : Server) : Type 0 where
      pub at_most_one : (sid : Text) → streams s c sid ≤ 1

    pub insert-IsUnique :
        (s : Server) (c : Collection) (info : ProcessInfo) (me : ℤ)
        → streams s c info.sid ≡ 0
        → IsUnique c s
        → IsUnique c (collection_insert s c (process_record info me)).1
    insert-IsUnique s c info me absent u = record {
      at_most_one = λ sid. elim (streams-insert s c info me sid) [
        | inl same ↦ omega (arith, u.at_most_one sid)
        | inr (e, more) ↦ let gone : streams s c sid ≡ 0 = rw (← e) absent in omega arith
      ];
    }

    pub remove-IsUnique :
        (s : Server) (c : Collection) (q : Doc)
        → IsUnique c s
        → IsUnique c (collection_remove s c q).1
    remove-IsUnique s c q u = record {
      at_most_one = λ sid. omega (arith, u.at_most_one sid, streams-remove s c q sid);
    }

    pub update-IsUnique :
        (s : Server) (c : Collection) (q : Doc) (pid : ℤ)
        → IsUnique c s
        → IsUnique c (collection_update s c q (set_pid pid)).1
    update-IsUnique s c q pid u = record {
      at_most_one = λ sid. omega (arith, u.at_most_one sid, streams-update s c q pid sid);
    }

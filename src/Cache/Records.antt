-- ===== src/Cache/Records.antt =====
-- Documents that `add_process_to_cache` wrote, with whatever pid `update_process_info` gave them.
use pull_stream.Base.{
  All, All-append, All-parts, ◌↔◌, ℤ, IsInt32, Bool, true, false, List, [], ◌∷◌, ◌++◌, ◌≡◌, inl,
  inr, refl, ◌∙◌, Text, bytes, text_eq, text_eq_iff, c_str, some, arith, if◌then◌else◌, Bool-cases,
}
use pull_stream.Bson.{Doc, int32, doc_get}
use pull_stream.Cache.{parser, process_record, set_pid, by_sid}
use pull_stream.Cache.Streams.{IsStorable}
use pull_stream.Common.{error_ok, ProcessInfo}
use pull_stream.External.{bson_as_json, External}
use pull_stream.External.Laws.{MongoLaws, JsonLaws, keep, Inserted, Replaced}

module _ (P : Doc → Type 0) where
  pub All-Inserted :
      (d : Doc) {before after : List Doc}
      → Inserted d before after
      → P d
      → All P before
      → All P after
  All-Inserted d i p h =
      let (l, r) = All-parts P i.pre i.post (rw (← i.was) h) in
      rw i.is (All-append P i.pre (d ∷ i.post) l (p, r))

  pub All-Replaced :
      (q : Doc → Bool) (new : Doc → List Doc) {before after : List Doc}
      → Replaced q new before after
      → ((d : Doc) → P d → All P (new d))
      → All P before
      → All P after
  All-Replaced q new i f h =
      let (l, r) = All-parts P i.pre (i.doc ∷ i.post) (rw (← i.was) h) in
      rw i.is (
        All-append P i.pre (new i.doc ++ i.post) l
          (All-append P (new i.doc) i.post (f i.doc r.0) r.1))

  -- What is found satisfies the query, and what all documents satisfy.
  pub All-keep :
      (q : Doc → Bool) (ds : List Doc) {d : Doc} {rest : List Doc}
      → All P ds
      → keep q ds ≡ d ∷ rest
      → (q d ≡ true) × P d
  All-keep q [] h e = cc
  All-keep q (a ∷ ds) {d} {rest} h e = elim (Bool-cases (q a)) [
    | inl yes' ↦ let same : a ≡ d = cc in (rw (← same) yes', rw (← same) (h.0))
    | inr no' ↦ All-keep q ds {d = d} {rest = rest} h.1 (rw (← e) (rw no'))
  ]

module _ ⦃x : External⦄ (db : MongoLaws) (json : JsonLaws) where
  open db use {matches, matches_utf8, updated, updated_set}
  open json use {parse-as_json, read_utf8, read_int32}

  -- A document with the fields of a record.
  pub record IsRecord (d : Doc) : Type 0 where
    pub info : ProcessInfo
    pub me : ℤ
    pub storable : IsStorable json info
    pub me_int : IsInt32 me
    pub fields : (k : Text) → doc_get d k ≡ doc_get (process_record info me) k

  pub process_record-IsRecord :
      (info : ProcessInfo) (me : ℤ)
      → IsStorable json info
      → IsInt32 me
      → IsRecord (process_record info me)
  process_record-IsRecord info me ok i = record {
    info = info;
    me = me;
    storable = ok;
    me_int = i;
    fields = λ k. refl;
  }

  -- What `parser` makes of a record.
  abbrev pub read_back : {d : Doc} → IsRecord d → ProcessInfo
  read_back r = record r.info { ppid = r.me; status = bytes "active" }

  pub parser-IsRecord :
      (d : Doc) (r : IsRecord d) (item : ProcessInfo)
      → parser (bson_as_json d) item ≡ (error_ok, read_back r)
  unfolding parser doc_get text_eq bytes
  parser-IsRecord d r item =
      let ok = r.storable in
      let info = r.info in
      ground (
        arith,
        ok.sid_text,
        ok.src_text,
        ok.dest_text,
        ok.host_text,
        parse-as_json d,
        read_utf8 d (bytes "src_url") (c_str info.src_url) (rw (ok.src_text.1) ok.src_text.0)
            (r.fields (bytes "src_url")),
        read_utf8 d (bytes "dest_url") (c_str info.dest_url) (rw (ok.dest_text.1) ok.dest_text.0)
            (r.fields (bytes "dest_url")),
        read_utf8 d (bytes "sid") (c_str info.sid) (rw (ok.sid_text.1) ok.sid_text.0)
            (r.fields (bytes "sid")),
        read_int32 d (bytes "type") info.type ok.type_int (r.fields (bytes "type")),
        read_utf8 d (bytes "status") (bytes "active") ok.active_text (r.fields (bytes "status")),
        read_utf8 d (bytes "host") (c_str info.host) (rw (ok.host_text.1) ok.host_text.0)
            (r.fields (bytes "host")),
        read_int32 d (bytes "pid") info.pid ok.pid_int (r.fields (bytes "pid")),
        read_int32 d (bytes "ppid") r.me r.me_int (r.fields (bytes "ppid")),
      )

  -- A record found under a stream's id carries that id.
  pub matches-IsRecord :
      (d : Doc) (r : IsRecord d) (sid : Text)
      → (matches (by_sid sid) d ≡ true) ↔ (c_str r.info.sid ≡ c_str sid)
  unfolding doc_get text_eq bytes
  matches-IsRecord d r sid =
      let m = matches_utf8 (bytes "sid") (c_str sid) d in
      let f = r.fields (bytes "sid") in ((λ e. cc (m.0 e, f)), (λ e. m.1 (f ∙ rw e refl)))

  sid_ne : text_eq (bytes "sid") (bytes "pid") ≡ false
  unfolding text_eq bytes
  sid_ne = refl

  set_pid_field :
      (info : ProcessInfo) (me pid : ℤ) (k : Text)
      → (if text_eq (bytes "pid") k then some (int32 pid) else doc_get (process_record info me) k)
        ≡ doc_get (process_record (record info { pid = pid }) me) k
  unfolding doc_get
  set_pid_field info me pid k = elim (Bool-cases (text_eq (bytes "pid") k)) [
    | inl e ↦
        let s : text_eq (bytes "sid") k ≡ false = rw (← (text_eq_iff (bytes "pid") k).0 e) sid_ne in
        rw (e, s) refl
    | inr e ↦ rw e refl
  ]

  pub with_pid-IsStorable :
      (info : ProcessInfo) (pid : ℤ)
      → IsInt32 pid
      → IsStorable json info
      → IsStorable json (record info { pid = pid })
  with_pid-IsStorable info pid i ok = record {
    sid_text = ok.sid_text;
    src_text = ok.src_text;
    dest_text = ok.dest_text;
    host_text = ok.host_text;
    active_text = ok.active_text;
    type_int = ok.type_int;
    pid_int = i;
  }

  -- An update of the pid leaves a record.
  pub updated-IsRecord :
      (d : Doc) (pid : ℤ) → IsInt32 pid → IsRecord d → IsRecord (updated (set_pid pid) d)
  updated-IsRecord d pid i r = record {
    info = record r.info { pid = pid };
    me = r.me;
    storable = with_pid-IsStorable r.info pid i r.storable;
    me_int = r.me_int;
    fields = λ k.
        updated_set (bytes "pid") k (int32 pid) d
        ∙ rw (r.fields k) (set_pid_field r.info r.me pid k);
  }

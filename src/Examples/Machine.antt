-- ===== src/Examples/Machine.antt =====
-- An `External` with the database and the reader of these examples and a small kernel, and its laws.
use pull_stream.Base.{
  ◌%◌, ◌^◌, ℕ, ◌+◌, ℤ, pos, negsuc, Bool, true, false, List, [], ◌∷◌, ◌++◌, ◌≡◌, ◌≢◌, ◌⊎◌, inl, inr,
  refl, sym, some, Text, text_eq, bytes, eq_ℤ, ◌==◌, append-nil, arith, if◌then◌else◌, length,
}
use pull_stream.Bson.{Bson, utf8, int32, document, Doc, nil, field, doc_get}
use pull_stream.External.{parse, bson_as_json, Collection, External, value, Tm}
use pull_stream.External.Laws.{MongoLaws, JsonLaws, keep, Inserted, Replaced}
use pull_stream.Json.{string_at, int_at}
use pull_stream.Examples.Reader.{
  printed, parse_printed, parse_printed-printed, parse_printed-body, Node, object, member_node,
  text_of, int_of, flat, doc_get-flat,
}
use pull_stream.Examples.Store.{
  Shelf, put, put_self, put_ne, fits, fits_utf8, fits_int32, revised, replace_first,
  replace_first_lem,
}

pub record Machine : Type 0 where
  pub next : ℕ
  pub alive : List ℤ
  pub next_fd : ℕ
  pub locked : Bool
  pub clock : Tm
  pub conf : Text

pub has : ℤ → List ℤ → Bool
has p [] = false
has p (q ∷ ps) = if eq_ℤ p q then true else has p ps

pub without : ℤ → List ℤ → List ℤ
without p [] = []
without p (q ∷ ps) = if eq_ℤ p q then without p ps else q ∷ without p ps

unfoldable pub machine_kill : Machine → ℤ → ℕ → ℤ × Machine
unfolding has without
machine_kill m p signal = (
  if has p m.alive then pos 0 else negsuc 0,
  if signal == 0 then m else record m { alive = without p m.alive },
)

unfoldable pub machine_fork : Machine → Text → ℤ × Machine
machine_fork m command =
    let pid = pos ((1000 + m.next) % 2 ^ 31) in
    (pid, record m { next = m.next + 1; alive = pid ∷ m.alive })

instance abbrev pub toy : External
toy = record {
  mongoc = record {
    Server = Shelf;
    client_new = λ _. true;
    get_collection = λ _. true;
    collection_insert = λ s c d. (true, put s c (s c ++ (d ∷ [])));
    collection_update =
        λ s c q u. (true, put s c (replace_first (fits q) (λ d. revised u d ∷ []) (s c)));
    collection_remove = λ s c q. (true, put s c (replace_first (fits q) (λ _. []) (s c)));
    collection_find = λ s c q. keep (fits q) (s c);
    bson_printed = printed;
  };
  json_cpp = record {
    Json = Node;
    read_text = parse_printed;
    member = member_node;
    as_string = text_of;
    as_int = int_of;
  };
  kernel = record {
    Os = Machine;
    getpid = λ _. pos 77;
    fork = machine_fork;
    kill = machine_kill;
    pthread_create = λ m. (0, m);
    junk = negsuc 5;
  };
  posix = record {
    open_file = λ m path mode. (some m.next_fd, record m { next_fd = m.next_fd + 1 });
    close = λ m fd. (pos 0, m);
    set_cloexec = λ m fd. (tt, m);
    lock_file = λ m fd. (if m.locked then negsuc 0 else pos 0, m);
    unlock_file = λ m fd. (pos 0, m);
    read = λ m fd n. (some m.conf, m);
    write = λ m fd t. (pos (length t), m);
    realpath = λ m path. path;
    fopen = λ m path. some m.conf;
    puts = λ m t. (tt, m);
    access = λ m path. negsuc 0;
    mkdir = λ m path. (pos 0, m);
    fork_self = λ m. (pos 0, m);
    setsid = λ m. (pos 1, m);
    umask = λ m n. (tt, m);
    dup2 = λ m a b. (pos b, m);
    socket = λ m. (some m.next_fd, record m { next_fd = m.next_fd + 1 });
    siocgifaddr = λ m fd name. (some (bytes "10.0.0.1"), m);
    sleep = λ m n. (tt, m);
    localtime = λ m. (m.clock, m);
    evhttp_start = λ m port. (true, m);
  };
  system = λ m s command. (pos 0, (m, s));
}

pub updated_set :
    (k j : Text) (v : Bson) (d : Doc)
    → doc_get (revised (field (bytes "$set") (document (field k v nil)) nil) d) j
      ≡ (if text_eq k j then some v else doc_get d j)
unfolding revised doc_get
updated_set k j v d = refl

-- A removal or an update by `replace_first`, whether there was a match or none.
module _ (p : Doc → Bool) (new : Doc → List Doc) (s : Shelf) (c : Collection) where
  pub Replaced-any :
      (put s c (replace_first p new (s c)) c ≡ s c)
      ⊎ Replaced p new (s c) (put s c (replace_first p new (s c)) c)
  Replaced-any =
      rw (put_self s c (replace_first p new (s c)))
        (elim (replace_first_lem p new (s c)) [ inl none' ↦ inl none'.1 | inr r ↦ inr r ])

  pub Replaced-true :
      keep p (s c) ≢ [] → Replaced p new (s c) (put s c (replace_first p new (s c)) c)
  Replaced-true h =
      rw (put_self s c (replace_first p new (s c)))
        (elim (replace_first_lem p new (s c)) [ inl none' ↦ absurd (h none'.0) | inr r ↦ r ])

pub Inserted-put :
    (s : Shelf) (c : Collection) (d : Doc) → Inserted d (s c) (put s c (s c ++ (d ∷ [])) c)
Inserted-put s c d = record {
  pre = s c;
  post = [];
  was = sym (append-nil (s c));
  is = put_self s c (s c ++ (d ∷ []));
}

abbrev pub toy_mongo : MongoLaws
toy_mongo = record {
  docs = λ s c. s c;
  matches = fits;
  updated = revised;
  find_lem = λ s c q. refl;
  insert_true = λ s c d h. Inserted-put s c d;
  insert_any = λ s c d. inr (Inserted-put s c d);
  remove_true = λ s c q h ne. Replaced-true (fits q) (λ _. []) s c ne;
  remove_any = λ s c q. Replaced-any (fits q) (λ _. []) s c;
  update_true = λ s c q u h ne. Replaced-true (fits q) (λ d. revised u d ∷ []) s c ne;
  update_any = λ s c q u. Replaced-any (fits q) (λ d. revised u d ∷ []) s c;
  insert_elsewhere = λ s c c' d h. put_ne s c c' _ h;
  remove_elsewhere = λ s c c' q h. put_ne s c c' _ h;
  update_elsewhere = λ s c c' q u h. put_ne s c c' _ h;
  matches_utf8 = fits_utf8;
  matches_int32 = fits_int32;
  updated_set = updated_set;
}

pub toy_utf8 :
    (d : Doc) (k t : Text) → doc_get d k ≡ some (utf8 t) → string_at (object (flat d)) k ≡ value t
unfolding string_at member_node text_of
toy_utf8 d k t h = ground (arith, doc_get-flat d k)

pub toy_int32 :
    (d : Doc) (k : Text) (n : ℤ)
    → doc_get d k ≡ some (int32 n)
    → int_at (object (flat d)) k ≡ value n
unfolding int_at member_node int_of
toy_int32 d k n h = ground (arith, doc_get-flat d k)

pub parse-printed : (d : Doc) → parse (bson_as_json d) ≡ some (object (flat d))
unfolding parse bson_as_json
parse-printed = parse_printed-printed

pub parse-body : (d : Doc) → parse (printed d) ≡ some (object (flat d))
unfolding parse
parse-body = parse_printed-body

abbrev pub toy_json : JsonLaws
toy_json = record {
  root_of = λ d. object (flat d);
  is_utf8 = λ _. true;
  parse-as_json = parse-printed;
  read_utf8 = λ d k t h e. toy_utf8 d k t e;
  read_int32 = λ d k n h e. toy_int32 d k n e;
}

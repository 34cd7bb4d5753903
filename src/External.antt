-- ===== src/External.antt =====
-- What the services call and do not implement: libmongoc with the MongoDB server behind it
-- (injectService/pull/inc/mongoc-collection.h), libbson's printer, jsoncpp's reader
-- (injectService/pull/inc/json) and the kernel. The code is modelled for any such `External`; a
-- theorem that relies on documented behaviour of one of them takes it from a record of laws.
pub mod Laws
pub mod Counts
use pull_stream.Base.{c_str, ℕ, ℤ, Bool, Option, List, Text}
use pull_stream.Bson.{Doc}

-- A `mongoc_collection_t`: the client's address, the database and the collection's name.
pub record Collection : Type 0 where
  pub uri : Text
  pub db : Text
  pub name : Text

-- A value, or an exception with its `what()`.
pub data Except {ℓ} (A : Type ℓ) : Type ℓ where
  value : A → Except A
  throws : Text → Except A

infixl 5 ◌>>=◌
abbrev pub ◌>>=◌ {ℓ κ} : {A : Type ℓ} {B : Type κ} → Except A → (A → Except B) → Except B
value a >>= f = f a
throws e >>= f = throws e

-- libmongoc: `Server` is the state behind all addresses. A call returns its `bool`.
-- `bson_printed` is the memory that `bson_as_json` returns a pointer to.
pub record Mongoc : Type 1 where
  pub Server : Type 0
  pub client_new : Text → Bool
  pub get_collection : Collection → Bool
  pub collection_insert : Server → Collection → Doc → Bool × Server
  pub collection_update : Server → Collection → Doc → Doc → Bool × Server
  pub collection_remove : Server → Collection → Doc → Bool × Server
  pub collection_find : Server → Collection → Doc → List Doc
  pub bson_printed : Doc → Text

-- jsoncpp: `reader.parse(text, root, false)` on the characters of `text`, `root[key]`, `asString` and `asInt`.
pub record JsonCpp : Type 1 where
  pub Json : Type 0
  pub read_text : Text → Option Json
  pub member : Json → Text → Except Json
  pub as_string : Json → Except Text
  pub as_int : Json → Except ℤ

-- The kernel. `fork` is given the command that the child execs by `/bin/sh -c` and returns what the
-- parent sees. `junk` is what an `int` that nothing has set happens to hold.
-- `pthread_create` returns 0 when the thread runs.
pub record Kernel : Type 1 where
  pub Os : Type 0
  pub getpid : Os → ℤ
  pub fork : Os → Text → ℤ × Os
  pub kill : Os → ℤ → ℕ → ℤ × Os
  pub pthread_create : Os → ℕ × Os
  pub junk : ℤ

-- The flags of `open`: `O_RDONLY`, `O_RDWR`, `O_RDWR|O_CREAT` and `O_WRONLY|O_CREAT|O_APPEND`.
pub data OpenMode : Type 0 where
  read_only read_write read_write_create append_create : OpenMode

-- `struct tm`, as `localtime_r` fills it.
pub record Tm : Type 0 where
  pub tm_year : ℕ
  pub tm_mon : ℕ
  pub tm_mday : ℕ
  pub tm_hour : ℕ
  pub tm_min : ℕ
  pub tm_sec : ℕ

-- The calls on files and on the process itself. A descriptor is a number, and a call that returns -1
-- in its place returns `none`. `set_cloexec` is the pair of `fcntl` calls, `lock_file` and
-- `unlock_file` are `lockf` with `F_TLOCK` and `F_ULOCK`, `fork_self` the `fork` of `daemon` as the
-- process sees it that is followed, `realpath` gives what it writes to its buffer,
-- `fopen` the content of the file, `puts` prints on `stdout`, `siocgifaddr` the `ioctl` with `inet_ntoa` on its result, `evhttp_start` libevent's bind of the port.
pub record Posix (Os : Type 0) : Type 0 where
  pub open_file : Os → Text → OpenMode → Option ℕ × Os
  pub close : Os → ℕ → ℤ × Os
  pub set_cloexec : Os → ℕ → Unit {0} × Os
  pub lock_file : Os → ℕ → ℤ × Os
  pub unlock_file : Os → ℕ → ℤ × Os
  pub read : Os → ℕ → ℕ → Option Text × Os
  pub realpath : Os → Text → Text
  pub fopen : Os → Text → Option Text
  pub puts : Os → Text → Unit {0} × Os
  pub write : Os → ℕ → Text → ℤ × Os
  pub access : Os → Text → ℤ
  pub mkdir : Os → Text → ℤ × Os
  pub fork_self : Os → ℤ × Os
  pub setsid : Os → ℤ × Os
  pub umask : Os → ℕ → Unit {0} × Os
  pub dup2 : Os → ℕ → ℕ → ℤ × Os
  pub socket : Os → Option ℕ × Os
  pub siocgifaddr : Os → ℕ → Text → Option Text × Os
  pub sleep : Os → ℕ → Unit {0} × Os
  pub localtime : Os → Tm × Os
  pub evhttp_start : Os → ℤ → Bool × Os

pub record External : Type 1 where
  pub mongoc : Mongoc
  pub open mongoc use *
  pub json_cpp : JsonCpp
  pub open json_cpp use *
  pub kernel : Kernel
  pub open kernel use *
  pub posix : Posix Os
  pub open posix use *
  -- `system`: the command is a program that may use the database.
  pub system : Os → Server → Text → ℤ × (Os × Server)

module _ ⦃x : External⦄ where
  -- The text at the `char *` that `bson_as_json` returns, up to its null byte.
  unfoldable pub bson_as_json : Doc → Text
  bson_as_json doc = c_str (x.bson_printed doc)

  -- `parse` of a `char *`: it reads from the pointer up to the first null byte.
  unfoldable pub parse : Text → Option x.Json
  parse text = x.read_text (c_str text)

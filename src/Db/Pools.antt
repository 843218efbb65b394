-- ===== src/Db/Pools.antt =====
-- src/db.rs: `open_pools`, and `SqliteConnectOptions` and `SqlitePoolOptions` as the records of
-- what the source sets in them. `connect` says how `connect_with` ends for given options. The
-- products of settings are those of a release build, which wrap.
use tinkiva_sqllite_server.Prelude.{
  ℕ, String, ◌*◌, ◌/◌, Bool, true, Option, none, some, List, [], ◌∷◌, ◌++◌, Result, ok, err, wrap64,
}
use tinkiva_sqllite_server.Error.{SqlxError}
use tinkiva_sqllite_server.Config.{DatabaseSettings, writer_cache, reader_cache}

-- The text that a pragma is given: the digits of a number, those behind a `-`, or a word.
pub data PragmaValue : Type 0 where
  number : ℕ → PragmaValue
  minus : ℕ → PragmaValue
  word : String → PragmaValue

pub data JournalMode : Type 0 where
  wal : JournalMode

pub data Synchronous : Type 0 where
  normal : Synchronous

pub record ConnectOptions : Type 0 where
  pub filename : List ℕ
  pub create_if_missing : Bool
  pub foreign_keys : Bool
  pub journal_mode : JournalMode
  pub synchronous : Synchronous
  pub busy_timeout_ms : ℕ
  pub statement_cache_capacity : ℕ
  pub pragmas : List (String × PragmaValue)

pub record PoolOptions : Type 0 where
  pub max_connections : ℕ
  pub min_connections : ℕ
  pub acquire_timeout_seconds : ℕ
  pub options : ConnectOptions

pub record Pools : Type 0 where
  pub writer : PoolOptions
  pub readers : PoolOptions

abbrev pub bytes_per_mb : ℕ
bytes_per_mb = 1024 * 1024

abbrev pub default_page_size : ℕ
default_page_size = 4096

-- `.pragma(name, value)`
abbrev pragma : String → PragmaValue → ConnectOptions → ConnectOptions
pragma name value o = record o { pragmas = o.pragmas ++ (name, value) ∷ [] }

unfoldable pub shared_options : DatabaseSettings → List ℕ → ConnectOptions
shared_options settings path = pragma "temp_store" (word "MEMORY") (
    pragma "mmap_size" (number (wrap64 (settings.mmap_size_mb * bytes_per_mb))) (record {
      filename = path;
      create_if_missing = true;
      foreign_keys = true;
      journal_mode = wal;
      synchronous = normal;
      busy_timeout_ms = settings.busy_timeout_ms;
      statement_cache_capacity = settings.statement_cache_capacity;
      pragmas = [];
    }))

unfoldable pub writer_options : DatabaseSettings → List ℕ → ConnectOptions
unfolding shared_options writer_cache
writer_options settings path =
    let wal_limit_bytes = wrap64 (settings.wal_size_limit_mb * bytes_per_mb) in
    pragma "journal_size_limit" (number wal_limit_bytes) (
      pragma "wal_autocheckpoint" (number (wal_limit_bytes / default_page_size))
        (pragma "cache_size" (minus (writer_cache settings)) (shared_options settings path)))

unfoldable pub reader_options : DatabaseSettings → List ℕ → ConnectOptions
unfolding shared_options reader_cache
reader_options settings path =
    pragma "query_only" (word "ON")
      (pragma "cache_size" (minus (reader_cache settings)) (shared_options settings path))

-- A pool starts with no minimum of connections.
unfoldable pub pools_of : DatabaseSettings → List ℕ → Pools
unfolding writer_options reader_options
pools_of settings path = record {
  writer = record {
    max_connections = 1;
    min_connections = 1;
    acquire_timeout_seconds = settings.acquire_timeout_seconds;
    options = writer_options settings path;
  };
  readers = record {
    max_connections = settings.reader_connections;
    min_connections = 0;
    acquire_timeout_seconds = settings.acquire_timeout_seconds;
    options = reader_options settings path;
  };
}

-- The readers connect lazily, so only the writer can fail.
unfoldable pub open_pools :
    (PoolOptions → Option SqlxError) → DatabaseSettings → List ℕ → Result SqlxError Pools
open_pools connect settings path = elim (connect (pools_of settings path).writer) [
  | some error ↦ err error
  | none ↦ ok (pools_of settings path)
]

-- ===== src/Config.antt =====
-- src/config.rs: the settings, their defaults, the environment's overrides and their validation.
-- `std::env::var` is the argument `var` (`some` is `Ok`), reading a file is `read`, the TOML parser
-- is `from_toml`, and `FromStr` of the unsigned integers of a width is `parse`.
use Prim.Native.String.{◌++◌ as join}
use tinkiva_sqllite_server.Prelude.{
  ℕ, String, ◌≡◌, Bool, true, false, Option, none, some, Result, ok, err, ◌>>=◌, ◌>>◌, ◌==◌, str_eq,
  if◌then◌else◌, List, [], ◌∷◌,
}
pub mod Validation
pub mod Environment
mod Tests

pub record ServerSettings : Type 0 where
  pub bind : String
  pub auth_token : Option String
  pub body_limit_bytes : ℕ
  pub request_timeout_seconds : ℕ

pub record DatabaseSettings : Type 0 where
  pub directory : String
  pub max_open_databases : ℕ
  pub idle_timeout_seconds : ℕ
  pub cleanup_interval_seconds : ℕ
  pub checkpoint_interval_seconds : ℕ
  pub reader_connections : ℕ
  pub busy_timeout_ms : ℕ
  pub acquire_timeout_seconds : ℕ
  pub max_result_rows : ℕ
  pub max_concurrent_requests : ℕ
  pub max_concurrent_requests_per_database : ℕ
  pub admission_timeout_ms : ℕ
  pub cache_size_kb : Option ℕ
  pub writer_cache_size_kb : ℕ
  pub reader_cache_size_kb : ℕ
  pub statement_cache_capacity : ℕ
  pub mmap_size_mb : ℕ
  pub wal_size_limit_mb : ℕ

pub record Settings : Type 0 where
  pub server : ServerSettings
  pub database : DatabaseSettings

abbrev pub default_server : ServerSettings
default_server = record {
  bind = "127.0.0.1:7000";
  auth_token = none;
  body_limit_bytes = 1_048_576;
  request_timeout_seconds = 30;
}

abbrev pub default_database : DatabaseSettings
default_database = record {
  directory = "./data/databases";
  max_open_databases = 50;
  idle_timeout_seconds = 300;
  cleanup_interval_seconds = 30;
  checkpoint_interval_seconds = 10;
  reader_connections = 1;
  busy_timeout_ms = 5_000;
  acquire_timeout_seconds = 10;
  max_result_rows = 10_000;
  max_concurrent_requests = 512;
  max_concurrent_requests_per_database = 8;
  admission_timeout_ms = 50;
  cache_size_kb = none;
  writer_cache_size_kb = 1_024;
  reader_cache_size_kb = 512;
  statement_cache_capacity = 16;
  mmap_size_mb = 64;
  wal_size_limit_mb = 16;
}

abbrev pub default : Settings
default = record { server = default_server; database = default_database }

-- `cache_size_kb.unwrap_or(..)`
abbrev unwrap_or : Option ℕ → ℕ → ℕ
unwrap_or none d = d
unwrap_or (some n) d = n

-- The method `writer_cache_size_kb`, which the field of that name feeds.
unfoldable pub writer_cache : DatabaseSettings → ℕ
writer_cache s = unwrap_or s.cache_size_kb s.writer_cache_size_kb

unfoldable pub reader_cache : DatabaseSettings → ℕ
reader_cache s = unwrap_or s.cache_size_kb s.reader_cache_size_kb

-- The messages of `anyhow::Error`.
abbrev pub Fallible : Type 0 → Type 0
Fallible A = Result String A

-- `if condition { bail!(message) }`
abbrev bail_if : Bool → String → Fallible (Unit {0})
bail_if c message = if c then err message else ok tt

abbrev is_some_zero : Option ℕ → Bool
is_some_zero none = false
is_some_zero (some n) = n == 0

validate_pools : DatabaseSettings → Fallible (Unit {0})
validate_pools d = do
  bail_if (d.max_open_databases == 0) "max_open_databases must be greater than zero"
  bail_if (d.reader_connections == 0) "reader_connections must be greater than zero"
  bail_if (d.cleanup_interval_seconds == 0) "cleanup_interval_seconds must be greater than zero"
  bail_if (d.checkpoint_interval_seconds == 0)
      "checkpoint_interval_seconds must be greater than zero"

validate_caches : DatabaseSettings → Fallible (Unit {0})
validate_caches d = do
  bail_if (is_some_zero d.cache_size_kb) "cache_size_kb must be greater than zero when set"
  bail_if (d.writer_cache_size_kb == 0) "writer_cache_size_kb must be greater than zero"
  bail_if (d.reader_cache_size_kb == 0) "reader_cache_size_kb must be greater than zero"

validate_limits : Settings → Fallible (Unit {0})
validate_limits s = do
  bail_if (s.database.max_concurrent_requests == 0)
      "max_concurrent_requests must be greater than zero"
  bail_if (s.database.max_concurrent_requests_per_database == 0)
      "max_concurrent_requests_per_database must be greater than zero"
  bail_if (s.database.max_result_rows == 0) "max_result_rows must be greater than zero"
  bail_if (s.server.body_limit_bytes == 0) "body_limit_bytes must be greater than zero"

-- `Settings::validate`, whose eleven tests are cut into three runs.
pub validate : Settings → Fallible (Unit {0})
unfolding validate_pools validate_caches validate_limits
validate s = do validate_pools s.database; validate_caches s.database; validate_limits s

-- `u32` and `u64`; `usize` has the second width.
pub data Width : Type 0 where
  u32 u64 : Width

module _ (var : String → Option String) (parse : Width → String → Result String ℕ) where
  unfoldable pub set_string : String → String → String
  set_string key target = elim (var key) [ none ↦ target | some value ↦ value ]

  unfoldable pub set_optional_string : String → Option String → Option String
  set_optional_string key target = elim (var key) [
    | none ↦ target
    | some value ↦ if str_eq value "" then none else some value
  ]

  abbrev invalid : String → Result String ℕ → Fallible ℕ
  invalid key (ok n) = ok n
  invalid key (err error) = err (join "invalid " (join key (join ": " error)))

  unfoldable pub set_number : Width → String → ℕ → Fallible ℕ
  set_number width key target = elim (var key) [
    | none ↦ ok target
    | some value ↦ invalid key (parse width value)
  ]

  -- The block for `TINKIVA_CACHE_SIZE_KB`.
  set_cache_size : Option ℕ → Fallible (Option ℕ)
  set_cache_size target = elim (var "TINKIVA_CACHE_SIZE_KB") [
    | none ↦ ok target
    | some value ↦ invalid "TINKIVA_CACHE_SIZE_KB" (parse u32 value) >>= λ n. ok (some n)
  ]

  apply_texts : Settings → Settings
  unfolding set_string set_optional_string
  apply_texts s = record {
    server = record s.server {
      bind = set_string "TINKIVA_BIND" s.server.bind;
      auth_token = set_optional_string "TINKIVA_AUTH_TOKEN" s.server.auth_token;
    };
    database = record s.database {
      directory = set_string "TINKIVA_DATABASE_DIR" s.database.directory;
    };
  }

  -- `Settings::apply_environment`: the variables in the source's order; the first that does not
  -- parse ends it.
  unfoldable pub apply_environment : Settings → Fallible Settings
  unfolding apply_texts set_number set_cache_size
  apply_environment before = do
    let s = apply_texts before
    let d = s.database
    open_databases ← set_number u64 "TINKIVA_MAX_OPEN_DATABASES" d.max_open_databases
    idle ← set_number u64 "TINKIVA_IDLE_TIMEOUT_SECONDS" d.idle_timeout_seconds
    cleanup ← set_number u64 "TINKIVA_CLEANUP_INTERVAL_SECONDS" d.cleanup_interval_seconds
    checkpoint ← set_number u64 "TINKIVA_CHECKPOINT_INTERVAL_SECONDS" d.checkpoint_interval_seconds
    readers ← set_number u32 "TINKIVA_READER_CONNECTIONS" d.reader_connections
    busy ← set_number u64 "TINKIVA_BUSY_TIMEOUT_MS" d.busy_timeout_ms
    acquire ← set_number u64 "TINKIVA_ACQUIRE_TIMEOUT_SECONDS" d.acquire_timeout_seconds
    rows ← set_number u64 "TINKIVA_MAX_RESULT_ROWS" d.max_result_rows
    cache ← set_cache_size d.cache_size_kb
    writer ← set_number u32 "TINKIVA_WRITER_CACHE_SIZE_KB" d.writer_cache_size_kb
    reader ← set_number u32 "TINKIVA_READER_CACHE_SIZE_KB" d.reader_cache_size_kb
    statements ← set_number u64 "TINKIVA_STATEMENT_CACHE_CAPACITY" d.statement_cache_capacity
    requests ← set_number u64 "TINKIVA_MAX_CONCURRENT_REQUESTS" d.max_concurrent_requests
    share ←
        set_number u64 "TINKIVA_MAX_CONCURRENT_REQUESTS_PER_DATABASE"
          d.max_concurrent_requests_per_database
    admission ← set_number u64 "TINKIVA_ADMISSION_TIMEOUT_MS" d.admission_timeout_ms
    mmap ← set_number u64 "TINKIVA_MMAP_SIZE_MB" d.mmap_size_mb
    wal ← set_number u64 "TINKIVA_WAL_SIZE_LIMIT_MB" d.wal_size_limit_mb
    ok (record s {
      database = record d {
        max_open_databases = open_databases;
        idle_timeout_seconds = idle;
        cleanup_interval_seconds = cleanup;
        checkpoint_interval_seconds = checkpoint;
        reader_connections = readers;
        busy_timeout_ms = busy;
        acquire_timeout_seconds = acquire;
        max_result_rows = rows;
        cache_size_kb = cache;
        writer_cache_size_kb = writer;
        reader_cache_size_kb = reader;
        statement_cache_capacity = statements;
        max_concurrent_requests = requests;
        max_concurrent_requests_per_database = share;
        admission_timeout_ms = admission;
        mmap_size_mb = mmap;
        wal_size_limit_mb = wal;
      };
    })

  module _ (read : String → Fallible String) (from_toml : String → Fallible Settings) where
    -- The `if let Some(path) = path` of `load`.
    read_settings : Option String → Fallible Settings
    read_settings none = ok default
    read_settings (some path) = read path >>= from_toml

    -- `Settings::load`. The context that it adds to an error of the file is not modelled.
    unfoldable pub load : Option String → Fallible Settings
    unfolding read_settings
    load path = do
      settings ← read_settings path
      applied ← apply_environment settings
      validate applied
      ok applied

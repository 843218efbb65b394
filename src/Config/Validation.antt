-- ===== src/Config/Validation.antt =====
-- Which settings src/config.rs accepts, and what a server that has started may rely on.
use tinkiva_sqllite_server.Prelude.{
  ℕ, String, ◌<◌, ◌≡◌, ◌↔◌, Option, none, some, Result, ok, on_ok, ok-injective, arith,
}
use mathlib.Core.Path.{subst}
use tinkiva_sqllite_server.Config.{
  Settings, Width, Fallible, validate, load, apply_environment, read_settings,
}

abbrev pub IsPositive? : Option ℕ → Type 0
IsPositive? none = Unit {0}
IsPositive? (some n) = 0 < n

-- The settings that have to be positive.
pub record IsValid (s : Settings) : Type 0 where
  pub open_databases : 0 < s.database.max_open_databases
  pub readers : 0 < s.database.reader_connections
  pub cleanup : 0 < s.database.cleanup_interval_seconds
  pub checkpoint : 0 < s.database.checkpoint_interval_seconds
  pub cache : IsPositive? s.database.cache_size_kb
  pub writer_cache : 0 < s.database.writer_cache_size_kb
  pub reader_cache : 0 < s.database.reader_cache_size_kb
  pub requests : 0 < s.database.max_concurrent_requests
  pub share : 0 < s.database.max_concurrent_requests_per_database
  pub rows : 0 < s.database.max_result_rows
  pub body : 0 < s.server.body_limit_bytes

validate_sound : (s : Settings) → validate s ≡ ok tt → IsValid s
unfolding validate
validate_sound s h = ground arith

validate_complete : (s : Settings) → IsValid s → validate s ≡ ok tt
unfolding validate
validate_complete s h = ground arith

-- Settings are accepted exactly when each of the eleven checked settings is positive.
pub validate-IsValid : (s : Settings) → (validate s ≡ ok tt) ↔ IsValid s
validate-IsValid s = (validate_sound s, validate_complete s)

-- The server starts on valid settings only, wherever they came from.
pub load-IsValid :
    (var : String → Option String) (parse : Width → String → Result String ℕ)
    (read : String → Fallible String) (from_toml : String → Fallible Settings)
    (path : Option String) (s : Settings)
    → load var parse read from_toml path ≡ ok s
    → IsValid s
unfolding load
load-IsValid var parse read from_toml path s h =
    on_ok (read_settings var parse read from_toml path) _
      (λ before _ h1.
        on_ok (apply_environment var parse before) _
          (λ applied _ h2.
            on_ok (validate applied) _
              (λ _ valid h3. subst IsValid (ok-injective _ _ h3) (validate_sound applied valid)) h2)
          h1)
      h

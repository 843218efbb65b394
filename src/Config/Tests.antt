-- ===== src/Config/Tests.antt =====
-- Settings of src/config.rs at concrete environments.
use tinkiva_sqllite_server.Prelude.{
  ℕ, String, ◌≡◌, refl, Option, none, some, Result, ok, err, str_eq, if◌then◌else◌,
}
use tinkiva_sqllite_server.Config.{
  Settings, Width, Fallible, default, validate, apply_environment, load, writer_cache,
}
use tinkiva_sqllite_server.Config.Validation.{IsValid, load-IsValid}
use tinkiva_sqllite_server.Config.Environment.{IsOverridden, apply_environment-IsOverridden}

-- The parser of the integers at the texts used here.
abbrev parse : Width → String → Result String ℕ
parse width text =
    if str_eq text "3"
    then ok 3
    else if str_eq text "0"
    then ok 0
    else err "invalid digit found in string"

abbrev var : String → Option String
var key =
    if str_eq key "TINKIVA_MAX_OPEN_DATABASES"
    then some "3"
    else if str_eq key "TINKIVA_CACHE_SIZE_KB"
    then some "3"
    else if str_eq key "TINKIVA_BIND"
    then some "0.0.0.0:80"
    else if str_eq key "TINKIVA_AUTH_TOKEN"
    then some ""
    else none

abbrev unset : String → Option String
unset key = none

abbrev no_file : String → Fallible String
no_file path = err "failed to read config file"

abbrev no_toml : String → Fallible Settings
no_toml text = err "invalid TOML"

abbrev small : Settings
small = record default {
  server = record default.server { bind = "0.0.0.0:80" };
  database = record default.database { max_open_databases = 3; cache_size_kb = some 3 };
}

apply_small : apply_environment var parse default ≡ ok small
unfolding apply_environment
apply_small = refl

load-small : load var parse no_file no_toml none ≡ ok small
unfolding load apply_environment validate
load-small = refl

load_zero :
    load
      (λ key. if str_eq key "TINKIVA_MAX_OPEN_DATABASES" then some "0" else none)
      parse
      no_file
      no_toml
      none
    ≡ err "max_open_databases must be greater than zero"
unfolding load apply_environment validate
load_zero = refl

legacy_cache_wins : writer_cache small.database ≡ 3
unfolding writer_cache
legacy_cache_wins = refl

load-IsValid_example : IsValid small
load-IsValid_example = load-IsValid var parse no_file no_toml none small load-small

apply_environment-IsOverridden_example : IsOverridden var parse default small
apply_environment-IsOverridden_example =
    apply_environment-IsOverridden var parse default small apply_small

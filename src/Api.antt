-- ===== src/Api.antt =====
-- src/api.rs: the check of the token. `to_str` says whether the bytes of a header are a text for the
-- `http` crate, which has them as that text then.
use tinkiva_sqllite_server.Prelude.{
  ℕ, String, ◌≤◌, Bool, true, false, ◌&&◌, ◌||◌, not, Option, none, some, List, [], ◌∷◌, Result, ok,
  err, ◌==◌, leb, if◌then◌else◌, length, codes, bytes,
}
use tinkiva_sqllite_server.Error.{AppError, unauthorized, invalid_request}
use tinkiva_sqllite_server.Config.{Settings}
pub mod Token
pub mod Json
pub mod Bind
pub mod Rows
pub mod Serialize
pub mod Batch
pub mod Handlers
pub mod Admin
mod Tests

abbrev pub eq_bytes : List ℕ → List ℕ → Bool
eq_bytes [] [] = true
eq_bytes [] (c ∷ cs) = false
eq_bytes (b ∷ bs) [] = false
eq_bytes (b ∷ bs) (c ∷ cs) = b == c && eq_bytes bs cs

-- `str::strip_prefix`
abbrev pub strip_prefix : List ℕ → List ℕ → Option (List ℕ)
strip_prefix [] bs = some bs
strip_prefix (p ∷ ps) [] = none
strip_prefix (p ∷ ps) (b ∷ bs) = if p == b then strip_prefix ps bs else none

-- What the request provides: the rest of its header, or the empty text.
unfoldable pub provided : (List ℕ → Bool) → Option (List ℕ) → List ℕ
provided to_str none = []
provided to_str (some value) = elim (to_str value) [
  | false ↦ []
  | true ↦ elim (strip_prefix (bytes "Bearer ") value) [ none ↦ [] | some token ↦ token ]
]

-- `authorize`, up to the call of the next handler.
unfoldable pub authorize : (List ℕ → Bool) → Settings → Option (List ℕ) → Result AppError (Unit {0})
authorize to_str settings header = elim settings.server.auth_token [
  | none ↦ ok tt
  | some expected ↦
      if not (length (provided to_str header) == length (bytes expected))
        || not (eq_bytes (provided to_str header) (bytes expected))
      then err unauthorized
      else ok tt
]

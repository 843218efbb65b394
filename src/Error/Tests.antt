-- ===== src/Error/Tests.antt =====
-- Responses of src/error.rs at single errors.
use tinkiva_sqllite_server.Prelude.{String, ◌≤◌, ◌<◌, ◌≡◌, ◌≢◌, ◌↔◌, ◌⊎◌, refl, none}
use tinkiva_sqllite_server.Error.{SqlxError, overloaded, into_response}
use tinkiva_sqllite_server.Error.Responses.{into_response-retry_after}

abbrev display : SqlxError → String
display e = "no rows"

overloaded_is_429 : (into_response display overloaded).status ≡ 429
unfolding into_response
overloaded_is_429 = refl

into_response-retry_after_example :
    (((into_response display overloaded).retry_after ≢ none) ↔ (
      ((into_response display overloaded).status ≡ 503)
      ⊎ ((into_response display overloaded).status ≡ 429)))
    × (400 ≤ (into_response display overloaded).status)
    × ((into_response display overloaded).status < 600)
into_response-retry_after_example = into_response-retry_after display overloaded

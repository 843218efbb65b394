-- ===== src/Error/Responses.antt =====
-- What every error response of src/error.rs has in common.
use tinkiva_sqllite_server.Prelude.{String, ◌≤◌, ◌<◌, ◌≡◌, ◌≢◌, ◌↔◌, ◌⊎◌, none, arith}
use tinkiva_sqllite_server.Error.{
  SqlxError, row_not_found, failure, AppError, invalid_database_name, capacity_busy, overloaded,
  unauthorized, invalid_request, database, internal, into_response,
}

-- A response asks the client to come back exactly when its status is 503 or 429, and no error
-- is answered with a status below 400 or above 599.
pub into_response-retry_after :
    (display : SqlxError → String) (e : AppError)
    → (((into_response display e).retry_after ≢ none)
        ↔ (((into_response display e).status ≡ 503) ⊎ ((into_response display e).status ≡ 429)))
      × (400 ≤ (into_response display e).status)
      × ((into_response display e).status < 600)
unfolding into_response
into_response-retry_after display invalid_database_name = ground arith
into_response-retry_after display capacity_busy = ground arith
into_response-retry_after display overloaded = ground arith
into_response-retry_after display unauthorized = ground arith
into_response-retry_after display (invalid_request why) = ground arith
into_response-retry_after display (database row_not_found) = ground arith
into_response-retry_after display (database (failure text)) = ground arith
into_response-retry_after display (internal source) = ground arith

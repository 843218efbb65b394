-- ===== src/Error.antt =====
-- src/error.rs: the errors that a request can end in, and the HTTP response of each.
use Prim.Native.String.{◌++◌ as join}
use tinkiva_sqllite_server.Prelude.{
  ℕ, String, ◌≤◌, ◌≡◌, ◌↔◌, ◌⊎◌, Bool, true, false, Option, none, some, arith, if◌then◌else◌,
}
mod Responses
mod Tests

-- `sqlx::Error`: the server tells `RowNotFound` from the rest. The text of the others is what
-- the crate prints for them.
pub data SqlxError : Type 0 where
  row_not_found : SqlxError
  failure : (text : String) → SqlxError

pub data AppError : Type 0 where
  invalid_database_name : AppError
  capacity_busy : AppError
  overloaded : AppError
  unauthorized : AppError
  invalid_request : String → AppError
  database : SqlxError → AppError
  internal : (source : String) → AppError

pub record ErrorDetail : Type 0 where
  pub code : String
  pub message : String

pub record ErrorBody : Type 0 where
  pub error : ErrorDetail

pub record Response : Type 0 where
  pub status : ℕ
  pub retry_after : Option String
  pub body : ErrorBody

-- The `#[error("...")]` texts; `display` is how the crate prints one of its errors.
pub to_string : (SqlxError → String) → AppError → String
to_string display invalid_database_name =
    "invalid database name: use 1-64 ASCII letters, numbers, '-' or '_'"
to_string display capacity_busy = "all open databases are currently busy"
to_string display overloaded = "too many concurrent requests; retry shortly"
to_string display unauthorized = "unauthorized"
to_string display (invalid_request why) = join "invalid request: " why
to_string display (database e) = join "database error: " (display e)
to_string display (internal source) = "internal server error"

unfoldable pub status_and_code : AppError → ℕ × String
status_and_code invalid_database_name = (400, "invalid_request")
status_and_code (invalid_request why) = (400, "invalid_request")
status_and_code capacity_busy = (503, "capacity_busy")
status_and_code overloaded = (429, "overloaded")
status_and_code unauthorized = (401, "unauthorized")
status_and_code (database row_not_found) = (404, "not_found")
status_and_code (database (failure text)) = (422, "database_error")
status_and_code (internal source) = (500, "internal_error")

-- `matches!(self, Self::CapacityBusy | Self::Overloaded)`
pub wants_retry : AppError → Bool
wants_retry capacity_busy = true
wants_retry overloaded = true
wants_retry _ = false

unfoldable pub into_response : (SqlxError → String) → AppError → Response
unfolding status_and_code wants_retry
into_response display e =
    let (status, code) = status_and_code e in
    record {
      status = status;
      retry_after = if wants_retry e then some "1" else none;
      body = record { error = record { code = code; message = to_string display e } };
    }

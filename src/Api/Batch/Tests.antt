-- ===== src/Api/Batch/Tests.antt =====
-- Requests and rows of src/api.rs, and the theorems about them at concrete inputs.
use tinkiva_sqllite_server.Prelude.{
  ℕ, suc, String, ◌≡◌, refl, true, false, none, some, List, [], ◌∷◌, Result, ok, err, ℤ, pos,
  negsuc, inl, Any,
}
use tinkiva_sqllite_server.Error.{SqlxError, AppError, failure}
use tinkiva_sqllite_server.Api.Json.{Value, number, null, string, integer}
use tinkiva_sqllite_server.Api.Bind.{
  SqlRequest, Argument, int64, no_text, text, objects, arrays, is_whitespace, validate_sql,
  bind_query,
}
use tinkiva_sqllite_server.Api.Bind.Numbers.{IsTooLarge, Answers, too_large, bind_query_bounds}
use tinkiva_sqllite_server.Api.Rows.{Row, QueryResponse, empty_response, row_values, read_rows}
use tinkiva_sqllite_server.Api.Rows
use tinkiva_sqllite_server.Api.Bind
use tinkiva_sqllite_server.Api.Rows.Limit.{page, read_rows-page}
use tinkiva_sqllite_server.Api.Serialize.{BatchStatementResult, serialize_query}
use tinkiva_sqllite_server.Api.Serialize.Decode.{read_response}
use tinkiva_sqllite_server.Api.Serialize.RoundTrip.{IsReadable, read_response-serialize_query}
use tinkiva_sqllite_server.Api.Batch.{Effect, Engine, empty_result, read_items, run_statement}
use tinkiva_sqllite_server.Api.Batch.Effects.{
  rows_then_effect, only_rows, state_after, reported, read_items-page,
}

abbrev as_f64 : ℤ → ℕ
as_f64 z = 0

abbrev to_text : Value → String
to_text v = "[]"

abbrev encode : List ℕ → String
encode bs = "AA=="

-- A parameter that no `i64` holds.
abbrev large : List Value
large = number (integer (pos 7)) ∷ number (integer (pos 9_223_372_036_854_775_808)) ∷ []

large_refused : bind_query as_f64 to_text large ≡ err too_large
unfolding bind_query Bind.bind_value Bind.bind_number
large_refused = refl

-- Parameters of several kinds.
abbrev several : List Value
several =
    number (integer (pos 7))
    ∷ null
    ∷ number (integer (negsuc 9_223_372_036_854_775_807))
    ∷ string "x"
    ∷ []

several_bound :
    bind_query as_f64 to_text several
    ≡ ok (int64 (pos 7) ∷ no_text ∷ int64 (negsuc 9_223_372_036_854_775_807) ∷ text "x" ∷ [])
unfolding bind_query Bind.bind_value Bind.bind_number
several_bound = refl

bind_query_bounds_example :
    ((arguments : List Argument)
      → bind_query as_f64 to_text several ≡ ok arguments
      → Answers to_text several arguments)
    × ((e : AppError)
        → bind_query as_f64 to_text several ≡ err e
        → (e ≡ too_large) × Any IsTooLarge several)
bind_query_bounds_example =
    bind_query_bounds as_f64 to_text several (inl refl, (tt, (inl refl, (tt, tt))))

-- Rows with an integer and a null.
abbrev row_of : ℕ → Row
row_of n =
    record {
      column = "id";
      raw = ok (some "INTEGER");
      as_i64 = ok (pos n);
      as_f64 = err (failure "no REAL");
      as_bytes = err (failure "no BLOB");
      as_string = err (failure "no TEXT");
    }
    ∷ record {
      column = "name";
      raw = ok none;
      as_i64 = err (failure "NULL");
      as_f64 = err (failure "NULL");
      as_bytes = err (failure "NULL");
      as_string = err (failure "NULL");
    }
    ∷ []

abbrev two_rows : List (Result SqlxError Row)
two_rows = ok (row_of 1) ∷ ok (row_of 2) ∷ []

abbrev first_row : QueryResponse
first_row = record {
  columns = "id" ∷ "name" ∷ [];
  rows = (number (integer (pos 1)) ∷ null ∷ []) ∷ [];
  format = objects;
  truncated = true;
}

truncated : read_rows encode 1 two_rows (empty_response objects) ≡ ok first_row
unfolding read_rows row_values Rows.cell_value Rows.typed_value
truncated = refl

read_rows-page_example :
    read_rows encode 1 two_rows (empty_response objects) ≡ page encode 1 objects two_rows
read_rows-page_example = read_rows-page encode 1 objects two_rows

first_row-IsReadable : IsReadable first_row objects
first_row-IsReadable = ((refl, (refl, tt)), (refl, tt))

read_response-serialize_query_example :
    read_response objects (serialize_query first_row) ≡ some first_row
read_response-serialize_query_example = read_response-serialize_query first_row first_row-IsReadable

abbrev both : List (Row × ℕ)
both = (row_of 1, 5) ∷ (row_of 2, 6) ∷ []

-- A database that counts its statements.
abbrev inserted : Effect
inserted = record { rows_affected = 2; last_insert_rowid = pos 2 }

abbrev counter : Engine ℕ
counter = record {
  begin = λ s. none;
  fetch_many =
      λ sql arguments s. rows_then_effect ((row_of 1, s) ∷ (row_of 2, s) ∷ []) inserted (suc s);
  commit = λ s. none;
}

read_items-page_example :
    read_items encode 1 (rows_then_effect both inserted 7) (empty_result objects)
    ≡ reported inserted
        (empty_result objects)
        (state_after 1 both 7)
        (page encode 1 objects (only_rows both))
read_items-page_example = read_items-page encode 1 objects both inserted 7

-- `INSERT … RETURNING` of two rows with a limit of one: the effect is lost.
abbrev unreported : BatchStatementResult
unreported = record { rows_affected = 0; last_insert_rowid = pos 0; rows = first_row }

effect_lost :
    read_items encode 1 (rows_then_effect both inserted 7) (empty_result objects)
    ≡ ok (unreported, 6)
unfolding read_items row_values Rows.cell_value Rows.typed_value
effect_lost = refl

abbrev insertion : SqlRequest
insertion = record { sql = "INSERT"; params = []; format = objects }

abbrev blank : SqlRequest
blank = record { sql = " "; params = []; format = objects }

abbrev all_reported : BatchStatementResult
all_reported = record {
  rows_affected = 2;
  last_insert_rowid = pos 2;
  rows = record first_row {
    rows = (number (integer (pos 1)) ∷ null ∷ []) ∷ (number (integer (pos 2)) ∷ null ∷ []) ∷ [];
    truncated = false;
  };
}

insertion_runs :
    (s : ℕ) → run_statement counter as_f64 to_text encode 10 insertion s ≡ ok (all_reported, suc s)
unfolding run_statement bind_query validate_sql read_items row_values Rows.cell_value
    Rows.typed_value
insertion_runs s = refl

-- ===== src/Api/Batch.antt =====
-- src/api.rs: the transaction of `batch`. What SQLite and sqlx do is the `Engine`.
use tinkiva_sqllite_server.Prelude.{
  ℕ, String, Bool, true, false, Option, none, some, List, [], ◌∷◌, ◌++◌, Result, ok, err, ◌>>=◌,
  ◌>>◌, ◌==◌, if◌then◌else◌, length, ℤ, pos,
}
use tinkiva_sqllite_server.Error.{SqlxError, AppError, invalid_request, database}
use tinkiva_sqllite_server.Api.Json.{Value}
use tinkiva_sqllite_server.Api.Bind.{RowFormat, SqlRequest, Argument, validate_sql, bind_query}
use tinkiva_sqllite_server.Api.Rows.{Row, QueryResponse, empty_response, columns_or, row_values}
use tinkiva_sqllite_server.Api.Serialize.{BatchStatementResult, BatchResponse}
pub mod Effects
pub mod Atomic
mod Tests

pub record Effect : Type 0 where
  pub rows_affected : ℕ
  pub last_insert_rowid : ℤ

-- What `fetch_many` gives: `Either::Left` is an effect, `Either::Right` a row.
pub data Item : Type 0 where
  effect : Effect → Item
  row : Row → Item

-- The stream of a statement. `ends` has the state of the database in the transaction after the
-- statement, and `gives` that after the stream is dropped behind its item.
pub data Stream (S : Type 0) : Type 0 where
  ends : S → Stream S
  fails : SqlxError → Stream S
  gives : Item → S → Stream S → Stream S

-- A transaction works on a state of its own. `commit` replaces the database by it; dropping the
-- transaction before rolls it back, which leaves the database as it was.
pub record Engine (S : Type 0) : Type 0 where
  pub begin : S → Option SqlxError
  pub fetch_many : String → List Argument → S → Stream S
  pub commit : S → Option SqlxError

abbrev pub empty_result : RowFormat → BatchStatementResult
empty_result format = record {
  rows_affected = 0;
  last_insert_rowid = pos 0;
  rows = empty_response format;
}

abbrev pub database_error {ℓ} : {A : Type ℓ} → Result SqlxError A → Result AppError A
database_error (ok a) = ok a
database_error (err e) = err (database e)

module _ {S : Type 0} (encode : List ℕ → String) (limit : ℕ) where
  -- The `while` of `batch`, with the state when its stream is dropped.
  unfoldable pub read_items :
      Stream S → BatchStatementResult → Result SqlxError (BatchStatementResult × S)
  read_items (ends s) result = ok (result, s)
  read_items (fails e) result = err e
  read_items (gives (effect e) dropped stream) result =
      read_items stream
        (record result { rows_affected = e.rows_affected; last_insert_rowid = e.last_insert_rowid })
  read_items (gives (row r) dropped stream) result =
      let columns = columns_or result.rows.columns r in
      elim (length result.rows.rows == limit) [
        | true ↦ ok (
          record result { rows = record result.rows { columns = columns; truncated = true } },
          dropped,
        )
        | false ↦ elim (row_values encode r) [
          | err e ↦ err e
          | ok values ↦ read_items stream (record result {
            rows = record result.rows { columns = columns; rows = result.rows.rows ++ values ∷ [] };
          })
        ]
      ]

module _ {S : Type 0} (engine : Engine S) (as_f64 : ℤ → ℕ) (to_text : Value → String)
    (encode : List ℕ → String) (limit : ℕ) where
  -- A round of the `for`.
  unfoldable pub run_statement : SqlRequest → S → Result AppError (BatchStatementResult × S)
  run_statement statement s = do
    validate_sql statement.sql
    arguments ← bind_query as_f64 to_text statement.params
    database_error (
        read_items encode limit (engine.fetch_many statement.sql arguments s)
          (empty_result statement.format))

  unfoldable pub run_statements :
      List SqlRequest
      → List BatchStatementResult
      → S
      → Result AppError (List BatchStatementResult × S)
  run_statements [] results s = ok (results, s)
  run_statements (statement ∷ statements) results s = elim (run_statement statement s) [
    | err e ↦ err e
    | ok (result, s') ↦ run_statements statements (results ++ result ∷ []) s'
  ]

  -- From `begin` to `commit`: the answer, and the database after it.
  unfoldable pub transact : List SqlRequest → S → Result AppError BatchResponse × S
  transact statements s = elim (engine.begin s) [
    | some e ↦ (err (database e), s)
    | none ↦ elim (run_statements statements [] s) [
      | err e ↦ (err e, s)
      | ok (results, s') ↦ elim (engine.commit s') [
        | some e ↦ (err (database e), s)
        | none ↦ (ok (record { results = results }), s')
      ]
    ]
  ]

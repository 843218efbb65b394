-- ===== src/Api/Rows.antt =====
-- src/api.rs: `row_values`, `QueryResponse` and the loop of `query`. A row is what sqlx says of it,
-- column by column; `encode` is the base64 of a blob.
use tinkiva_sqllite_server.Prelude.{
  ℕ, String, Bool, true, false, Option, none, some, List, [], ◌∷◌, ◌++◌, map, Result, ok, err,
  ◌>>=◌, ◌==◌, str_eq, if◌then◌else◌, length, ℤ,
}
use tinkiva_sqllite_server.Error.{SqlxError, AppError, database}
use tinkiva_sqllite_server.Api.Json.{
  Number, integer, float, Value, null, bool, number, string, array, object, from_f64, members,
}
use tinkiva_sqllite_server.Api.Bind.{RowFormat, objects, arrays}
pub mod Limit
pub mod Echo

-- `raw` is how `try_get_raw` ends: `none` for a NULL, or the name of the value's type. The others
-- are how `try_get` ends at each type.
pub record Cell : Type 0 where
  pub column : String
  pub raw : Result SqlxError (Option String)
  pub as_i64 : Result SqlxError ℤ
  pub as_f64 : Result SqlxError ℕ
  pub as_bytes : Result SqlxError (List ℕ)
  pub as_string : Result SqlxError String

abbrev pub Row : Type 0
Row = List Cell

abbrev pub column_names : Row → List String
column_names = map λ (cell : Cell). cell.column

module _ (encode : List ℕ → String) where
  -- The value of a cell that is not NULL, by the name of its type.
  unfoldable pub typed_value : String → Cell → Result SqlxError Value
  typed_value name cell =
      if str_eq name "INTEGER"
      then (cell.as_i64 >>= λ z. ok (number (integer z)))
      else if str_eq name "REAL"
      then (cell.as_f64 >>= λ bits. ok (from_f64 bits))
      else if str_eq name "BLOB"
      then (cell.as_bytes >>= λ b. ok (object (members (("$blob", string (encode b)) ∷ []))))
      else (cell.as_string >>= λ s. ok (string s))

  unfoldable pub cell_value : Cell → Result SqlxError Value
  unfolding typed_value
  cell_value cell = do
    raw ← cell.raw
    elim raw [ none ↦ ok null | some name ↦ typed_value name cell ]

  unfoldable pub row_values : Row → Result SqlxError (List Value)
  row_values [] = ok []
  row_values (cell ∷ cells) = do
    value ← cell_value cell
    values ← row_values cells
    ok (value ∷ values)

pub record QueryResponse : Type 0 where
  pub columns : List String
  pub rows : List (List Value)
  pub format : RowFormat
  pub truncated : Bool

-- `QueryResponse::empty`
abbrev pub empty_response : RowFormat → QueryResponse
empty_response format = record { columns = []; rows = []; format = format; truncated = false }

-- `if columns.is_empty() { columns = … }`
abbrev pub columns_or : List String → Row → List String
columns_or [] row = column_names row
columns_or (column ∷ columns) row = column ∷ columns

module _ (encode : List ℕ → String) (limit : ℕ) where
  -- The `while` of `query` on what `try_next` gives until the stream ends.
  unfoldable pub read_rows :
      List (Result SqlxError Row) → QueryResponse → Result SqlxError QueryResponse
  read_rows [] response = ok response
  read_rows (err e ∷ items) response = err e
  read_rows (ok row ∷ items) response =
      let columns = columns_or response.columns row in
      elim (length response.rows == limit) [
        | true ↦ ok (record response { columns = columns; truncated = true })
        | false ↦ elim (row_values encode row) [
          | err e ↦ err e
          | ok values ↦
              read_rows items
                (record response { columns = columns; rows = response.rows ++ values ∷ [] })
        ]
      ]

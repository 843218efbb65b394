-- ===== src/Api/Serialize.antt =====
-- src/api.rs: the `Serialize` implementations of the responses, as the JSON that they write.
use tinkiva_sqllite_server.Prelude.{ℕ, String, Bool, List, [], ◌∷◌, ◌++◌, map, ℤ, pos}
use tinkiva_sqllite_server.Api.Json.{
  Number, integer, Value, bool, number, string, array, object, elements, members,
}
use tinkiva_sqllite_server.Api.Bind.{RowFormat, objects, arrays}
use tinkiva_sqllite_server.Api.Rows.{QueryResponse}
pub mod Decode
pub mod RoundTrip

-- `columns.iter().zip(values)`
abbrev pub zip_columns : List String → List Value → List (String × Value)
zip_columns [] values = []
zip_columns (column ∷ columns) [] = []
zip_columns (column ∷ columns) (value ∷ values) = (column, value) ∷ zip_columns columns values

-- `RowAsObject`
abbrev pub row_as_object : List String → List Value → Value
row_as_object columns values = object (members (zip_columns columns values))

abbrev pub row_as_array : List Value → Value
row_as_array values = array (elements values)

-- The field `rows`; `RowsAsObjects` writes an object for each row.
unfoldable pub rows_value : QueryResponse → RowFormat → Value
rows_value response arrays = array (elements (map row_as_array response.rows))
rows_value response objects = array (elements (map (row_as_object response.columns) response.rows))

-- `QueryResponse::write_rows`
unfoldable pub write_rows : QueryResponse → List (String × Value)
unfolding rows_value
write_rows response =
    ("columns", array (elements (map string response.columns)))
    ∷ ("rows", rows_value response response.format)
    ∷ ("truncated", bool response.truncated)
    ∷ []

unfoldable pub serialize_query : QueryResponse → Value
unfolding write_rows
serialize_query response = object (members (write_rows response))

pub record ExecuteResult : Type 0 where
  pub rows_affected : ℕ
  pub last_insert_rowid : ℤ

unfoldable pub serialize_execute : ExecuteResult → Value
serialize_execute r = object (
    members (
      ("rows_affected", number (integer (pos r.rows_affected)))
      ∷ ("last_insert_rowid", number (integer r.last_insert_rowid))
      ∷ []))

pub record BatchStatementResult : Type 0 where
  pub rows_affected : ℕ
  pub last_insert_rowid : ℤ
  pub rows : QueryResponse

unfoldable pub serialize_statement : BatchStatementResult → Value
unfolding write_rows
serialize_statement r = object (
    members (
      ("rows_affected", number (integer (pos r.rows_affected)))
      ∷ ("last_insert_rowid", number (integer r.last_insert_rowid))
      ∷ write_rows r.rows))

pub record BatchResponse : Type 0 where
  pub results : List BatchStatementResult

unfoldable pub serialize_batch : BatchResponse → Value
serialize_batch r =
    object (members (("results", array (elements (map serialize_statement r.results))) ∷ []))

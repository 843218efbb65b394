-- ===== src/Api/Serialize/RoundTrip.antt =====
-- A client reads from the JSON of src/api.rs the response that was written.
use tinkiva_sqllite_server.Prelude.{
  String, ◌≡◌, refl, ap, ◌∙◌, false, none, some, List, [], ◌∷◌, map, arith, eq_iff, length, All,
  mem, NoRepeats,
}
use tinkiva_sqllite_server.Api.Json.{Value, Members, string, member, elements, members}
use tinkiva_sqllite_server.Api.Bind.{RowFormat, objects, arrays}
use tinkiva_sqllite_server.Api.Rows.{QueryResponse}
use tinkiva_sqllite_server.Api.Serialize.{
  zip_columns, row_as_object, row_as_array, rows_value, serialize_query,
}
use tinkiva_sqllite_server.Api.Serialize.Decode.{
  member_of, read_columns, list_of, read_row, read_string, read_all, read_array, read_response,
}

list_of-elements : (vs : List Value) → list_of (elements vs) ≡ vs
list_of-elements [] = refl
list_of-elements (v ∷ vs) = ap (λ rest. v ∷ rest) (list_of-elements vs)

read_strings :
    (names : List String)
    → read_all read_string (list_of (elements (map string names))) ≡ some names
read_strings [] = refl
read_strings (name ∷ names) = rw (read_strings names, read_all) refl

member_of-absent :
    (name : String) (columns : List String) (values : List Value)
    → mem name columns ≡ false
    → member_of name (members (zip_columns columns values)) ≡ none
member_of-absent name [] values absent = refl
member_of-absent name (column ∷ columns) [] absent = refl
member_of-absent name (column ∷ columns) (value ∷ values) absent =
    ground (arith, member_of-absent name columns values, eq_iff column name)

-- A member with another name is not read.
read_columns-skip :
    (key : String) (value : Value) (columns : List String) (ms : Members)
    → mem key columns ≡ false
    → read_columns columns (member key value ms) ≡ read_columns columns ms
read_columns-skip key value [] ms absent = refl
read_columns-skip key value (column ∷ columns) ms absent =
    ground (arith, read_columns-skip key value columns ms, eq_iff key column, eq_iff column key)

read_columns-zip :
    (columns : List String) (values : List Value)
    → NoRepeats columns
    → length values ≡ length columns
    → read_columns columns (members (zip_columns columns values)) ≡ some values
read_columns-zip [] [] once same = refl
read_columns-zip [] (value ∷ values) once same = absurd (ground arith)
read_columns-zip (column ∷ columns) [] once same = absurd (ground arith)
read_columns-zip (column ∷ columns) (value ∷ values) once same =
    let first = member_of-absent column columns values once.0 in
    let others =
      read_columns-skip column value columns (members (zip_columns columns values)) once.0
      ∙ read_columns-zip columns values once.1 (ground arith) in
    ground (arith, first, others, eq_iff column column)

-- Rows as wide as the columns.
abbrev pub IsRectangular : List String → List (List Value) → Type 0
IsRectangular columns rows = All (λ values. length values ≡ length columns) rows

read_objects :
    (columns : List String) (rows : List (List Value))
    → NoRepeats columns
    → IsRectangular columns rows
    → read_all (read_row objects columns) (list_of (elements (map (row_as_object columns) rows)))
      ≡ some rows
read_objects columns [] once wide = refl
read_objects columns (values ∷ rows) once wide =
    ground
      (arith, read_columns-zip columns values once wide.0, read_objects columns rows once wide.1)

read_arrays :
    (columns : List String) (rows : List (List Value))
    → read_all (read_row arrays columns) (list_of (elements (map row_as_array rows))) ≡ some rows
read_arrays columns [] = refl
read_arrays columns (values ∷ rows) =
    ground (arith, list_of-elements values, read_arrays columns rows)

-- What a format asks of a response: the object shape needs columns with different names.
abbrev pub IsReadable : QueryResponse → RowFormat → Type 0
IsReadable r arrays = Unit {0}
IsReadable r objects = NoRepeats r.columns × IsRectangular r.columns r.rows

read_rows_value :
    (r : QueryResponse) (format : RowFormat)
    → IsReadable r format
    → read_array (read_row format r.columns) (rows_value r format) ≡ some r.rows
unfolding rows_value
read_rows_value r arrays h = read_arrays r.columns r.rows
read_rows_value r objects h = read_objects r.columns r.rows h.0 h.1

-- A client that knows the format which it asked for reads back the whole response: always in the
-- array shape, and in the object shape if the columns have different names and the rows are as wide
-- as the columns.
pub read_response-serialize_query :
    (r : QueryResponse)
    → IsReadable r r.format
    → read_response r.format (serialize_query r) ≡ some r
unfolding serialize_query
read_response-serialize_query r h = rw (read_strings r.columns, read_rows_value r r.format h) refl

-- ===== src/Api/Rows/Limit.antt =====
-- The loop of `query` in src/api.rs against a description of the page that it gives.
use tinkiva_sqllite_server.Prelude.{
  ℕ, zero, suc, String, ◌+◌, ◌≡◌, refl, ◌∙◌, true, false, List, [], ◌∷◌, ◌++◌, Result, ok, err,
  arith, ◌==◌, length, take, drop, length-append, Result-cases, inl, inr,
}
use mathlib.Core.List.{append_assoc, append-nil}
use tinkiva_sqllite_server.Error.{SqlxError}
use tinkiva_sqllite_server.Api.Json.{Value}
use tinkiva_sqllite_server.Api.Bind.{RowFormat}
use tinkiva_sqllite_server.Api.Rows.{
  Row, column_names, columns_or, QueryResponse, empty_response, row_values, read_rows,
}

abbrev cons_values {ℓ} : {A : Type ℓ} → A → Result SqlxError (List A) → Result SqlxError (List A)
cons_values values (err e) = err e
cons_values values (ok rest) = ok (values ∷ rest)

-- The values of rows until the stream ends or fails.
abbrev pub all_values :
    (List ℕ → String) → List (Result SqlxError Row) → Result SqlxError (List (List Value))
all_values encode [] = ok []
all_values encode (err e ∷ items) = err e
all_values encode (ok row ∷ items) = elim (row_values encode row) [
  | err e ↦ err e
  | ok values ↦ cons_values values (all_values encode items)
]

-- The columns of the first row that has any.
abbrev pub first_columns : List (Result SqlxError Row) → List String
first_columns [] = []
first_columns (err e ∷ items) = []
first_columns (ok row ∷ items) = elim (column_names row) [
  | [] ↦ first_columns items
  | column ∷ columns ↦ column ∷ columns
]

-- A page from the rows and from what follows them, whose columns are the second ones.
abbrev pub assemble :
    RowFormat
    → List String
    → List String
    → Result SqlxError (List (List Value))
    → List (Result SqlxError Row)
    → Result SqlxError QueryResponse
assemble format columns with_next (err e) following = err e
assemble format columns with_next (ok rows) [] =
    ok (record { columns = columns; rows = rows; format = format; truncated = false })
assemble format columns with_next (ok rows) (err e ∷ items) = err e
assemble format columns with_next (ok rows) (ok row ∷ items) =
    ok (record { columns = with_next; rows = rows; format = format; truncated = true })

-- The page without the loop: the values of the first `limit` items, and whether another row follows.
abbrev pub page :
    (List ℕ → String) → ℕ → RowFormat → List (Result SqlxError Row) → Result SqlxError QueryResponse
page encode limit format items =
    assemble format (first_columns (take limit items)) (first_columns (take (suc limit) items))
      (all_values encode (take limit items)) (drop limit items)

-- The columns that are there, or else those that follow.
abbrev or_columns : List String → List String → List String
or_columns [] later = later
or_columns (column ∷ columns) later = column ∷ columns

-- What a page adds to what has been read.
abbrev paste : QueryResponse → Result SqlxError QueryResponse → Result SqlxError QueryResponse
paste response (err e) = err e
paste response (ok p) = ok (record {
  columns = or_columns response.columns p.columns;
  rows = response.rows ++ p.rows;
  format = response.format;
  truncated = p.truncated;
})

or_columns_nil : (columns : List String) → or_columns columns [] ≡ columns
or_columns_nil [] = refl
or_columns_nil (column ∷ columns) = refl

or_columns_row :
    (columns : List String) (row : Row) (items : List (Result SqlxError Row))
    → or_columns (columns_or columns row) (first_columns items)
      ≡ or_columns columns (first_columns (ok row ∷ items))
or_columns_row (column ∷ columns) row items = refl
or_columns_row [] [] items = refl
or_columns_row [] (cell ∷ cells) items = refl

-- A row that is read first comes first in the page.
paste_row :
    (row : Row) (values : List Value) (response : QueryResponse)
    (now now' later later' : List String) (rows : Result SqlxError (List (List Value)))
    (following : List (Result SqlxError Row))
    → or_columns (columns_or response.columns row) now ≡ or_columns response.columns later
    → or_columns (columns_or response.columns row) now' ≡ or_columns response.columns later'
    → paste
        (record response {
          columns = columns_or response.columns row;
          rows = response.rows ++ values ∷ [];
        })
        (assemble response.format now now' rows following)
      ≡ paste response (assemble response.format later later' (cons_values values rows) following)
paste_row row values response now now' later later' (err e) following same same' = refl
paste_row row values response now now' later later' (ok rows) (err e ∷ items) same same' = refl
paste_row row values response now now' later later' (ok rows) [] same same' =
    rw (same, append_assoc response.rows (values ∷ []) rows) refl
paste_row row values response now now' later later' (ok rows) (ok next ∷ items) same same' =
    rw (same', append_assoc response.rows (values ∷ []) rows) refl

module _ (encode : List ℕ → String) (limit : ℕ) where
  all_values_row :
      (values : List Value) (row : Row) (items : List (Result SqlxError Row))
      → row_values encode row ≡ ok values
      → all_values encode (ok row ∷ items) ≡ cons_values values (all_values encode items)
  all_values_row values row items read = rw (read, all_values) refl

  all_values_failed :
      (e : SqlxError) (row : Row) (items : List (Result SqlxError Row))
      → row_values encode row ≡ err e
      → all_values encode (ok row ∷ items) ≡ err e
  all_values_failed e row items failed = rw (failed, all_values) refl

  read_rows_from :
      (n : ℕ) (items : List (Result SqlxError Row)) (response : QueryResponse)
      → limit ≡ length response.rows + n
      → response.truncated ≡ false
      → read_rows encode limit items response ≡ paste response (page encode n response.format items)
  unfolding read_rows
  read_rows_from zero [] response room going =
      ground (arith, or_columns_nil response.columns, append-nil response.rows)
  read_rows_from (suc n) [] response room going =
      ground (arith, or_columns_nil response.columns, append-nil response.rows)
  read_rows_from zero (err e ∷ items) response room going = refl
  read_rows_from (suc n) (err e ∷ items) response room going = refl
  read_rows_from zero (ok row ∷ items) response room going =
      let full : (length response.rows == limit) ≡ true = ground arith in
      rw (full, read_rows)
        (ground (arith, or_columns_row response.columns row [], append-nil response.rows))
  read_rows_from (suc n) (ok row ∷ items) response room going =
      let more : (length response.rows == limit) ≡ false = ground arith in
      elim (Result-cases (row_values encode row)) [
        | inr (e, failed) ↦
            rw (more, read_rows, failed, all_values_failed e row (take n items) failed) refl
        | inl (values, read) ↦
            rw (more, read_rows, read, all_values_row values row (take n items) read)
              (read_rows_from n items
                  (record response {
                    columns = columns_or response.columns row;
                    rows = response.rows ++ values ∷ [];
                  })
                  (omega (arith, length-append response.rows (values ∷ []))) going
                ∙ paste_row row values response _ _ _ _ (all_values encode (take n items))
                    (drop n items) (or_columns_row response.columns row (take n items))
                    (or_columns_row response.columns row (take (suc n) items)))
      ]

paste_empty :
    (format : RowFormat) (columns with_next : List String)
    (rows : Result SqlxError (List (List Value))) (following : List (Result SqlxError Row))
    → paste (empty_response format) (assemble format columns with_next rows following)
      ≡ assemble format columns with_next rows following
paste_empty format columns with_next (err e) following = refl
paste_empty format columns with_next (ok rows) [] = refl
paste_empty format columns with_next (ok rows) (err e ∷ items) = refl
paste_empty format columns with_next (ok rows) (ok row ∷ items) = refl

-- The loop of `query` gives the page of the stream: the values of its first `limit` rows, the
-- columns of the first row, `truncated` exactly when another row follows, and the first error among
-- those items and the one behind them.
pub read_rows-page :
    (encode : List ℕ → String) (limit : ℕ) (format : RowFormat)
    (items : List (Result SqlxError Row))
    → read_rows encode limit items (empty_response format) ≡ page encode limit format items
read_rows-page encode limit format items =
    read_rows_from encode limit limit items (empty_response format) (omega arith) refl
    ∙ paste_empty format (first_columns (take limit items)) (first_columns (take (suc limit) items))
        (all_values encode (take limit items)) (drop limit items)

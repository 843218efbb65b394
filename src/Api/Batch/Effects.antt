-- ===== src/Api/Batch/Effects.antt =====
-- The loop of `batch` in src/api.rs against that of `query`, on a statement that gives rows and then
-- its effect.
use tinkiva_sqllite_server.Prelude.{
  ℕ, zero, suc, String, ◌+◌, ◌≡◌, refl, ◌∙◌, true, false, List, [], ◌∷◌, ◌++◌, Result, ok, err,
  arith, ◌==◌, if◌then◌else◌, length, length-append, Result-cases, inl, inr,
}
use tinkiva_sqllite_server.Error.{SqlxError}
use tinkiva_sqllite_server.Api.Bind.{RowFormat}
use tinkiva_sqllite_server.Api.Rows.{Row, QueryResponse, columns_or, row_values, read_rows}
use tinkiva_sqllite_server.Api.Rows.Limit.{page, read_rows-page}
use tinkiva_sqllite_server.Api.Serialize.{BatchStatementResult}
use tinkiva_sqllite_server.Api.Batch.{
  Effect, effect, row, Stream, ends, gives, empty_result, read_items,
}

-- The rows of a statement, each with the state if the stream is dropped behind it, then its effect.
abbrev pub rows_then_effect : {S : Type 0} → List (Row × S) → Effect → S → Stream S
rows_then_effect [] done last = gives (effect done) last (ends last)
rows_then_effect ((r, dropped) ∷ rows) done last =
    gives (row r) dropped (rows_then_effect rows done last)

abbrev pub only_rows : {S : Type 0} → List (Row × S) → List (Result SqlxError Row)
only_rows [] = []
only_rows ((r, dropped) ∷ rows) = ok r ∷ only_rows rows

-- The state behind the first row that is left over, or else that behind the whole statement.
abbrev pub state_after : {S : Type 0} → ℕ → List (Row × S) → S → S
state_after n [] last = last
state_after zero ((r, dropped) ∷ rows) last = dropped
state_after (suc n) ((r, dropped) ∷ rows) last = state_after n rows last

-- A page with the effect of its statement, which a truncated page does not have.
abbrev pub with_effect : Effect → BatchStatementResult → QueryResponse → BatchStatementResult
with_effect done result rows = if rows.truncated then record result { rows = rows } else record {
  rows_affected = done.rows_affected;
  last_insert_rowid = done.last_insert_rowid;
  rows = rows;
}

abbrev pub reported :
    {S : Type 0}
    → Effect
    → BatchStatementResult
    → S
    → Result SqlxError QueryResponse
    → Result SqlxError (BatchStatementResult × S)
reported done result s (err e) = err e
reported done result s (ok rows) = ok (with_effect done result rows, s)

module _ {S : Type 0} (encode : List ℕ → String) (limit : ℕ) where
  read_items-reported :
      (n : ℕ) (rows : List (Row × S)) (done : Effect) (last : S) (result : BatchStatementResult)
      → limit ≡ length result.rows.rows + n
      → result.rows.truncated ≡ false
      → read_items encode limit (rows_then_effect rows done last) result
        ≡ reported done result
            (state_after n rows last)
            (read_rows encode limit (only_rows rows) result.rows)
  unfolding read_items read_rows
  read_items-reported n [] done last result room going = rw going refl
  read_items-reported zero ((r, dropped) ∷ rows) done last result room going =
      let full : (length result.rows.rows == limit) ≡ true = ground arith in
      rw (full, read_items, read_rows) refl
  read_items-reported (suc n) ((r, dropped) ∷ rows) done last result room going =
      let more : (length result.rows.rows == limit) ≡ false = ground arith in
      elim (Result-cases (row_values encode r)) [
        | inr (e, failed) ↦ rw (more, read_items, read_rows, failed) refl
        | inl (values, read) ↦
            rw (more, read_items, read_rows, read)
              (read_items-reported n rows done last
                (record result {
                  rows = record result.rows {
                    columns = columns_or result.rows.columns r;
                    rows = result.rows.rows ++ values ∷ [];
                  };
                })
                (omega (arith, length-append result.rows.rows (values ∷ []))) going)
      ]

  -- A statement of a batch that gives rows and then its effect answers the page that `query` gives
  -- on these rows, or the same error. It has its effect exactly when the page is not truncated: if
  -- it is, `rows_affected` and `last_insert_rowid` are 0, and the database is that of a stream
  -- dropped behind the first row too many.
  pub read_items-page :
      (format : RowFormat) (rows : List (Row × S)) (done : Effect) (last : S)
      → read_items encode limit (rows_then_effect rows done last) (empty_result format)
        ≡ reported done
            (empty_result format)
            (state_after limit rows last)
            (page encode limit format (only_rows rows))
  read_items-page format rows done last =
      read_items-reported limit rows done last (empty_result format) (omega arith) refl
      ∙ rw (read_rows-page encode limit format (only_rows rows)) refl

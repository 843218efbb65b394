-- ===== src/Api/Batch/Atomic.antt =====
-- `batch` of src/api.rs runs all of its statements or none.
use tinkiva_sqllite_server.Prelude.{
  ℕ, String, ◌≡◌, refl, ◌∙◌, none, some, List, [], ◌∷◌, ◌++◌, Result, ok, err, ℤ,
}
use mathlib.Core.List.{append_assoc, append-nil}
use tinkiva_sqllite_server.Error.{SqlxError, AppError, database}
use tinkiva_sqllite_server.Api.Json.{Value}
use tinkiva_sqllite_server.Api.Bind.{SqlRequest}
use tinkiva_sqllite_server.Api.Serialize.{BatchStatementResult, BatchResponse}
use tinkiva_sqllite_server.Api.Batch.{Engine, run_statement, run_statements}

module _ {S : Type 0} (engine : Engine S) (as_f64 : ℤ → ℕ) (to_text : Value → String)
    (encode : List ℕ → String) (limit : ℕ) where
  -- Every statement succeeds in the state that the one before it left, with these results.
  pub data Runs : List SqlRequest → S → List BatchStatementResult → S → Type 0 where
    stop : {s : S} → Runs [] s [] s
    step :
        {statement : SqlRequest} {statements : List SqlRequest} {s middle last : S}
        {result : BatchStatementResult} {results : List BatchStatementResult}
        → run_statement engine as_f64 to_text encode limit statement s ≡ ok (result, middle)
        → Runs statements middle results last
        → Runs (statement ∷ statements) s (result ∷ results) last

  Runs-run_statements :
      {statements : List SqlRequest} {s last : S} {results : List BatchStatementResult}
      (before : List BatchStatementResult)
      → Runs statements s results last
      → run_statements engine as_f64 to_text encode limit statements before s
        ≡ ok (before ++ results, last)
  unfolding run_statements
  Runs-run_statements before stop = rw (append-nil before) refl
  Runs-run_statements before (step {result} {results} good runs) =
      rw (good, run_statements)
        (Runs-run_statements (before ++ result ∷ []) runs
          ∙ rw (append_assoc before (result ∷ []) results) refl)

  -- The first statement that fails does so in the state that those before it left.
  pub data Fails : List SqlRequest → S → AppError → Type 0 where
    here :
        {statement : SqlRequest} {statements : List SqlRequest} {s : S} {error : AppError}
        → run_statement engine as_f64 to_text encode limit statement s ≡ err error
        → Fails (statement ∷ statements) s error
    later :
        {statement : SqlRequest} {statements : List SqlRequest} {s middle : S} {error : AppError}
        {result : BatchStatementResult}
        → run_statement engine as_f64 to_text encode limit statement s ≡ ok (result, middle)
        → Fails statements middle error
        → Fails (statement ∷ statements) s error

  -- What a batch may answer, and the database that it may leave.
  pub data Transaction : List SqlRequest → S → Result AppError BatchResponse → S → Type 0 where
    committed :
        {statements : List SqlRequest} {s last : S} {response : BatchResponse}
        → engine.begin s ≡ none
        → Runs statements s response.results last
        → engine.commit last ≡ none
        → Transaction statements s (ok response) last
    not_begun :
        {statements : List SqlRequest} {s : S} {error : SqlxError}
        → engine.begin s ≡ some error
        → Transaction statements s (err (database error)) s
    rolled_back :
        {statements : List SqlRequest} {s : S} {error : AppError}
        → engine.begin s ≡ none
        → Fails statements s error
        → Transaction statements s (err error) s
    not_committed :
        {statements : List SqlRequest} {results : List BatchStatementResult} {s last : S}
        {error : SqlxError}
        → engine.begin s ≡ none
        → Runs statements s results last
        → engine.commit last ≡ some error
        → Transaction statements s (err (database error)) s

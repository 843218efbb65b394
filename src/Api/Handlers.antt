-- ===== src/Api/Handlers.antt =====
-- src/api.rs: `query`, `execute`, `batch`, and `observe` and `authorize` around them, from a request
-- that axum has taken apart to the answer that it sends. What sqlx does with a pool is the `Service`.
use tinkiva_sqllite_server.Prelude.{
  ℕ, String, Bool, true, false, ◌&&◌, Option, none, some, List, [], ◌∷◌, Result, ok, err, leb, ltb,
  ℤ,
}
use tinkiva_sqllite_server.Error.{SqlxError, AppError, invalid_request, into_response}
use tinkiva_sqllite_server.Config.{Settings, DatabaseSettings}
use tinkiva_sqllite_server.Metrics
use tinkiva_sqllite_server.Db.Pools.{Pools, PoolOptions}
use tinkiva_sqllite_server.Db.State.{DatabaseManager, DatabaseLease, count, drop_lease, lease_pools}
use tinkiva_sqllite_server.Db.Acquire.{Others, Turn, acquire}
use tinkiva_sqllite_server.Api.{authorize}
use tinkiva_sqllite_server.Api.Json.{Value}
use tinkiva_sqllite_server.Api.Bind.{SqlRequest, Argument, validate_sql, bind_query}
use tinkiva_sqllite_server.Api.Rows.{Row, QueryResponse, empty_response, read_rows}
use tinkiva_sqllite_server.Api.Serialize.{
  ExecuteResult, BatchResponse, serialize_query, serialize_execute, serialize_batch,
}
use tinkiva_sqllite_server.Api.Batch.{Effect, Engine, database_error, transact}
pub mod Kept
pub mod Answers
pub mod Reached
pub mod Timed
pub mod Timely
mod Tests

-- `S` is the content of all database files. `fetch` works on the pool of readers, whose connections
-- cannot write.
pub record Service (S : Type 0) : Type 0 where
  pub fetch : PoolOptions → String → List Argument → S → List (Result SqlxError Row)
  pub execute : PoolOptions → String → List Argument → S → Result SqlxError Effect × S
  pub transaction : PoolOptions → Engine S

-- How a handler ends; `panicked` is the panic of `DatabaseLease::pools`.
pub data Reply (A : Type 0) : Type 0 where
  answered : Result AppError A → Reply A
  panicked : Reply A

abbrev pub World : Type 0 → Type 0
World S = DatabaseManager × S

-- What the other tasks do from the start of the wait for `acquire` until the statement runs (to the
-- files), and from then until the end of the handler (to the manager), and when its lease is dropped.
pub record Work (S : Type 0) : Type 0 where
  pub at_disk : S → S
  pub at_work : Others
  pub dropped_ms : ℕ

abbrev respond : {A B : Type 0} → (A → B) → Reply A → Reply B
respond f (answered (ok a)) = answered (ok (f a))
respond f (answered (err e)) = answered (err e)
respond f panicked = panicked

-- A use of the pools of a lease.
unfoldable pub on_pools :
    {S A : Type 0}
    → Work S
    → (Pools → S → Result AppError A × S)
    → DatabaseLease
    → World S
    → Reply A × World S
on_pools work use_pools lease (m, s) = elim (lease_pools lease m) [
  | none ↦ (panicked, (m, s))
  | some pools ↦
      let (result, s') = use_pools pools (work.at_disk s) in (answered result, (work.at_work m, s'))
]

-- `let lease = state.manager.acquire(&database).await?`, what follows it, and the end of `lease`,
-- which a return, a `?` and a panic come to alike.
unfoldable pub with_lease :
    {S A : Type 0}
    → (ℕ → Turn)
    → DatabaseSettings
    → String
    → ℕ
    → (DatabaseLease → World S → Reply A × World S)
    → World S
    → Reply A × World S
with_lease turns settings name dropped_ms body (m, s) =
    let (outcome, m') = acquire turns settings name m in
    elim outcome [
      | err e ↦ (answered (err e), (m', s))
      | ok lease ↦
          let (reply, (m'', s')) = body lease (m', s) in
          (reply, (drop_lease dropped_ms lease m'', s'))
    ]

-- A request to one of the three routes, with the database in its path and its body.
pub data Call : Type 0 where
  call_query : String → SqlRequest → Call
  call_execute : String → SqlRequest → Call
  call_batch : String → List SqlRequest → Call

module _ {S : Type 0} (service : Service S) (as_f64 : ℤ → ℕ) (to_text : Value → String)
    (encode : List ℕ → String) (turns : ℕ → Turn) (settings : DatabaseSettings)
    (work : Work S) where
  -- `bind_query(&request.sql, request.params)?`, and a use of the pools with its arguments.
  unfoldable pub bound :
      {A : Type 0}
      → SqlRequest
      → (List Argument → Pools → S → Result AppError A × S)
      → DatabaseLease
      → World S
      → Reply A × World S
  bound request use_pools lease world = elim (bind_query as_f64 to_text request.params) [
    | err e ↦ (answered (err e), world)
    | ok arguments ↦ on_pools work (use_pools arguments) lease world
  ]

  -- `query` and `execute` between `validate_sql` and the use of the pools.
  unfoldable pub validated :
      {A : Type 0}
      → String
      → SqlRequest
      → (List Argument → Pools → S → Result AppError A × S)
      → World S
      → Reply A × World S
  validated name request use_pools world = elim (validate_sql request.sql) [
    | err e ↦ (answered (err e), world)
    | ok _ ↦ with_lease turns settings name work.dropped_ms (bound request use_pools) world
  ]

  abbrev pub fetch_rows : SqlRequest → List Argument → Pools → S → Result AppError QueryResponse × S
  fetch_rows request arguments pools s = (
    database_error (
        read_rows encode settings.max_result_rows
          (service.fetch pools.readers request.sql arguments s) (empty_response request.format)),
    s,
  )

  abbrev pub execute_result : Result SqlxError Effect × S → Result AppError ExecuteResult × S
  execute_result (err e, s) = (database_error (err e), s)
  execute_result (ok effect, s) = (
    ok (record {
      rows_affected = effect.rows_affected;
      last_insert_rowid = effect.last_insert_rowid;
    }),
    s,
  )

  abbrev pub execute_statement :
      SqlRequest → List Argument → Pools → S → Result AppError ExecuteResult × S
  execute_statement request arguments pools s =
      execute_result (service.execute pools.writer request.sql arguments s)

  abbrev pub run_batch : List SqlRequest → Pools → S → Result AppError BatchResponse × S
  run_batch statements pools s =
      transact (service.transaction pools.writer) as_f64 to_text encode settings.max_result_rows
        statements s

  unfoldable pub query : String → SqlRequest → World S → Reply QueryResponse × World S
  query name request world = validated name request (fetch_rows request) world

  unfoldable pub execute : String → SqlRequest → World S → Reply ExecuteResult × World S
  execute name request world = validated name request (execute_statement request) world

  unfoldable pub batch : String → List SqlRequest → World S → Reply BatchResponse × World S
  batch name [] world = (answered (err (invalid_request "statements must not be empty")), world)
  batch name (statement ∷ statements) world =
      with_lease turns settings name work.dropped_ms
        (on_pools work (run_batch (statement ∷ statements))) world

  -- The handler of a route, and the `Json` of its answer.
  unfoldable pub handle : Call → World S → Reply Value × World S
  handle (call_query name request) world =
      let (reply, world') = query name request world in (respond serialize_query reply, world')
  handle (call_execute name request) world =
      let (reply, world') = execute name request world in (respond serialize_execute reply, world')
  handle (call_batch name statements) world =
      let (reply, world') = batch name statements world in (respond serialize_batch reply, world')

-- The path that the router matched.
abbrev pub matched_path : Call → String
matched_path (call_query name request) = "/v1/db/{database}/query"
matched_path (call_execute name request) = "/v1/db/{database}/execute"
matched_path (call_batch name statements) = "/v1/db/{database}/batch"

-- The status of a response; an answer that is no error is a `Json`, which is sent with 200.
abbrev pub status : (SqlxError → String) → Result AppError Value → ℕ
status display (ok value) = 200
status display (err e) = (into_response display e).status

-- `observe` behind `next.run`. A panic passes it by, on its way to `CatchPanicLayer`.
unfoldable pub observe :
    {S : Type 0} → (SqlxError → String) → String → ℕ → Reply Value × World S → Reply Value × World S
observe display route elapsed (panicked, world) = (panicked, world)
observe display route elapsed (answered result, (m, s)) =
    let is_success = leb 200 (status display result) && ltb (status display result) 300 in
    (answered result, (count (Metrics.record_request route elapsed is_success) m, s))

module _ {S : Type 0} (service : Service S) (as_f64 : ℤ → ℕ) (to_text : Value → String)
    (encode : List ℕ → String) (display : SqlxError → String) (to_str : List ℕ → Bool)
    (turns : ℕ → Turn) (settings : Settings) (work : Work S) where
  -- The layers of `router` around the three routes: `observe`, in it `authorize`, in it the handler.
  unfoldable pub serve : ℕ → Option (List ℕ) → Call → World S → Reply Value × World S
  serve elapsed authorization call world = elim (authorize to_str settings authorization) [
    | err e ↦ observe display (matched_path call) elapsed (answered (err e), world)
    | ok _ ↦
        observe display (matched_path call) elapsed
          (handle service as_f64 to_text encode turns settings.database work call world)
  ]

-- ===== src/Api/Handlers/Timed.antt =====
-- src/api.rs: the `TimeoutLayer` of `router` around the three handlers. When the time is over, the
-- future of a request is dropped at the `await` where it is, with what it has in hand.
use tinkiva_sqllite_server.Prelude.{
  ℕ, ℤ, String, Bool, true, false, ◌&&◌, Option, none, some, List, [], ◌∷◌, Result, ok, err, ◌==◌,
  if◌then◌else◌,
}
use tinkiva_sqllite_server.Error.{SqlxError, AppError, invalid_request}
use tinkiva_sqllite_server.Config.{Settings, DatabaseSettings}
use tinkiva_sqllite_server.Db.Pools.{Pools}
use tinkiva_sqllite_server.Db.State.{DatabaseLease, drop_lease}
use tinkiva_sqllite_server.Db.Acquire.{Turn}
use tinkiva_sqllite_server.Db.Acquire.Timed.{timed_acquire}
use tinkiva_sqllite_server.Api.{authorize}
use tinkiva_sqllite_server.Api.Json.{Value}
use tinkiva_sqllite_server.Api.Bind.{SqlRequest, Argument, validate_sql, bind_query}
use tinkiva_sqllite_server.Api.Serialize.{serialize_query, serialize_execute, serialize_batch}
use tinkiva_sqllite_server.Api.Handlers.{
  Service, Reply, answered, respond, World, Work, on_pools, bound, fetch_rows, execute_statement,
  run_batch, Call, call_query, call_execute, call_batch, matched_path, observe,
}

-- When the time of a request is over: how many awaits end in time, and what becomes of the files
-- under a statement whose future is dropped.
pub record Deadline (S : Type 0) : Type 0 where
  pub budget : ℕ
  pub at_cut : S → S

abbrev pub is_ok : {A : Type 0} → Result AppError A → Bool
is_ok (ok a) = true
is_ok (err e) = false

-- A reply, or `none` for the status 408 of the layer.
abbrev pub Late : Type 0 → Type 0
Late A = Option (Reply A)

abbrev pub late : {A B : Type 0} → (Reply A → Reply B) → Late A → Late B
late f none = none
late f (some reply) = some (f reply)

module _ {S : Type 0} (turns : ℕ → Turn) (settings : DatabaseSettings) (work : Work S)
    (deadline : Deadline S) where
  -- `waits` says whether `body` comes to its statements, whose awaits count as one.
  unfoldable pub timed_lease :
      {A : Type 0}
      → String
      → Bool
      → (DatabaseLease → World S → Reply A × World S)
      → World S
      → Late A × World S
  timed_lease name waits body (m, s) =
      let (progress, m') = timed_acquire turns settings name deadline.budget m in
      elim progress [
        | none ↦ (none, (m', s))
        | some (outcome, left) ↦ elim outcome [
          | err e ↦ (some (answered (err e)), (m', s))
          | ok lease ↦
              let (reply, (m'', s')) = body lease (m', s) in
              if waits && left == 0
              then (none, (drop_lease work.dropped_ms lease (work.at_work m'), deadline.at_cut s))
              else (some reply, (drop_lease work.dropped_ms lease m'', s'))
        ]
      ]

module _ {S : Type 0} (service : Service S) (as_f64 : ℤ → ℕ) (to_text : Value → String)
    (encode : List ℕ → String) (turns : ℕ → Turn) (settings : DatabaseSettings) (work : Work S)
    (deadline : Deadline S) where
  unfoldable pub timed_validated :
      {A : Type 0}
      → String
      → SqlRequest
      → (List Argument → Pools → S → Result AppError A × S)
      → World S
      → Late A × World S
  timed_validated name request use_pools world = elim (validate_sql request.sql) [
    | err e ↦ (some (answered (err e)), world)
    | ok _ ↦
        timed_lease turns settings work deadline name
          (is_ok (bind_query as_f64 to_text request.params))
          (bound service as_f64 to_text encode turns settings work request use_pools) world
  ]

  unfoldable pub timed_handle : Call → World S → Late Value × World S
  timed_handle (call_query name request) world =
      let (reply, world') =
        timed_validated name request
          (fetch_rows service as_f64 to_text encode turns settings work request) world in
      (late (respond serialize_query) reply, world')
  timed_handle (call_execute name request) world =
      let (reply, world') =
        timed_validated name request
          (execute_statement service as_f64 to_text encode turns settings work request) world in
      (late (respond serialize_execute) reply, world')
  timed_handle (call_batch name []) world =
      (some (answered (err (invalid_request "statements must not be empty"))), world)
  timed_handle (call_batch name (statement ∷ statements)) world =
      let (reply, world') =
        timed_lease turns settings work deadline name true
          (on_pools work
            (run_batch service as_f64 to_text encode turns settings work (statement ∷ statements)))
          world in
      (late (respond serialize_batch) reply, world')

-- `observe` is dropped with the request.
unfoldable pub timed_observe :
    {S : Type 0} → (SqlxError → String) → String → ℕ → Late Value × World S → Late Value × World S
timed_observe display route elapsed (none, world) = (none, world)
timed_observe display route elapsed (some reply, world) =
    let (observed, world') = observe display route elapsed (reply, world) in (some observed, world')

module _ {S : Type 0} (service : Service S) (as_f64 : ℤ → ℕ) (to_text : Value → String)
    (encode : List ℕ → String) (display : SqlxError → String) (to_str : List ℕ → Bool)
    (turns : ℕ → Turn) (settings : Settings) (work : Work S) (deadline : Deadline S) where
  -- The layers of `router` around the three routes, the timeout among them.
  unfoldable pub timed_serve : ℕ → Option (List ℕ) → Call → World S → Late Value × World S
  timed_serve elapsed authorization call world = elim (authorize to_str settings authorization) [
    | err e ↦ timed_observe display (matched_path call) elapsed (some (answered (err e)), world)
    | ok _ ↦ timed_observe display (matched_path call) elapsed (
        timed_handle service as_f64 to_text encode turns settings.database work deadline call world)
  ]

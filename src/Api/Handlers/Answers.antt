-- ===== src/Api/Handlers/Answers.antt =====
-- What the handlers of src/api.rs answer, and from which file.
use tinkiva_sqllite_server.Prelude.{
  ◌∙◌, ℕ, String, ◌≡◌, ◌≢◌, refl, sym, not, ◌==◌, length, ◌||◌, Option-cases, Bool-cases, Bool,
  false, Option, some, List, [], Result, ok, err, ℤ, inl, inr, bytes,
}
use tinkiva_sqllite_server.Api.Batch.{Effect}
use tinkiva_sqllite_server.Error.{
  database, SqlxError, AppError, unauthorized, into_response, status_and_code,
}
use tinkiva_sqllite_server.Config.{Settings, DatabaseSettings}
use tinkiva_sqllite_server.Metrics
use tinkiva_sqllite_server.Db.Names.{database_path}
use tinkiva_sqllite_server.Db.Pools.{Pools}
use tinkiva_sqllite_server.Db.State.{DatabaseManager, DatabaseLease, count, drop_lease, lease_pools}
use tinkiva_sqllite_server.Db.Acquire.{Turn, acquire}
use tinkiva_sqllite_server.Db.Tenancy.{Tenancy, IsOnFile}
use tinkiva_sqllite_server.Db.Tenancy.Leases.{Peaceful}
use tinkiva_sqllite_server.Db.Tenancy.Isolation.{lease_pools-acquire}
use tinkiva_sqllite_server.Api.{provided, eq_bytes, authorize}
use tinkiva_sqllite_server.Api.Token.{IsBearer, authorize-IsBearer}
use tinkiva_sqllite_server.Api.Json.{Value}
use tinkiva_sqllite_server.Api.Bind.{SqlRequest, Argument, validate_sql, bind_query}
use tinkiva_sqllite_server.Api.Rows.Limit.{page, read_rows-page}
use tinkiva_sqllite_server.Api.Batch.{database_error}
use tinkiva_sqllite_server.Api.Handlers.{
  execute, execute_statement, execute_result, Service, answered, World, Work, on_pools, with_lease,
  bound, validated, fetch_rows, query, Call, matched_path, observe, serve,
}

-- The world after a handler whose lease was `l`.
abbrev pub world_after :
    {S : Type 0}
    → (ℕ → Turn)
    → DatabaseSettings
    → Work S
    → String
    → DatabaseLease
    → DatabaseManager
    → S
    → World S
world_after turns settings work name l m s =
    (drop_lease work.dropped_ms l (work.at_work (acquire turns settings name m).1), s)

module _ {S : Type 0} (service : Service S) (as_f64 : ℤ → ℕ) (to_text : Value → String)
    (encode : List ℕ → String) (turns : ℕ → Turn) (settings : DatabaseSettings)
    (work : Work S) where
  validated_answer :
      {A : Type 0} (name : String) (request : SqlRequest)
      (use_pools : List Argument → Pools → S → Result AppError A × S) (m : DatabaseManager) (s : S)
      (arguments : List Argument) (l : DatabaseLease) (pools : Pools)
      → validate_sql request.sql ≡ ok tt
      → bind_query as_f64 to_text request.params ≡ ok arguments
      → (acquire turns settings name m).0 ≡ ok l
      → lease_pools l (acquire turns settings name m).1 ≡ some pools
      → validated service as_f64 to_text encode turns settings work name request use_pools (m, s)
        ≡ (
          answered (use_pools arguments pools (work.at_disk s)).0,
          world_after turns settings work name l m (use_pools arguments pools (work.at_disk s)).1,
        )
  unfolding validated with_lease bound on_pools
  validated_answer name request use_pools m s arguments l pools valid found given there =
      rw (valid, validated, given, with_lease, found, bound, there, on_pools) refl

  -- Where entries are linked under their own names with pools on their own files, and the other
  -- tasks keep that, a valid statement whose parameters are bound and whose database is
  -- acquired is run by `query` on the readers of the pools that the lease points to, which are on
  -- the file of that database, and the answer is the page of the rows that they give.
  pub query_answer :
      (name : String) (request : SqlRequest) (m : DatabaseManager) (s : S)
      (arguments : List Argument) (l : DatabaseLease)
      → ((n : ℕ) → Peaceful settings (turns n))
      → Tenancy settings m
      → validate_sql request.sql ≡ ok tt
      → bind_query as_f64 to_text request.params ≡ ok arguments
      → (acquire turns settings name m).0 ≡ ok l
      → (pools : Pools) × (lease_pools l (acquire turns settings name m).1 ≡ some pools)
        × IsOnFile (database_path settings name) pools
        × (query service as_f64 to_text encode turns settings work name request (m, s) ≡ (
          answered (
              database_error (
                page encode settings.max_result_rows request.format
                  (service.fetch pools.readers request.sql arguments (work.at_disk s)))),
          world_after turns settings work name l m (work.at_disk s),
        ))
  unfolding query
  query_answer name request m s arguments l peaceful h valid found given =
      let (pools, there, on_file) = lease_pools-acquire settings turns name m l peaceful h given in
      (
        pools,
        there,
        on_file,
        rw
            (sym (
              read_rows-page encode settings.max_result_rows request.format
                (service.fetch pools.readers request.sql arguments (work.at_disk s))))
            (validated_answer name request
              (fetch_rows service as_f64 to_text encode turns settings work request) m s arguments l
              pools valid found given there),
      )

  -- Where entries are linked under their own names with pools on their own files, and the other
  -- tasks keep that, a valid statement whose parameters are bound and whose database is
  -- acquired is run by `execute` on the writer of the pools that the lease points to, which are on
  -- the file of that database: the answer is its effect or its error, and the files are what it
  -- leaves.
  pub execute_answer :
      (name : String) (request : SqlRequest) (m : DatabaseManager) (s : S)
      (arguments : List Argument) (l : DatabaseLease)
      → ((n : ℕ) → Peaceful settings (turns n))
      → Tenancy settings m
      → validate_sql request.sql ≡ ok tt
      → bind_query as_f64 to_text request.params ≡ ok arguments
      → (acquire turns settings name m).0 ≡ ok l
      → (pools : Pools) × (lease_pools l (acquire turns settings name m).1 ≡ some pools)
        × IsOnFile (database_path settings name) pools
        × ((effect : Effect)
            → (service.execute pools.writer request.sql arguments (work.at_disk s)).0 ≡ ok effect
            → execute service as_f64 to_text encode turns settings work name request (m, s) ≡ (
              answered (
                  ok (record {
                    rows_affected = effect.rows_affected;
                    last_insert_rowid = effect.last_insert_rowid;
                  })),
              world_after turns settings work name l m
                  (service.execute pools.writer request.sql arguments (work.at_disk s)).1,
            ))
        × ((e : SqlxError)
            → (service.execute pools.writer request.sql arguments (work.at_disk s)).0 ≡ err e
            → execute service as_f64 to_text encode turns settings work name request (m, s) ≡ (
              answered (err (database e)),
              world_after turns settings work name l m
                  (service.execute pools.writer request.sql arguments (work.at_disk s)).1,
            ))
  unfolding execute
  execute_answer name request m s arguments l peaceful h valid found given =
      let (pools, there, on_file) = lease_pools-acquire settings turns name m l peaceful h given in
      let run = execute_statement service as_f64 to_text encode turns settings work request in
      let ran = validated_answer name request run m s arguments l pools valid found given there in
      (
        pools,
        there,
        on_file,
        (λ effect good. ran ∙ rw (good, execute_result) refl),
        λ e bad. ran ∙ rw (bad, execute_result) refl,
      )

authorize_denied :
    (to_str : List ℕ → Bool) (settings : Settings) (authorization : Option (List ℕ))
    → authorize to_str settings authorization ≢ ok tt
    → authorize to_str settings authorization ≡ err unauthorized
unfolding authorize
authorize_denied to_str settings authorization denied =
    elim (Option-cases settings.server.auth_token) [
      | inl free ↦ absurd (denied (rw (free, authorize) refl))
      | inr (expected, there) ↦
          elim (Bool-cases (
            not (length (provided to_str authorization) == length (bytes expected))
            || not (eq_bytes (provided to_str authorization) (bytes expected)))) [
              | inl differ ↦ rw (there, authorize, differ) refl
              | inr same ↦ absurd (denied (rw (there, authorize, same) refl))
            ]
    ]

-- With a token configured that is not empty, a request whose header is not `Bearer ` and the token
-- is refused before its handler: it is counted as failed on its route, and
-- nothing else changes, neither the manager nor a database.
pub serve_denied :
    {S : Type 0} (service : Service S) (as_f64 : ℤ → ℕ) (to_text : Value → String)
    (encode : List ℕ → String) (display : SqlxError → String) (to_str : List ℕ → Bool)
    (turns : ℕ → Turn) (settings : Settings) (work : Work S) (elapsed : ℕ)
    (authorization : Option (List ℕ)) (call : Call) (m : DatabaseManager) (s : S) (token : String)
    → settings.server.auth_token ≡ some token
    → bytes token ≢ []
    → (IsBearer to_str authorization (bytes token) → ⊥)
    → serve service as_f64 to_text encode display to_str turns settings work elapsed authorization
        call
        (m, s)
      ≡ (
        answered (err unauthorized),
        (count (Metrics.record_request (matched_path call) elapsed false) m, s),
      )
unfolding serve observe into_response status_and_code
serve_denied service as_f64 to_text encode display to_str turns settings work elapsed authorization
      call m s token configured there other =
    let denied = authorize_denied to_str settings authorization λ passes.
      other ((authorize-IsBearer to_str settings token authorization configured there).0 passes) in
    rw (denied, serve) refl

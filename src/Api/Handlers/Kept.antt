-- ===== src/Api/Handlers/Kept.antt =====
-- The handlers of src/api.rs against the counts of leases and permits.
use tinkiva_sqllite_server.Prelude.{
  Bool, ℕ, String, ◌+◌, ◌<◌, ◌≢◌, refl, Option, List, [], ◌∷◌, Result, ok, err, arith, length, ℤ,
  inl, inr, Option-cases, Result-cases, leb, ltb, ◌&&◌,
}
use tinkiva_sqllite_server.Error.{SqlxError, AppError, invalid_request}
use tinkiva_sqllite_server.Config.{Settings, DatabaseSettings}
use tinkiva_sqllite_server.Metrics
use tinkiva_sqllite_server.Db.Pools.{Pools}
use tinkiva_sqllite_server.Db.State.{
  DatabaseManager, DatabaseLease, Hold, hold_of, drop_lease, lease_pools,
}
use tinkiva_sqllite_server.Db.Acquire.{Turn, acquire}
use tinkiva_sqllite_server.Db.Acquire.Fair.{IsFair, Fair, IsOpen}
use tinkiva_sqllite_server.Db.Acquire.Balance.{acquire-Balanced}
use tinkiva_sqllite_server.Db.Invariant.{Inv, many}
use tinkiva_sqllite_server.Db.Invariant.Counts.{drop-Inv}
use tinkiva_sqllite_server.Db.Invariant.Steps.{count-Inv}
use tinkiva_sqllite_server.Api.{authorize}
use tinkiva_sqllite_server.Api.Json.{Value}
use tinkiva_sqllite_server.Api.Bind.{SqlRequest, Argument, validate_sql, bind_query}
use tinkiva_sqllite_server.Api.Serialize.{serialize_query, serialize_execute, serialize_batch}
use tinkiva_sqllite_server.Api.Handlers.{
  Service, Reply, answered, panicked, respond, World, Work, on_pools, with_lease, bound, validated,
  query, execute, batch, Call, call_query, call_execute, call_batch, matched_path, status, observe,
  handle, serve,
}

-- A handler that ended without a panic and left the accounts those of the leases `own`.
pub record Kept {S A : Type 0} (settings : DatabaseSettings) (own : List Hold)
    (r : Reply A × World S) : Type 0 where
  pub inv : Inv settings own r.1.0
  pub answers : r.0 ≢ panicked

answered-Kept :
    {S A : Type 0} (settings : DatabaseSettings) (own : List Hold) (result : Result AppError A)
    (m : DatabaseManager) (s : S)
    → Inv settings own m
    → Kept settings own (answered result, (m, s))
answered-Kept settings own result m s inv = record {
  inv = inv;
  answers = λ h. absurd (ground arith);
}

respond-Kept :
    {S A B : Type 0} (settings : DatabaseSettings) (own : List Hold) (f : A → B) (r : Reply A)
    (world : World S)
    → Kept settings own (r, world)
    → Kept settings own (respond f r, world)
respond-Kept settings own f (answered (ok a)) world kept = record {
  inv = kept.inv;
  answers = λ h. absurd (ground arith);
}
respond-Kept settings own f (answered (err e)) world kept = record {
  inv = kept.inv;
  answers = λ h. absurd (ground arith);
}
respond-Kept settings own f panicked world kept = absurd (kept.answers refl)

observe-Kept :
    {S : Type 0} (settings : DatabaseSettings) (own : List Hold) (display : SqlxError → String)
    (route : String) (elapsed : ℕ) (r : Reply Value) (world : World S)
    → Kept settings own (r, world)
    → Kept settings own (observe display route elapsed (r, world))
unfolding observe
observe-Kept settings own display route elapsed panicked world kept = kept
observe-Kept settings own display route elapsed (answered result) (m, s) kept =
    let is_success = leb 200 (status display result) && ltb (status display result) 300 in
    answered-Kept settings own result _ s
      (count-Inv settings own (Metrics.record_request route elapsed is_success) m kept.inv)

module _ {S : Type 0} (settings : DatabaseSettings) (work : Work S) where
  on_pools-Kept :
      {A : Type 0} (own : List Hold) (use_pools : Pools → S → Result AppError A × S)
      (l : DatabaseLease) (m : DatabaseManager) (s : S)
      → IsFair settings work.at_work
      → Inv settings own m
      → IsOpen l.entry m
      → Kept settings own (on_pools work use_pools l (m, s))
  unfolding on_pools lease_pools
  on_pools-Kept own use_pools l m s fair inv (e, read, open_there) = elim (Option-cases e.pools) [
    | inl shut ↦ absurd (open_there shut)
    | inr (pools, there) ↦
        rw (read, on_pools, lease_pools, there)
          (answered-Kept settings own (use_pools pools (work.at_disk s)).0 _ _ (fair own m inv))
  ]

  with_lease-Kept :
      {A : Type 0} (own : List Hold) (turns : ℕ → Turn) (name : String)
      (body : DatabaseLease → World S → Reply A × World S) (m : DatabaseManager) (s : S)
      → ((n : ℕ) → Fair settings (turns n))
      → length own + 1 < many
      → ((l : DatabaseLease) (m : DatabaseManager)
          → Inv settings (hold_of l ∷ own) m
          → IsOpen l.entry m
          → Kept settings (hold_of l ∷ own) (body l (m, s)))
      → Inv settings own m
      → Kept settings own (with_lease turns settings name work.dropped_ms body (m, s))
  unfolding with_lease drop_lease
  with_lease-Kept own turns name body m s fair few used inv =
      let balanced = acquire-Balanced settings own turns name m fair few inv in
      let m' = (acquire turns settings name m).1 in
      elim (Result-cases (acquire turns settings name m).0) [
        | inr (e, failed) ↦
            rw (failed, with_lease)
              (answered-Kept settings own (err e) m' s (balanced.refused e failed))
        | inl (l, given) ↦
            let (_, inv', there) = balanced.given l given in
            let kept = used l m' inv' there in
            rw (given, with_lease)
              (record {
                inv = drop-Inv settings own work.dropped_ms (hold_of l) _ kept.inv;
                answers = kept.answers;
              })
      ]

module _ {S : Type 0} (service : Service S) (as_f64 : ℤ → ℕ) (to_text : Value → String)
    (encode : List ℕ → String) (turns : ℕ → Turn) (settings : DatabaseSettings) (work : Work S)
    (own : List Hold) where
  validated-Kept :
      {A : Type 0} (name : String) (request : SqlRequest)
      (use_pools : List Argument → Pools → S → Result AppError A × S) (m : DatabaseManager) (s : S)
      → ((n : ℕ) → Fair settings (turns n))
      → IsFair settings work.at_work
      → length own + 1 < many
      → Inv settings own m
      → Kept settings own (
          validated service as_f64 to_text encode turns settings work name request use_pools (m, s))
  unfolding validated bound
  validated-Kept name request use_pools m s fair working few inv =
      elim (Result-cases (validate_sql request.sql)) [
        | inr (e, failed) ↦ rw (failed, validated) (answered-Kept settings own (err e) m s inv)
        | inl (good, valid) ↦
            rw (valid, validated)
              (with_lease-Kept settings work own turns name _ m s fair few
                (λ l m' inv' there. elim (Result-cases (bind_query as_f64 to_text request.params)) [
                  | inr (e, failed) ↦
                      rw (failed, bound)
                        (answered-Kept settings (hold_of l ∷ own) (err e) m' s inv')
                  | inl (arguments, found) ↦
                      rw (found, bound)
                        (on_pools-Kept settings work (hold_of l ∷ own) (use_pools arguments) l m' s
                          working inv' there)
                ])
                inv)
      ]

  batch-Kept :
      (name : String) (statements : List SqlRequest) (m : DatabaseManager) (s : S)
      → ((n : ℕ) → Fair settings (turns n))
      → IsFair settings work.at_work
      → length own + 1 < many
      → Inv settings own m
      → Kept settings own
          (batch service as_f64 to_text encode turns settings work name statements (m, s))
  unfolding batch
  batch-Kept name [] m s fair working few inv =
      answered-Kept settings own (err (invalid_request "statements must not be empty")) m s inv
  batch-Kept name (statement ∷ statements) m s fair working few inv =
      with_lease-Kept settings work own turns name _ m s fair few
        (λ l m' inv' there.
          on_pools-Kept settings work (hold_of l ∷ own) _ l m' s working inv' there)
        inv

  handle-Kept :
      (call : Call) (m : DatabaseManager) (s : S)
      → ((n : ℕ) → Fair settings (turns n))
      → IsFair settings work.at_work
      → length own + 1 < many
      → Inv settings own m
      → Kept settings own (handle service as_f64 to_text encode turns settings work call (m, s))
  unfolding handle query execute
  handle-Kept (call_query name request) m s fair working few inv =
      respond-Kept settings own serialize_query _ _
        (validated-Kept name request _ m s fair working few inv)
  handle-Kept (call_execute name request) m s fair working few inv =
      respond-Kept settings own serialize_execute _ _
        (validated-Kept name request _ m s fair working few inv)
  handle-Kept (call_batch name statements) m s fair working few inv =
      respond-Kept settings own serialize_batch _ _
        (batch-Kept name statements m s fair working few inv)

module _ {S : Type 0} (service : Service S) (as_f64 : ℤ → ℕ) (to_text : Value → String)
    (encode : List ℕ → String) (display : SqlxError → String) (to_str : List ℕ → Bool)
    (turns : ℕ → Turn) (settings : Settings) (work : Work S) (own : List Hold) where
  -- Where the invariant holds, the other tasks keep it at every `await`, and the task has room for
  -- one more lease below 2 ^ 63, a request to one of the three routes is answered without a panic
  -- of the handler, and in the end the capacity, the registry and the counts of leases and permits
  -- hold again for the leases that the task had before: on every path the lease is given back.
  pub serve-Kept :
      (elapsed : ℕ) (authorization : Option (List ℕ)) (call : Call) (m : DatabaseManager) (s : S)
      → ((n : ℕ) → Fair settings.database (turns n))
      → IsFair settings.database work.at_work
      → length own + 1 < many
      → Inv settings.database own m
      → Kept settings.database own (
          serve service as_f64 to_text encode display to_str turns settings work elapsed
            authorization call
            (m, s))
  unfolding serve
  serve-Kept elapsed authorization call m s fair working few inv =
      elim (Result-cases (authorize to_str settings authorization)) [
        | inr (e, denied) ↦
            rw (denied, serve)
              (observe-Kept settings.database own display (matched_path call) elapsed
                (answered (err e)) (m, s) (answered-Kept settings.database own (err e) m s inv))
        | inl (good, allowed) ↦
            rw (allowed, serve)
              (observe-Kept settings.database own display (matched_path call) elapsed _ _ (
                handle-Kept service as_f64 to_text encode turns settings.database work own call m s
                  fair working few inv))
      ]

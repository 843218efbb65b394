-- ===== src/Api/Handlers/Reached.antt =====
-- A request to src/api.rs on a server that any interleaving of tasks of src/db.rs has led to.
use tinkiva_sqllite_server.Prelude.{
  Bool, ℕ, String, ◌<◌, ◌≢◌, Option, List, [], ◌∷◌, Result, err, arith, length, ℤ, inl, inr,
  Option-cases, Result-cases, leb, ltb, ◌&&◌,
}
use tinkiva_sqllite_server.Error.{SqlxError, AppError}
use tinkiva_sqllite_server.Config.{Settings, DatabaseSettings}
use tinkiva_sqllite_server.Metrics
use tinkiva_sqllite_server.Db.Pools.{Pools}
use tinkiva_sqllite_server.Db.State.{
  DatabaseManager, DatabaseLease, hold_of, count, drop, drop_lease, lease_pools,
}
use tinkiva_sqllite_server.Db.Acquire.{Turn, acquire}
use tinkiva_sqllite_server.Db.Tenancy.{Tenancy}
use tinkiva_sqllite_server.Db.System.{
  Steps, done, before, counted, Steps-trans, Reach, others_room, IsScheduled, Scheduled, Led,
}
use tinkiva_sqllite_server.Db.System.Sound.{Reach-Inv}
use tinkiva_sqllite_server.Db.System.Frame.{drop_leases}
use tinkiva_sqllite_server.Db.System.Beside.{Steps-adding, Steps-few, Still-few}
use tinkiva_sqllite_server.Db.System.Apart.{Reach-Tenancy, IsScheduled-IsFair, Scheduled-Fair}
use tinkiva_sqllite_server.Db.System.Own.{drop_step}
use tinkiva_sqllite_server.Db.System.Acquire.Rounds.{acquire-Stepped}
use tinkiva_sqllite_server.Api.{authorize}
use tinkiva_sqllite_server.Api.Json.{Value}
use tinkiva_sqllite_server.Api.Bind.{SqlRequest, Argument, validate_sql, bind_query}
use tinkiva_sqllite_server.Api.Handlers.{
  Service, Reply, answered, panicked, World, Work, on_pools, with_lease, bound, validated, query,
  execute, batch, Call, call_query, call_execute, call_batch, matched_path, status, observe, handle,
  serve,
}
use tinkiva_sqllite_server.Api.Handlers.Kept.{serve-Kept}

module _ {S : Type 0} {settings : DatabaseSettings} where
  -- With a lease, nothing but the others' steps.
  on_pools-Steps :
      {A : Type 0} (work : Work S) (use_pools : Pools → S → Result AppError A × S)
      (l : DatabaseLease) (m : DatabaseManager) (s : S)
      → IsScheduled settings work.at_work
      → Steps settings others_room m (on_pools work use_pools l (m, s)).1.0
  unfolding on_pools
  on_pools-Steps work use_pools l m s working = elim (Option-cases (lease_pools l m)) [
    | inl shut ↦ rw (shut, on_pools) done
    | inr (pools, there) ↦ rw (there, on_pools) (working m)
  ]

  with_lease-Led :
      {A : Type 0} (turns : ℕ → Turn) (name : String) (dropped_ms : ℕ)
      (body : DatabaseLease → World S → Reply A × World S) (m : DatabaseManager) (s : S)
      → ((n : ℕ) → Scheduled settings (turns n))
      → ((l : DatabaseLease) (m : DatabaseManager)
          → Steps settings others_room m (body l (m, s)).1.0)
      → Tenancy settings m
      → length m.leases < others_room
      → Led settings m (with_lease turns settings name dropped_ms body (m, s)).1.0
  unfolding with_lease drop_lease
  with_lease-Led turns name dropped_ms body m s scheduled used tenancy few =
      let stepped = acquire-Stepped turns name m scheduled tenancy few in
      let m' = (acquire turns settings name m).1 in
      elim (Result-cases (acquire turns settings name m).0) [
        | inr (e, failed) ↦
            rw (failed, with_lease) (record { steps = stepped.refused e failed; few = stepped.few })
        | inl (l, given) ↦
            let m'' = (body l (m', s)).1.0 in
            rw (given, with_lease)
              (record {
                steps = Steps-trans (stepped.given l given) (
                    Steps-trans (Steps-adding (hold_of l) (used l m'))
                      (before (drop_step dropped_ms (hold_of l) m'') done));
                few =
                    Still-few others_room (drop dropped_ms (hold_of l)) m''
                      (drop_leases dropped_ms (hold_of l)) (Steps-few (used l m') stepped.few);
              })
      ]

  observe-Led :
      (display : SqlxError → String) (route : String) (elapsed : ℕ) (m : DatabaseManager)
      (r : Reply Value) (world : World S)
      → Led settings m world.0
      → Led settings m (observe display route elapsed (r, world)).1.0
  unfolding observe count
  observe-Led display route elapsed m panicked world led = led
  observe-Led display route elapsed m (answered result) (m', s) led =
      let is_success = leb 200 (status display result) && ltb (status display result) 300 in
      record {
        steps =
            Steps-trans led.steps
              (before (counted (Metrics.record_request route elapsed is_success)) done);
        few = led.few;
      }

module _ {S : Type 0} (service : Service S) (as_f64 : ℤ → ℕ) (to_text : Value → String)
    (encode : List ℕ → String) (turns : ℕ → Turn) (settings : DatabaseSettings)
    (work : Work S) where
  validated-Led :
      {A : Type 0} (name : String) (request : SqlRequest)
      (use_pools : List Argument → Pools → S → Result AppError A × S) (m : DatabaseManager) (s : S)
      → ((n : ℕ) → Scheduled settings (turns n))
      → IsScheduled settings work.at_work
      → Tenancy settings m
      → length m.leases < others_room
      → Led settings m
          (validated service as_f64 to_text encode turns settings work name request use_pools
            (m, s)).1.0
  unfolding validated bound
  validated-Led name request use_pools m s scheduled working tenancy few =
      elim (Result-cases (validate_sql request.sql)) [
        | inr (e, failed) ↦ rw (failed, validated) (record { steps = done; few = few })
        | inl (good, valid) ↦
            rw (valid, validated)
              (with_lease-Led turns name work.dropped_ms _ m s scheduled
                (λ l m'. elim (Result-cases (bind_query as_f64 to_text request.params)) [
                  | inr (e, failed) ↦ rw (failed, bound) done
                  | inl (arguments, found) ↦
                      rw (found, bound) (on_pools-Steps work (use_pools arguments) l m' s working)
                ])
                tenancy few)
      ]

  handle-Led :
      (call : Call) (m : DatabaseManager) (s : S)
      → ((n : ℕ) → Scheduled settings (turns n))
      → IsScheduled settings work.at_work
      → Tenancy settings m
      → length m.leases < others_room
      → Led settings m (handle service as_f64 to_text encode turns settings work call (m, s)).1.0
  unfolding handle query execute batch
  handle-Led (call_query name request) m s scheduled working tenancy few =
      validated-Led name request _ m s scheduled working tenancy few
  handle-Led (call_execute name request) m s scheduled working tenancy few =
      validated-Led name request _ m s scheduled working tenancy few
  handle-Led (call_batch name []) m s scheduled working tenancy few = record {
    steps = done;
    few = few;
  }
  handle-Led (call_batch name (statement ∷ statements)) m s scheduled working tenancy few =
      with_lease-Led turns name work.dropped_ms _ m s scheduled
        (λ l m'. on_pools-Steps work _ l m' s working) tenancy few

-- A request that has been answered, by steps of the manager.
pub record Served {S : Type 0} (settings : DatabaseSettings) (m : DatabaseManager)
    (r : Reply Value × World S) : Type 0 where
  pub led : Led settings m r.1.0
  pub answers : r.0 ≢ panicked

-- On a server that any interleaving of the tasks has led to, whose other tasks have fewer than
-- 2 ^ 63 - 1 leases and do nothing but steps with room for one more while the request waits and
-- works, a request to one of the three routes is answered without a panic of its handler; all that
-- happens meanwhile is a sequence of steps of the manager, with no lease of the request in the end.
pub serve-Served :
    {S : Type 0} (service : Service S) (as_f64 : ℤ → ℕ) (to_text : Value → String)
    (encode : List ℕ → String) (display : SqlxError → String) (to_str : List ℕ → Bool)
    (turns : ℕ → Turn) (settings : Settings) (work : Work S) (elapsed : ℕ)
    (authorization : Option (List ℕ)) (call : Call) (m : DatabaseManager) (s : S)
    → ((n : ℕ) → Scheduled settings.database (turns n))
    → IsScheduled settings.database work.at_work
    → Reach settings.database m
    → length m.leases < others_room
    → Served settings.database m (
        serve service as_f64 to_text encode display to_str turns settings work elapsed authorization
          call
          (m, s))
unfolding serve
serve-Served service as_f64 to_text encode display to_str turns settings work elapsed authorization
      call m s scheduled working reached few =
    record {
      led = elim (Result-cases (authorize to_str settings authorization)) [
        | inr (e, denied) ↦
            rw (denied, serve)
              (observe-Led display (matched_path call) elapsed m (answered (err e)) (m, s)
                (record { steps = done; few = few }))
        | inl (good, allowed) ↦
            rw (allowed, serve)
              (observe-Led display (matched_path call) elapsed m _ _ (
                handle-Led service as_f64 to_text encode turns settings.database work call m s
                  scheduled working (Reach-Tenancy settings.database m reached) few))
      ];
      answers =
          (serve-Kept service as_f64 to_text encode display to_str turns settings work [] elapsed
            authorization call m s (λ n. Scheduled-Fair settings.database (turns n) (scheduled n))
            (IsScheduled-IsFair settings.database work.at_work working) (omega arith)
            (Reach-Inv settings.database m reached)).answers;
    }

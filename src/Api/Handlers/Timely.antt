-- ===== src/Api/Handlers/Timely.antt =====
-- A request to src/api.rs under the timeout of `router`, on a server that any interleaving of tasks
-- of src/db.rs has led to.
use tinkiva_sqllite_server.Prelude.{
  ℕ, ℤ, String, Bool, true, ◌&&◌, ◌<◌, ◌≡◌, ◌≢◌, ◌⊎◌, refl, ap, Option, none, some, List, [], ◌∷◌,
  Result, err, ◌==◌, arith, length, inl, inr, Bool-cases, Result-cases,
}
use mathlib.Core.Option.{some-injective}
use tinkiva_sqllite_server.Error.{SqlxError, AppError}
use tinkiva_sqllite_server.Config.{Settings, DatabaseSettings}
use tinkiva_sqllite_server.Db.Pools.{Pools}
use tinkiva_sqllite_server.Db.Entry.{IsRunnable}
use tinkiva_sqllite_server.Db.State.{DatabaseManager, DatabaseLease, hold_of, drop_lease}
use tinkiva_sqllite_server.Db.Acquire.{Turn, acquire}
use tinkiva_sqllite_server.Db.Tenancy.{Tenancy}
use tinkiva_sqllite_server.Db.System.{Steps-trans, Reach, others_room, IsScheduled, Scheduled, Led}
use tinkiva_sqllite_server.Db.System.Apart.{Reach-Tenancy}
use tinkiva_sqllite_server.Db.System.Acquire.Rounds.{acquire-Stepped}
use tinkiva_sqllite_server.Db.System.Timed.{cut-Led}
use tinkiva_sqllite_server.Db.System.Timed.Rounds.{timed_acquire-Progress}
use tinkiva_sqllite_server.Api.{authorize}
use tinkiva_sqllite_server.Api.Json.{Value}
use tinkiva_sqllite_server.Api.Bind.{SqlRequest, Argument, validate_sql, bind_query}
use tinkiva_sqllite_server.Api.Serialize.{serialize_query, serialize_execute, serialize_batch}
use tinkiva_sqllite_server.Api.Handlers.{
  Service, Reply, answered, panicked, respond, World, Work, with_lease, validated, query, execute,
  batch, Call, call_query, call_execute, call_batch, matched_path, observe, handle, serve,
}
use tinkiva_sqllite_server.Api.Handlers.Timed.{
  Deadline, is_ok, Late, late, timed_lease, timed_validated, timed_handle, timed_observe,
  timed_serve,
}
use tinkiva_sqllite_server.Api.Handlers.Reached.{serve-Served}

-- A request that was dropped has led to a manager without a lease of its own; one that was not has
-- ended as the `whole`, which knows no timeout.
abbrev pub Timely :
    {S A : Type 0}
    → DatabaseSettings
    → DatabaseManager
    → Reply A × World S
    → Late A × World S
    → Type 0
Timely settings m whole r = ((r.0 ≡ none) × Led settings m r.1.0) ⊎ (r ≡ (some whole.0, whole.1))

-- The end of a request under a timeout; `whole` is its end without one.
pub record OnTime {S : Type 0} (settings : DatabaseSettings) (m : DatabaseManager)
    (whole : Reply Value × World S) (r : Late Value × World S) : Type 0 where
  pub led : Led settings m r.1.0
  pub answers : r.0 ≢ some panicked
  pub in_time : (reply : Reply Value) → r.0 ≡ some reply → r ≡ (some whole.0, whole.1)

module _ {S : Type 0} {settings : DatabaseSettings} where
  timed_lease-Timely :
      {A : Type 0} (turns : ℕ → Turn) (work : Work S) (deadline : Deadline S) (name : String)
      (waits : Bool) (body : DatabaseLease → World S → Reply A × World S) (m : DatabaseManager)
      (s : S)
      → ((n : ℕ) → Scheduled settings (turns n))
      → IsScheduled settings work.at_work
      → Tenancy settings m
      → length m.leases < others_room
      → Timely settings m
          (with_lease turns settings name work.dropped_ms body (m, s))
          (timed_lease turns settings work deadline name waits body (m, s))
  unfolding timed_lease with_lease drop_lease
  timed_lease-Timely turns work deadline name waits body m s scheduled working tenancy few =
      let stepped = acquire-Stepped turns name m scheduled tenancy few in
      let m' = (acquire turns settings name m).1 in
      elim (timed_acquire-Progress turns name deadline.budget m scheduled tenancy few) [
        | inl (cut, led) ↦ inl (rw (cut, timed_lease) refl, rw (cut, timed_lease) led)
        | inr (left, same) ↦ elim (Result-cases (acquire turns settings name m).0) [
          | inr (e, failed) ↦ inr (rw (same, timed_lease, failed, with_lease, same) refl)
          | inl (l, given) ↦ elim (Bool-cases (waits && left == 0)) [
            | inr in_time ↦ inr (rw (same, timed_lease, given, with_lease, same, in_time) refl)
            | inl over ↦
                let cut = cut-Led work.at_work work.dropped_ms (hold_of l) m' working stepped.few in
                inl (
                  rw (same, timed_lease, given, same, over) refl,
                  rw (same, timed_lease, given, same, over)
                      (record {
                        steps = Steps-trans (stepped.given l given) cut.steps;
                        few = cut.few;
                      }),
                )
          ]
        ]
      ]

  late-Timely :
      {A B : Type 0} (f : Reply A → Reply B) (m : DatabaseManager) (whole : Reply A × World S)
      (r : Late A × World S)
      → Timely settings m whole r
      → Timely settings m (f whole.0, whole.1) (late f r.0, r.1)
  late-Timely f m whole r (inl (cut, led)) = inl (ap (late f) cut, led)
  late-Timely f m whole r (inr same) = inr (ap (λ (r : Late _ × World S). (late f r.0, r.1)) same)

  observe-Timely :
      (display : SqlxError → String) (route : String) (elapsed : ℕ) (m : DatabaseManager)
      (whole : Reply Value × World S) (r : Late Value × World S)
      → Timely settings m whole r
      → Timely settings m
          (observe display route elapsed whole)
          (timed_observe display route elapsed r)
  unfolding timed_observe
  observe-Timely display route elapsed m whole r (inl (cut, led)) =
      inl (rw (cut, timed_observe) refl, rw (cut, timed_observe) led)
  observe-Timely display route elapsed m whole r (inr same) = inr (rw (same, timed_observe) refl)

module _ {S : Type 0} (service : Service S) (as_f64 : ℤ → ℕ) (to_text : Value → String)
    (encode : List ℕ → String) (turns : ℕ → Turn) (settings : DatabaseSettings) (work : Work S)
    (deadline : Deadline S) where
  validated-Timely :
      {A : Type 0} (name : String) (request : SqlRequest)
      (use_pools : List Argument → Pools → S → Result AppError A × S) (m : DatabaseManager) (s : S)
      → ((n : ℕ) → Scheduled settings (turns n))
      → IsScheduled settings work.at_work
      → Tenancy settings m
      → length m.leases < others_room
      → Timely settings m
          (validated service as_f64 to_text encode turns settings work name request use_pools
            (m, s))
          (timed_validated service as_f64 to_text encode turns settings work deadline name request
            use_pools
            (m, s))
  unfolding validated timed_validated
  validated-Timely name request use_pools m s scheduled working tenancy few =
      elim (Result-cases (validate_sql request.sql)) [
        | inr (e, failed) ↦ rw (failed, validated, timed_validated) (inr refl)
        | inl (good, valid) ↦
            rw (valid, validated, timed_validated)
              (timed_lease-Timely turns work deadline name
                (is_ok (bind_query as_f64 to_text request.params)) _ m s scheduled working tenancy
                few)
      ]

  handle-Timely :
      (call : Call) (m : DatabaseManager) (s : S)
      → ((n : ℕ) → Scheduled settings (turns n))
      → IsScheduled settings work.at_work
      → Tenancy settings m
      → length m.leases < others_room
      → Timely settings m
          (handle service as_f64 to_text encode turns settings work call (m, s))
          (timed_handle service as_f64 to_text encode turns settings work deadline call (m, s))
  unfolding handle timed_handle query execute batch
  handle-Timely (call_query name request) m s scheduled working tenancy few =
      late-Timely (respond serialize_query) m _ _
        (validated-Timely name request _ m s scheduled working tenancy few)
  handle-Timely (call_execute name request) m s scheduled working tenancy few =
      late-Timely (respond serialize_execute) m _ _
        (validated-Timely name request _ m s scheduled working tenancy few)
  handle-Timely (call_batch name []) m s scheduled working tenancy few = inr refl
  handle-Timely (call_batch name (statement ∷ statements)) m s scheduled working tenancy few =
      late-Timely (respond serialize_batch) m _ _
        (timed_lease-Timely turns work deadline name true _ m s scheduled working tenancy few)

module _ {S : Type 0} (service : Service S) (as_f64 : ℤ → ℕ) (to_text : Value → String)
    (encode : List ℕ → String) (display : SqlxError → String) (to_str : List ℕ → Bool)
    (turns : ℕ → Turn) (settings : Settings) (work : Work S) (deadline : Deadline S) (elapsed : ℕ)
    (authorization : Option (List ℕ)) (call : Call) (m : DatabaseManager) (s : S) where
  serve-Timely :
      ((n : ℕ) → Scheduled settings.database (turns n))
      → IsScheduled settings.database work.at_work
      → Tenancy settings.database m
      → length m.leases < others_room
      → Timely settings.database m
          (serve service as_f64 to_text encode display to_str turns settings work elapsed
            authorization call
            (m, s))
          (timed_serve service as_f64 to_text encode display to_str turns settings work deadline
            elapsed authorization call
            (m, s))
  unfolding serve timed_serve
  serve-Timely scheduled working tenancy few =
      elim (Result-cases (authorize to_str settings authorization)) [
        | inr (e, denied) ↦
            rw (denied, serve, timed_serve)
              (observe-Timely display (matched_path call) elapsed m (answered (err e), (m, s))
                (some (answered (err e)), (m, s)) (inr refl))
        | inl (good, allowed) ↦
            rw (allowed, serve, timed_serve)
              (observe-Timely display (matched_path call) elapsed m _ _ (
                handle-Timely service as_f64 to_text encode turns settings.database work deadline
                  call m s scheduled working tenancy few))
      ]

  -- With limits that are at most what a semaphore holds, on a server that any interleaving of the
  -- tasks has led to, whose other tasks have fewer than 2 ^ 63 - 1 leases and do nothing but steps with room for one more while the request waits and
  -- works, a request to one of the three routes under a timeout is answered without a panic, and
  -- all that happens meanwhile is a sequence of steps of the manager, with no lease and no permit of
  -- the request in the end, at whichever `await` the timeout drops it; if it drops it nowhere, the
  -- answer, the manager and the files are those of the request without a timeout.
  pub timed_serve-Served :
      IsRunnable settings.database
      → ((n : ℕ) → Scheduled settings.database (turns n))
      → IsScheduled settings.database work.at_work
      → Reach settings.database m
      → length m.leases < others_room
      → OnTime settings.database m
          (serve service as_f64 to_text encode display to_str turns settings work elapsed
            authorization call
            (m, s))
          (timed_serve service as_f64 to_text encode display to_str turns settings work deadline
            elapsed authorization call
            (m, s))
  timed_serve-Served _ scheduled working reached few =
      let served =
        serve-Served service as_f64 to_text encode display to_str turns settings work elapsed
          authorization call m s scheduled working reached few in
      elim (serve-Timely scheduled working (Reach-Tenancy settings.database m reached) few) [
        | inl (cut, led) ↦ record {
          led = led;
          answers = λ h. absurd (ground (arith, cut, h));
          in_time = λ reply h. absurd (ground (arith, cut, h));
        }
        | inr same ↦ rw same (record {
          led = served.led;
          answers = λ h. served.answers (some-injective _ _ h);
          in_time = λ reply h. refl;
        })
      ]

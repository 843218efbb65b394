-- ===== src/Api/Handlers/Tests.antt =====
-- Requests to the handlers of src/api.rs, and the theorems about them at concrete inputs.
use tinkiva_sqllite_server.Prelude.{
  ℕ, suc, String, ◌≡◌, refl, arith, Bool, true, false, Option, none, some, List, [], ◌∷◌, ◌<◌,
  length, ok, err, bytes, ℤ, pos,
}
use tinkiva_sqllite_server.Error.{database, SqlxError, unauthorized, failure}
use tinkiva_sqllite_server.Config.{Settings, default, default_database}
use tinkiva_sqllite_server.Metrics
use tinkiva_sqllite_server.Db.Names
use tinkiva_sqllite_server.Db.Names.{database_path}
use tinkiva_sqllite_server.Db.Pools.{Pools, open_pools, pools_of}
use tinkiva_sqllite_server.Db.Entry
use tinkiva_sqllite_server.Db.Registry
use tinkiva_sqllite_server.Db.State
use tinkiva_sqllite_server.Db.State.{DatabaseManager, DatabaseLease, new, count, lease_pools}
use tinkiva_sqllite_server.Db.Evict
use tinkiva_sqllite_server.Db.Evict.{slot_locked}
use tinkiva_sqllite_server.Db.System.{slotted, done, before, Scheduled, others_room}
use tinkiva_sqllite_server.Api.Handlers.Timed.{Deadline, timed_serve}
use tinkiva_sqllite_server.Api.Handlers.Timely.{OnTime, timed_serve-Served}
use tinkiva_sqllite_server.Db.Acquire
use tinkiva_sqllite_server.Db.Acquire.{Turn, acquire}
use tinkiva_sqllite_server.Db.Acquire.Fair.{Fair}
use tinkiva_sqllite_server.Db.Tenancy.{Tenancy, IsOnFile, Tenant-refl}
use tinkiva_sqllite_server.Db.Tenancy.Leases.{Peaceful}
use tinkiva_sqllite_server.Api.Json.{Value, number, integer}
use tinkiva_sqllite_server.Api.Bind
use tinkiva_sqllite_server.Api.Bind.{SqlRequest, int64, arrays, validate_sql, bind_query}
use tinkiva_sqllite_server.Api.Rows.{Row}
use tinkiva_sqllite_server.Api.Rows.Limit.{page}
use tinkiva_sqllite_server.Api.Batch.{Effect, Engine, effect, ends, gives, database_error}
use tinkiva_sqllite_server.Api.Handlers.{
  execute, Service, Work, answered, query, call_execute, call_batch, serve,
}
use tinkiva_sqllite_server.Api.Handlers.Answers.{
  world_after, execute_answer, query_answer, serve_denied,
}

abbrev as_f64 : ℤ → ℕ
as_f64 z = 0

abbrev to_text : Value → String
to_text v = "[]"

abbrev encode : List ℕ → String
encode bs = "AA=="

abbrev display : SqlxError → String
display e = "no such table"

abbrev any_text : List ℕ → Bool
any_text value = true

abbrev one_row : Row
one_row =
    record {
      column = "id";
      raw = ok (some "INTEGER");
      as_i64 = ok (pos 1);
      as_f64 = err (failure "no REAL");
      as_bytes = err (failure "no BLOB");
      as_string = err (failure "no TEXT");
    }
    ∷ []

-- A database that counts what is written.
abbrev written : Effect
written = record { rows_affected = 1; last_insert_rowid = pos 1 }

abbrev counter : Engine ℕ
counter = record {
  begin = λ s. none;
  fetch_many = λ sql arguments s. gives (effect written) (suc s) (ends (suc s));
  commit = λ s. none;
}

abbrev service : Service ℕ
service = record {
  fetch = λ pool sql arguments s. ok one_row ∷ [];
  execute = λ pool sql arguments s. (ok written, suc s);
  transaction = λ pool. counter;
}

abbrev settings : Settings
settings = record default { server = record default.server { auth_token = some "secret" } }

abbrev quiet : Turn
quiet = record {
  at_lock = λ m. m;
  at_yield = λ m. m;
  at_tenant = λ m. m;
  at_process = λ m. m;
  at_open = λ m. m;
  tenant_elapsed = 1000;
  process_elapsed = 2000;
  connect = λ options. none;
  created_ms = 5;
  touched_ms = 6;
  dropped_ms = 7;
}

abbrev work : Work ℕ
work = record { at_disk = λ s. s; at_work = λ m. m; dropped_ms = 9 }

quiet-Fair : Fair default_database quiet
quiet-Fair = record {
  at_lock = λ own m inv. inv;
  at_yield = λ own m inv. inv;
  at_tenant = λ own m inv. inv;
  at_process = λ own m inv. inv;
  at_open = λ own m inv. inv;
}

quiet-Peaceful : Peaceful default_database quiet
quiet-Peaceful = record {
  at_lock = λ m h. Tenant-refl default_database m h;
  at_yield = λ m h. Tenant-refl default_database m h;
  at_tenant = λ m h. Tenant-refl default_database m h;
  at_process = λ m h. Tenant-refl default_database m h;
  at_open = λ m h. Tenant-refl default_database m h;
}

abbrev start : DatabaseManager
start = new default_database

start-Tenancy : Tenancy default_database start
unfolding new
start-Tenancy = record { linked = tt; filed = λ id e read. absurd (ground arith) }

abbrev select : SqlRequest
select = record { sql = "SELECT ?"; params = number (integer (pos 3)) ∷ []; format = arrays }

abbrev bearer : Option (List ℕ)
bearer = some (bytes "Bearer secret")

-- A round in which another database is admitted while the request waits for a permit.
abbrev busy : Turn
busy = record quiet { at_tenant = λ m. (slot_locked default_database 6 "other" m).1 }

busy-Scheduled : Scheduled default_database busy
busy-Scheduled = record {
  at_lock = λ m. done;
  at_yield = λ m. done;
  at_tenant = λ m. before (slotted 6 "other") done;
  at_process = λ m. done;
  at_open = λ m. done;
}

start_few : length start.leases < others_room
unfolding new
start_few = omega arith

-- A timeout while the request waits for the permit of its database, and one that it does not meet.
abbrev hurried : Deadline ℕ
hurried = record { budget = 1; at_cut = λ s. s }

timed_serve-Served_example :
    OnTime default_database start
      (serve service as_f64 to_text encode display any_text
        (λ n. busy)
        settings
        work
        3
        bearer
        (call_batch "acme" (select ∷ []))
        (start, 0))
      (timed_serve service as_f64 to_text encode display any_text
        (λ n. busy)
        settings
        work
        hurried
        3
        bearer
        (call_batch "acme" (select ∷ []))
        (start, 0))
timed_serve-Served_example =
    timed_serve-Served service as_f64 to_text encode display any_text (λ n. busy) settings work
      hurried 3 bearer (call_batch "acme" (select ∷ [])) start 0 (omega arith, omega arith)
      (λ n. busy-Scheduled) (λ m. done) done start_few

serve_denied_example :
    serve service as_f64 to_text encode display any_text
      (λ n. quiet)
      settings
      work
      3
      none
      (call_execute "acme" select)
      (start, 0)
    ≡ (
      answered (err unauthorized),
      (count (Metrics.record_request "/v1/db/{database}/execute" 3 false) start, 0),
    )
serve_denied_example =
    serve_denied service as_f64 to_text encode display any_text (λ n. quiet) settings work 3 none
      (call_execute "acme" select) start 0 "secret" refl (λ h. absurd (ground (arith, h)))
      (λ (value, given, text, same). absurd (ground (arith, given)))

abbrev first_lease : DatabaseLease
first_lease = record { entry = 0; slots = true }

acme_given : (acquire (λ n. quiet) default_database "acme" start).0 ≡ ok first_lease
unfolding acquire Names.validate_database_name Acquire.attempt Evict.slot Registry.lookup new
    Evict.slot_locked Evict.make_room State.lease Evict.admit State.count Entry.lease Entry.new
    Registry.update Acquire.admit_tenant Acquire.wait_for_tenant_slot Acquire.admit_process
    Acquire.wait_for_process_slot State.modify State.touch Entry.touch Acquire.open_leased
    Acquire.ensure_open Entry.ensure_open open_pools pools_of Registry.insert database_path
acme_given = refl

select_valid : validate_sql select.sql ≡ ok tt
unfolding validate_sql
select_valid = refl

select_bound : bind_query as_f64 to_text select.params ≡ ok (int64 (pos 3) ∷ [])
unfolding bind_query Bind.bind_value Bind.bind_number
select_bound = refl

query_answer_example :
    (pools : Pools) × (lease_pools first_lease
        (acquire (λ n. quiet) default_database "acme" start).1
      ≡ some pools)
    × IsOnFile (database_path default_database "acme") pools
    × (query service as_f64 to_text encode
          (λ n. quiet)
          default_database
          work
          "acme"
          select
          (start, 0)
        ≡ (
          answered (database_error (page encode 10_000 arrays (ok one_row ∷ []))),
          world_after (λ n. quiet) default_database work "acme" first_lease start 0,
        ))
query_answer_example =
    query_answer service as_f64 to_text encode (λ n. quiet) default_database work "acme" select
      start 0 (int64 (pos 3) ∷ []) first_lease (λ n. quiet-Peaceful) start-Tenancy select_valid
      select_bound acme_given

execute_answer_example :
    (pools : Pools) × (lease_pools first_lease
        (acquire (λ n. quiet) default_database "acme" start).1
      ≡ some pools)
    × IsOnFile (database_path default_database "acme") pools
    × ((effect : Effect)
        → (service.execute pools.writer select.sql (int64 (pos 3) ∷ []) 0).0 ≡ ok effect
        → execute service as_f64 to_text encode
            (λ n. quiet)
            default_database
            work
            "acme"
            select
            (start, 0)
          ≡ (
            answered (
                ok (record {
                  rows_affected = effect.rows_affected;
                  last_insert_rowid = effect.last_insert_rowid;
                })),
            world_after (λ n. quiet) default_database work "acme" first_lease start 1,
          ))
    × ((e : SqlxError)
        → (service.execute pools.writer select.sql (int64 (pos 3) ∷ []) 0).0 ≡ err e
        → execute service as_f64 to_text encode
            (λ n. quiet)
            default_database
            work
            "acme"
            select
            (start, 0)
          ≡ (
            answered (err (database e)),
            world_after (λ n. quiet) default_database work "acme" first_lease start 1,
          ))
execute_answer_example =
    execute_answer service as_f64 to_text encode (λ n. quiet) default_database work "acme" select
      start 0 (int64 (pos 3) ∷ []) first_lease (λ n. quiet-Peaceful) start-Tenancy select_valid
      select_bound acme_given

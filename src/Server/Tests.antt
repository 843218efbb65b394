-- ===== src/Server/Tests.antt =====
-- A process of src/main.rs, and the theorems about it at concrete inputs.
use tinkiva_sqllite_server.Prelude.{
  ℕ, suc, ℤ, pos, String, Bool, true, ◌≡◌, refl, none, some, List, [], ◌∷◌, ok, All, arith,
}
use tinkiva_sqllite_server.Error.{SqlxError}
use tinkiva_sqllite_server.Config.{default, default_database}
use tinkiva_sqllite_server.Db.State
use tinkiva_sqllite_server.Db.Names
use tinkiva_sqllite_server.Db.Names.{database_path}
use tinkiva_sqllite_server.Db.Pools.{open_pools, pools_of}
use tinkiva_sqllite_server.Db.Entry
use tinkiva_sqllite_server.Db.Entry.{IsRunnable}
use tinkiva_sqllite_server.Db.Registry
use tinkiva_sqllite_server.Db.Evict
use tinkiva_sqllite_server.Db.Acquire
use tinkiva_sqllite_server.Db.Maintenance
use tinkiva_sqllite_server.Api
use tinkiva_sqllite_server.Api.Bind
use tinkiva_sqllite_server.Api.Handlers
use tinkiva_sqllite_server.Db.State.{DatabaseManager, new}
use tinkiva_sqllite_server.Db.Evict.{slot_locked, close_entry}
use tinkiva_sqllite_server.Db.Acquire.{Turn, acquire}
use tinkiva_sqllite_server.Db.Maintenance.{Round, ids}
use tinkiva_sqllite_server.Db.Maintenance.Shutdown.{IsShut, close_entry-Calm}
use tinkiva_sqllite_server.Db.System.{slotted, done, before, Scheduled}
use tinkiva_sqllite_server.Api.Json.{Value}
use tinkiva_sqllite_server.Api.Bind.{SqlRequest, arrays}
use tinkiva_sqllite_server.Api.Batch.{Effect, Engine, effect, gives, ends}
use tinkiva_sqllite_server.Api.Handlers.{Service, Work, call_execute}
use tinkiva_sqllite_server.Api.Handlers.Timed.{
  Deadline, timed_serve, timed_observe, timed_handle, timed_validated, timed_lease,
}
use tinkiva_sqllite_server.Db.Acquire.Timed.{
  timed_acquire, timed_attempt, timed_slot, timed_lock, timed_yield, timed_tenant, timed_process,
  timed_open,
}
use tinkiva_sqllite_server.Server.{
  Event, request, cleanup, checkpoint, Host, stopped, handle_event, run, main,
}
use tinkiva_sqllite_server.Server.Run.{IsPlain, Serving, run-Serving}
use tinkiva_sqllite_server.Server.Stop.{new-Serving, served, main_stops}

abbrev as_f64 : ℤ → ℕ
as_f64 z = 0

abbrev to_text : Value → String
to_text v = "[]"

abbrev encode : List ℕ → String
encode bs = "AA=="

abbrev display : SqlxError → String
display e = "no such table"

abbrev any_text : List ℕ → Bool
any_text value = true

-- A database that counts what is written.
abbrev written : Effect
written = record { rows_affected = 1; last_insert_rowid = pos 1 }

abbrev engine : Engine ℕ
engine = record {
  begin = λ s. none;
  fetch_many = λ sql arguments s. gives (effect written) (suc s) (ends (suc s));
  commit = λ s. none;
}

abbrev service : Service ℕ
service = record {
  fetch = λ pool sql arguments s. [];
  execute = λ pool sql arguments s. (ok written, suc s);
  transaction = λ pool. engine;
}

abbrev statement : SqlRequest
statement = record { sql = "DELETE FROM t"; params = []; format = arrays }

-- A round in which another database is admitted while the request waits for a permit.
abbrev turn : Turn
turn = record {
  at_lock = λ m. m;
  at_yield = λ m. m;
  at_tenant = λ m. (slot_locked default_database 6 "other" m).1;
  at_process = λ m. m;
  at_open = λ m. m;
  tenant_elapsed = 1000;
  process_elapsed = 2000;
  connect = λ options. none;
  created_ms = 5;
  touched_ms = 6;
  dropped_ms = 7;
}

turn-Scheduled : Scheduled default_database turn
turn-Scheduled = record {
  at_lock = λ m. done;
  at_yield = λ m. done;
  at_tenant = λ m. before (slotted 6 "other") done;
  at_process = λ m. done;
  at_open = λ m. done;
}

abbrev work : Work ℕ
work = record { at_disk = λ s. s; at_work = λ m. m; dropped_ms = 9 }

-- A request that ends in time, and one that the timeout drops while it waits for a permit.
abbrev deadline : Deadline ℕ
deadline = record { budget = 100; at_cut = λ s. s }

abbrev hurried : Deadline ℕ
hurried = record { budget = 1; at_cut = λ s. s }

abbrev round : Round
round = record { others = λ m. m; succeeds = true; dropped_ms = 10_000 }

-- Two requests, a checkpoint and a cleanup.
abbrev events : List (Event ℕ)
events =
    request (λ n. turn) work deadline 3 none (call_execute "acme" statement)
    ∷ request (λ n. turn) work hurried 3 none (call_execute "acme" statement)
    ∷ checkpoint (λ id. round)
    ∷ cleanup (λ name m. m) 400_000
    ∷ []

abbrev host : Host ℕ String
host = record {
  create_dir_all = λ path. none;
  bind = λ address. none;
  files = 0;
  events = events;
  failure = none;
  at_close = λ id. close_entry 1;
}

events-IsPlain : All (IsPlain default_database) events
unfolding IsPlain
events-IsPlain = (
  ((λ n. turn-Scheduled), λ m. done),
  ((((λ n. turn-Scheduled), λ m. done), ((λ id m. done), ((λ name m. done), tt)))),
)

default-IsRunnable : IsRunnable default_database
default-IsRunnable = (omega arith, omega arith)

run-Serving_example : Serving default_database (
    run service as_f64 to_text encode display any_text default events
      ([], (new default_database, 0)))
run-Serving_example =
    run-Serving service as_f64 to_text encode display any_text default default-IsRunnable events
      ([], (new default_database, 0)) events-IsPlain (new-Serving default_database 0)

drained : (served service as_f64 to_text encode display any_text host default).leases ≡ []
unfolding run handle_event Maintenance.cleanup_idle State.count Maintenance.close_stale
    Maintenance.stale Maintenance.cutoff Maintenance.is_stale Evict.take_entry State.begin_close
    Entry.begin_close Registry.remove Evict.close_entry Maintenance.checkpoint_wal
    Maintenance.checkpoint_entries Maintenance.checkpoint_entry Maintenance.is_open State.drop_lease
    State.drop Entry.release timed_serve timed_observe timed_handle timed_validated timed_lease
    timed_acquire timed_attempt timed_slot timed_lock timed_yield timed_tenant timed_process
    timed_open Api.authorize Handlers.observe Handlers.handle Handlers.execute Handlers.validated
    Bind.validate_sql Handlers.with_lease Handlers.bound Bind.bind_query Handlers.on_pools
    State.lease_pools acquire Names.validate_database_name Acquire.attempt Evict.slot
    Registry.lookup new Evict.slot_locked Evict.make_room State.lease Evict.admit Entry.lease
    Entry.new Registry.update Acquire.admit_tenant Acquire.wait_for_tenant_slot
    Acquire.admit_process Acquire.wait_for_process_slot State.modify State.touch Entry.touch
    Acquire.open_leased Acquire.ensure_open Entry.ensure_open open_pools pools_of Registry.insert
    database_path
drained = refl

main_stops_example :
    (m' : DatabaseManager) × (main service as_f64 to_text encode display any_text host (ok default)
      ≡ (stopped, some m'))
    × (m'.entries ≡ [])
    × All
        (IsShut m')
        (ids (served service as_f64 to_text encode display any_text host default).entries)
main_stops_example =
    main_stops service as_f64 to_text encode display any_text host default refl refl refl
      default-IsRunnable events-IsPlain drained (λ id. close_entry-Calm 1)

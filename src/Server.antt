-- ===== src/Server.antt =====
-- src/main.rs: `main`, from the settings to the end of the process.
use tinkiva_sqllite_server.Prelude.{
  ℕ, ℤ, String, Bool, Option, none, some, List, [], ◌∷◌, Result, ok, err, leb, if◌then◌else◌,
}
use tinkiva_sqllite_server.Error.{SqlxError}
use tinkiva_sqllite_server.Config.{Settings}
use tinkiva_sqllite_server.Db.Entry.{max_permits}
use tinkiva_sqllite_server.Db.State.{DatabaseManager, new}
use tinkiva_sqllite_server.Db.Acquire.{Others, Turn}
use tinkiva_sqllite_server.Db.Maintenance.{Round, cleanup_idle, checkpoint_wal, close_all}
use tinkiva_sqllite_server.Api.Json.{Value}
use tinkiva_sqllite_server.Api.Handlers.{Service, World, Work, Call}
use tinkiva_sqllite_server.Api.Handlers.Timed.{Deadline, Late, timed_serve}
pub mod Run
pub mod Stop
mod Tests

-- What happens while `axum::serve` runs: a request, or a tick of one of the two timers, each with
-- what the other tasks do while it waits.
pub data Event (S : Type 0) : Type 0 where
  request : (ℕ → Turn) → Work S → Deadline S → ℕ → Option (List ℕ) → Call → Event S
  cleanup : (String → Others) → ℕ → Event S
  checkpoint : (ℕ → Round) → Event S

-- What the process meets: how creating the directory and binding the address end, the files that
-- are there, what happens until `axum::serve` returns, how it does, and what still runs while
-- `close_all` closes an entry: the closes of evicted databases, and the rest of a timer's tick, since
-- `abort` does not wait for the task.
pub record Host (S E : Type 0) : Type 0 where
  pub create_dir_all : String → Option E
  pub bind : String → Option E
  pub files : S
  pub events : List (Event S)
  pub failure : Option E
  pub at_close : ℕ → Others

pub data Exit (E : Type 0) : Type 0 where
  failed : E → Exit E
  panicked : Exit E
  stopped : Exit E

module _ {S : Type 0} (service : Service S) (as_f64 : ℤ → ℕ) (to_text : Value → String)
    (encode : List ℕ → String) (display : SqlxError → String) (to_str : List ℕ → Bool) where
  -- The answers that are sent, the last one first, and the state after an event. What
  -- `cleanup_idle` and `checkpoint_wal` return is logged only.
  unfoldable pub handle_event :
      Settings → Event S → List (Late Value) × World S → List (Late Value) × World S
  handle_event settings (request turns work deadline elapsed authorization call) (replies, world) =
      let (reply, world') =
        timed_serve service as_f64 to_text encode display to_str turns settings work deadline
          elapsed authorization call world in
      (reply ∷ replies, world')
  handle_event settings (cleanup others now) (replies, (m, s)) =
      (replies, ((cleanup_idle others settings.database now m).1, s))
  handle_event settings (checkpoint rounds) (replies, (m, s)) =
      (replies, ((checkpoint_wal rounds m).1, s))

  unfoldable pub run :
      Settings → List (Event S) → List (Late Value) × World S → List (Late Value) × World S
  run settings [] state = state
  run settings (event ∷ events) state = run settings events (handle_event settings event state)

  -- `main` from the manager on.
  unfoldable pub started :
      {E : Type 0} → Host S E → Settings → DatabaseManager → Exit E × Option DatabaseManager
  started host settings manager = elim (host.bind settings.server.bind) [
    | some e ↦ (failed e, some manager)
    | none ↦
        let (_, (m, _)) = run settings host.events ([], (manager, host.files)) in
        elim host.failure [
          | some e ↦ (failed e, some m)
          | none ↦ (stopped, some (close_all host.at_close m))
        ]
  ]

  -- How the process ends, and the manager then, if there is one. `Semaphore::new`
  -- panics where `DatabaseManager::new` asks it for more than `max_permits`.
  unfoldable pub main :
      {E : Type 0} → Host S E → Result E Settings → Exit E × Option DatabaseManager
  main host (err e) = (failed e, none)
  main host (ok settings) = elim (host.create_dir_all settings.database.directory) [
    | some e ↦ (failed e, none)
    | none ↦
        if leb settings.database.max_concurrent_requests max_permits
        then started host settings (new settings.database)
        else (panicked, none)
  ]

-- ===== src/Server/Run.antt =====
-- The server of src/main.rs while `axum::serve` runs.
use tinkiva_sqllite_server.Prelude.{ℕ, ℤ, String, Bool, ◌<◌, ◌≢◌, some, List, [], ◌∷◌, length, All}
use tinkiva_sqllite_server.Error.{SqlxError}
use tinkiva_sqllite_server.Config.{Settings, DatabaseSettings}
use tinkiva_sqllite_server.Db.Entry.{IsRunnable}
use tinkiva_sqllite_server.Db.State.{DatabaseManager}
use tinkiva_sqllite_server.Db.System.{Steps-trans, Reach, others_room, IsScheduled, Scheduled, Led}
use tinkiva_sqllite_server.Db.System.Timers.{cleanup_idle-Led, checkpoint_wal-Led}
use tinkiva_sqllite_server.Api.Json.{Value}
use tinkiva_sqllite_server.Api.Handlers.{Service, panicked, World}
use tinkiva_sqllite_server.Api.Handlers.Timed.{Late}
use tinkiva_sqllite_server.Api.Handlers.Timely.{timed_serve-Served}
use tinkiva_sqllite_server.Server.{Event, request, cleanup, checkpoint, handle_event, run}

-- The other tasks of an event do nothing but steps of the manager.
unfoldable pub IsPlain : {S : Type 0} → DatabaseSettings → Event S → Type 0
IsPlain settings (request turns work deadline elapsed authorization call) =
    ((n : ℕ) → Scheduled settings (turns n)) × IsScheduled settings work.at_work
IsPlain settings (cleanup others now) = (name : String) → IsScheduled settings (others name)
IsPlain settings (checkpoint rounds) = (id : ℕ) → IsScheduled settings (rounds id).others

-- What holds of the answers and the manager between two events.
pub record Serving {S : Type 0} (settings : DatabaseSettings) (state : List (Late Value) × World S)
    : Type 0 where
  pub reached : Reach settings state.1.0
  pub few : length state.1.0.leases < others_room
  pub answers : All (λ reply. reply ≢ some panicked) state.0

module _ {S : Type 0} (service : Service S) (as_f64 : ℤ → ℕ) (to_text : Value → String)
    (encode : List ℕ → String) (display : SqlxError → String) (to_str : List ℕ → Bool)
    (settings : Settings) where
  Led-Serving :
      (replies : List (Late Value)) (m m' : DatabaseManager) (s : S)
      → Serving settings.database (replies, (m, s))
      → Led settings.database m m'
      → Serving settings.database (replies, (m', s))
  Led-Serving replies m m' s serving led = record {
    reached = Steps-trans serving.reached led.steps;
    few = led.few;
    answers = serving.answers;
  }

  handle_event-Serving :
      IsRunnable settings.database
      → (event : Event S) (state : List (Late Value) × World S) → IsPlain settings.database event
      → Serving settings.database state
      → Serving settings.database
          (handle_event service as_f64 to_text encode display to_str settings event state)
  unfolding handle_event IsPlain
  handle_event-Serving runnable (request turns work deadline elapsed authorization call)
        (replies, (m, s)) plain serving =
      let served =
        timed_serve-Served service as_f64 to_text encode display to_str turns settings work deadline
          elapsed authorization call m s runnable plain.0 plain.1 serving.reached serving.few in
      record {
        reached = Steps-trans serving.reached served.led.steps;
        few = served.led.few;
        answers = (served.answers, serving.answers);
      }
  handle_event-Serving runnable (cleanup others now) (replies, (m, s)) plain serving =
      Led-Serving replies m _ s serving (cleanup_idle-Led others now m plain serving.few)
  handle_event-Serving runnable (checkpoint rounds) (replies, (m, s)) plain serving =
      Led-Serving replies m _ s serving (checkpoint_wal-Led rounds m plain serving.few)

  -- With limits that are at most what a semaphore holds, from a state of the server that the tasks have led to, with room for one more lease and no
  -- answer that is a panic, any requests, with or without a timeout at any `await`, and ticks of the
  -- two timers, during each of which the other tasks do nothing but steps of the manager with room
  -- for one more lease, lead to such a state: in particular, no request ends in a panic.
  pub run-Serving :
      IsRunnable settings.database
      → (events : List (Event S)) (state : List (Late Value) × World S)
      → All (IsPlain settings.database) events
      → Serving settings.database state
      → Serving settings.database
          (run service as_f64 to_text encode display to_str settings events state)
  unfolding run
  run-Serving runnable [] state plain serving = serving
  run-Serving runnable (event ∷ events) state (plain, all_plain) serving =
      run-Serving runnable events _ all_plain
        (handle_event-Serving runnable event state plain serving)

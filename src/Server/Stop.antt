-- ===== src/Server/Stop.antt =====
-- How the process of src/main.rs stops.
use tinkiva_sqllite_server.Prelude.{
  ℕ, ℤ, String, Bool, List, ◌≡◌, none, some, [], ok, All, arith, refl, leb, true,
}
use tinkiva_sqllite_server.Error.{SqlxError}
use tinkiva_sqllite_server.Config.{Settings, DatabaseSettings}
use tinkiva_sqllite_server.Db.Entry.{max_permits, IsRunnable}
use tinkiva_sqllite_server.Db.State.{DatabaseManager, new}
use tinkiva_sqllite_server.Db.System.{done}
use tinkiva_sqllite_server.Db.System.Sound.{Reach-Inv, Reach-quiescent}
use tinkiva_sqllite_server.Db.Maintenance.{ids, close_all}
use tinkiva_sqllite_server.Db.Maintenance.Shutdown.{IsShut, Calm, close_all-IsShut}
use tinkiva_sqllite_server.Api.Json.{Value}
use tinkiva_sqllite_server.Api.Handlers.{Service}
use tinkiva_sqllite_server.Server.{Host, stopped, run, started, main}
use tinkiva_sqllite_server.Server.Run.{IsPlain, Serving, run-Serving}

pub new-Serving :
    {S : Type 0} (settings : DatabaseSettings) (s : S) → Serving settings ([], (new settings, s))
unfolding new
new-Serving settings s = record { reached = done; few = omega arith; answers = tt }

module _ {S : Type 0} (service : Service S) (as_f64 : ℤ → ℕ) (to_text : Value → String)
    (encode : List ℕ → String) (display : SqlxError → String) (to_str : List ℕ → Bool) where
  -- The manager when `axum::serve` returns.
  abbrev pub served : {E : Type 0} → Host S E → Settings → DatabaseManager
  served host settings =
      (run service as_f64 to_text encode display to_str settings host.events
        ([], (new settings.database, host.files))).1.0

  -- If the directory can be made and the address bound, if `axum::serve` returns without an error
  -- after any requests and ticks of the timers, during each of which the other tasks do nothing but
  -- steps of the manager with room for one more lease, if no task has a lease when it returns, if what
  -- still runs then leaves the entries, as the closes of evicted databases do, and if both limits are at most what a semaphore
  -- holds, the process stops without an error: no database is linked then, and each that was linked
  -- when it returned grants no lease any more and has had its readers closed, its statistics
  -- refreshed, its WAL checkpointed and its writer closed, in this order, if it was open.
  pub main_stops :
      {E : Type 0} (host : Host S E) (settings : Settings)
      → host.create_dir_all settings.database.directory ≡ none
      → host.bind settings.server.bind ≡ none
      → host.failure ≡ none
      → IsRunnable settings.database
      → All (IsPlain settings.database) host.events
      → (served host settings).leases ≡ []
      → ((id : ℕ) → Calm (host.at_close id))
      → (m' : DatabaseManager) × (main service as_f64 to_text encode display to_str host
            (ok settings)
          ≡ (stopped, some m'))
        × (m'.entries ≡ [])
        × All (IsShut m') (ids (served host settings).entries)
  unfolding main started
  main_stops host settings created bound no_failure runnable plain drained calm =
      let m = served host settings in
      let reached =
        (run-Serving service as_f64 to_text encode display to_str settings runnable host.events _
          plain (new-Serving settings.database host.files)).reached in
      let (_, free) = Reach-quiescent settings.database m reached drained in
      let (unlinked, shut) =
        close_all-IsShut host.at_close m calm (λ id e read. (free id e read).unused)
          (Reach-Inv settings.database m reached).linked in
      let small : leb settings.database.max_concurrent_requests max_permits ≡ true =
        ground (arith, runnable) in
      (
        close_all host.at_close m,
        rw (created, main, small, started, bound, no_failure) refl,
        unlinked,
        shut,
      )

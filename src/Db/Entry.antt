-- ===== src/Db/Entry.antt =====
-- src/db.rs: `DatabaseEntry`, its lease counter and its close. An atomic operation is one step.
use tinkiva_sqllite_server.Prelude.{
  ℕ, String, ◌+◌, ◌≤◌, Bool, true, false, ◌&&◌, not, Option, none, some, List, [], ◌∷◌, Result, ok,
  err, ◌==◌, if◌then◌else◌, wrap64,
}
use tinkiva_sqllite_server.Error.{SqlxError}
use tinkiva_sqllite_server.Config.{DatabaseSettings}
use tinkiva_sqllite_server.Db.Pools.{Pools, PoolOptions, open_pools}
pub mod Counter

-- `usize::MAX`
abbrev pub closed : ℕ
closed = 18_446_744_073_709_551_615

-- `slots` is the number of permits left in the database's semaphore.
pub record DatabaseEntry : Type 0 where
  pub name : String
  pub pools : Option Pools
  pub last_used_ms : ℕ
  pub active_leases : ℕ
  pub slots : ℕ

-- `Semaphore::MAX_PERMITS` of tokio, `usize::MAX >> 3`: `Semaphore::new` panics with more permits.
abbrev pub max_permits : ℕ
max_permits = 2_305_843_009_213_693_951

-- No `Semaphore::new` panics with the limits of the settings, which `validate` does not check.
abbrev pub IsRunnable : DatabaseSettings → Type 0
IsRunnable settings =
    (settings.max_concurrent_requests ≤ max_permits)
    × (settings.max_concurrent_requests_per_database ≤ max_permits)

-- `DatabaseEntry::new` with at most `max_permits` slots. With more it panics, which is left out here:
-- the theorems on what a request is answered ask that the settings are `IsRunnable`.
unfoldable pub new : String → ℕ → ℕ → DatabaseEntry
new name slots now = record {
  name = name;
  pools = none;
  last_used_ms = now;
  active_leases = 0;
  slots = slots;
}

-- One `compare_exchange_weak`: the value in memory when it runs, and whether it fails although
-- that is the value expected.
pub record Exchange : Type 0 where
  pub actual : ℕ
  pub spurious : Bool

-- The loop of `DatabaseEntry::lease` against the exchanges that the other threads leave it:
-- `some (some v)` is `true` with `v` written, `some none` is `false`, and `none` is a loop that
-- is still running when the exchanges end.
unfoldable pub lease_loop : ℕ → List Exchange → Option (Option ℕ)
lease_loop current [] = if current == closed then some none else none
lease_loop current (x ∷ xs) =
    let again = lease_loop x.actual xs in
    if current == closed
    then some none
    else if x.actual == current && not x.spurious
    then some (some (current + 1))
    else again

-- `DatabaseEntry::lease` as the single step that its loop amounts to.
unfoldable pub lease : DatabaseEntry → DatabaseEntry × Bool
lease e =
    if e.active_leases == closed
    then (e, false)
    else (record e { active_leases = e.active_leases + 1 }, true)

unfoldable pub begin_close : DatabaseEntry → DatabaseEntry × Bool
begin_close e =
    if e.active_leases == 0 then (record e { active_leases = closed }, true) else (e, false)

unfoldable pub touch : ℕ → DatabaseEntry → DatabaseEntry
touch now e = record e { last_used_ms = now }

-- `fetch_sub(1)`, which wraps.
unfoldable pub release : DatabaseEntry → DatabaseEntry
release e = record e { active_leases = wrap64 (e.active_leases + closed) }

-- `OnceCell::get_or_try_init`: an opened entry stays as it is, and a failed attempt leaves the
-- cell empty.
unfoldable pub ensure_open :
    (PoolOptions → Option SqlxError)
    → DatabaseSettings
    → List ℕ
    → DatabaseEntry
    → DatabaseEntry × Result SqlxError (Unit {0})
ensure_open connect settings path e = elim e.pools [
  | some _ ↦ (e, ok tt)
  | none ↦ elim (open_pools connect settings path) [
    | ok pools ↦ (record e { pools = some pools }, ok tt)
    | err error ↦ (e, err error)
  ]
]

-- ===== src/Db/Invariant.antt =====
-- What holds of the manager of src/db.rs whenever a task runs: the capacity, the registry, and the
-- counts of leases and permits against the leases there are.
use tinkiva_sqllite_server.Prelude.{
  ℕ, zero, suc, String, ◌+◌, ◌-◌, ◌≤◌, ◌<◌, ◌≡◌, ◌≢◌, ◌⊎◌, inl, inr, refl, Bool, true, false,
  Option, none, some, List, [], ◌∷◌, arith, ◌==◌, if◌then◌else◌, length, get_elem?, All,
}
use tinkiva_sqllite_server.Config.{DatabaseSettings}
use tinkiva_sqllite_server.Db.Entry.{DatabaseEntry, closed}
use tinkiva_sqllite_server.Db.Registry.{Entries, Distinct}
use tinkiva_sqllite_server.Db.State.{DatabaseManager, Hold, new}
pub mod Counts
pub mod Steps

-- A task, and the other tasks together, hold fewer than 2 ^ 63 leases, far above what memory holds.
abbrev pub many : ℕ
many = 9_223_372_036_854_775_808

-- The leases of an entry.
abbrev pub held : ℕ → List Hold → ℕ
held id [] = 0
held id (h ∷ hs) = (if h.entry == id then 1 else 0) + held id hs

-- The permits of an entry's semaphore that are out.
abbrev pub tenant_permits : ℕ → List Hold → ℕ
tenant_permits id [] = 0
tenant_permits id (h ∷ hs) =
    (if h.entry == id then (if h.tenant then 1 else 0) else 0) + tenant_permits id hs

-- The permits of the process that are out.
abbrev pub process_permits : List Hold → ℕ
process_permits [] = 0
process_permits (h ∷ hs) = (if h.process then 1 else 0) + process_permits hs

-- An entry with `leases` leases counts them, or is closed and has none; its permits are out or left.
pub record Accounts (share leases permits : ℕ) (e : DatabaseEntry) : Type 0 where
  pub counted : (e.active_leases ≡ leases) ⊎ ((e.active_leases ≡ closed) × (leases ≡ 0))
  pub shared : e.slots + permits ≡ share

abbrev pub IsAccounted : DatabaseSettings → List Hold → List Hold → ℕ → DatabaseEntry → Type 0
IsAccounted settings own leases id e =
    Accounts settings.max_concurrent_requests_per_database (held id own + held id leases)
      (tenant_permits id own + tenant_permits id leases) e

-- `own` are the leases of the task that runs, `m.leases` those of the others.
pub record Inv (settings : DatabaseSettings) (own : List Hold) (m : DatabaseManager) : Type 0 where
  pub capacity : length m.entries ≤ settings.max_open_databases
  pub distinct : Distinct m.entries
  pub linked : All (λ entry. entry.1 < length m.heap) m.entries
  pub own_allocated : All (λ (h : Hold). h.entry < length m.heap) own
  pub others_allocated : All (λ (h : Hold). h.entry < length m.heap) m.leases
  pub accounts :
      (id : ℕ) (e : DatabaseEntry)
      → get_elem? m.heap id ≡ some e
      → IsAccounted settings own m.leases id e
  pub process :
      m.slots + (process_permits own + process_permits m.leases) ≡ settings.max_concurrent_requests
  pub own_few : length own < many
  pub few : length m.leases < many

-- A new manager satisfies the invariant.
pub new-Inv : (settings : DatabaseSettings) → Inv settings [] (new settings)
unfolding new
new-Inv settings = record {
  capacity = omega arith;
  distinct = tt;
  linked = tt;
  own_allocated = tt;
  others_allocated = tt;
  accounts = λ id e h. absurd (ground arith);
  process = omega arith;
  own_few = omega arith;
  few = omega arith;
}

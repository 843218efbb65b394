-- ===== src/Db/State.antt =====
-- src/db.rs: the state of `DatabaseManager`, and its accesses to one entry. The settings never
-- change and are an argument of the operations that read them.
pub mod Cases
use tinkiva_sqllite_server.Prelude.{
  ℕ, String, ◌+◌, ◌-◌, Bool, true, false, Option, none, some, List, [], ◌∷◌, ◌++◌, Result, ok, err,
  ◌==◌, if◌then◌else◌, length, get_elem?, wrap64,
}
use tinkiva_sqllite_server.Error.{SqlxError}
use tinkiva_sqllite_server.Config.{DatabaseSettings}
use tinkiva_sqllite_server.Metrics.{Metrics}
use tinkiva_sqllite_server.Metrics
use tinkiva_sqllite_server.Db.Pools.{Pools, PoolOptions}
use tinkiva_sqllite_server.Db.Entry.{DatabaseEntry, closed}
use tinkiva_sqllite_server.Db.Entry
use tinkiva_sqllite_server.Db.Registry.{Entries, update}

-- A lease in the making or in use: the entry that it counts on, and which of the two permits it
-- has. `DatabaseLease` is made without permits and is given both at once; between the two waits
-- of `acquire` the first permit is a local variable.
pub record Hold : Type 0 where
  pub entry : ℕ
  pub tenant : Bool
  pub process : Bool

-- `DatabaseLease`: `slots` says whether `_slots` is `Some`.
pub record DatabaseLease : Type 0 where
  pub entry : ℕ
  pub slots : Bool

-- What is sent to an entry's pools outside of requests.
pub data PoolEvent : Type 0 where
  close_readers optimize checkpoint_truncate close_writer checkpoint_passive : ℕ → PoolEvent

-- `entries` and `slots` (the permits left for the process) are the source's; `heap` holds the
-- entries that the `Arc`s point to; `leases` are the leases of the other tasks, which no operation
-- touches but which its counts are measured against; `spawned` are the entries handed to
-- background tasks that close them; `events` is the log of `PoolEvent`s, the last one first.
-- The admission lock is no field: the code that it guards has no `await`, and is one step here.
pub record DatabaseManager : Type 0 where
  pub entries : Entries
  pub heap : List DatabaseEntry
  pub slots : ℕ
  pub metrics : Metrics
  pub leases : List Hold
  pub spawned : List ℕ
  pub events : List PoolEvent

-- `DatabaseManager::new` with at most `max_permits` requests, where its `Semaphore::new` does not
-- panic: `main` has both that panic and the creation of the directory before it.
unfoldable pub new : DatabaseSettings → DatabaseManager
new settings = record {
  entries = [];
  heap = [];
  slots = settings.max_concurrent_requests;
  metrics = Metrics.new;
  leases = [];
  spawned = [];
  events = [];
}

-- An operation on the entry behind a pointer. No pointer dangles, since an `Arc` keeps its entry.
unfoldable pub modify : ℕ → (DatabaseEntry → DatabaseEntry) → DatabaseManager → DatabaseManager
modify id f m = record m { heap = update id f m.heap }

unfoldable pub count : (Metrics → Metrics) → DatabaseManager → DatabaseManager
count f m = record m { metrics = f m.metrics }

unfoldable pub lease : ℕ → DatabaseManager → Bool × DatabaseManager
unfolding modify
lease id m = elim (get_elem? m.heap id) [
  | none ↦ (false, m)
  | some e ↦
      let (e', granted) = Entry.lease e in
      if granted then (true, modify id (λ _. e') m) else (false, m)
]

unfoldable pub begin_close : ℕ → DatabaseManager → Bool × DatabaseManager
unfolding modify
begin_close id m = elim (get_elem? m.heap id) [
  | none ↦ (false, m)
  | some e ↦
      let (e', begun) = Entry.begin_close e in
      if begun then (true, modify id (λ _. e') m) else (false, m)
]

unfoldable pub touch : ℕ → ℕ → DatabaseManager → DatabaseManager
unfolding modify
touch id now m = modify id (Entry.touch now) m

abbrev pub returned : ℕ → Hold → DatabaseEntry → DatabaseEntry
returned now h e =
    let e' = Entry.release (Entry.touch now e) in
    if h.tenant then record e' { slots = e'.slots + 1 } else e'

-- The end of a `Hold`: `drop` touches the entry and counts the lease down, and the permits that
-- are there go back to their semaphores.
unfoldable pub drop : ℕ → Hold → DatabaseManager → DatabaseManager
unfolding modify
drop now h m =
    let m' = modify h.entry (returned now h) m in
    if h.process then record m' { slots = m'.slots + 1 } else m'

abbrev pub hold_of : DatabaseLease → Hold
hold_of l = record { entry = l.entry; tenant = l.slots; process = l.slots }

-- `impl Drop for DatabaseLease`, with the fields dropped after it.
unfoldable pub drop_lease : ℕ → DatabaseLease → DatabaseManager → DatabaseManager
unfolding drop
drop_lease now l m = drop now (hold_of l) m

-- `DatabaseLease::pools`: `none` is the panic of its `expect`.
unfoldable pub lease_pools : DatabaseLease → DatabaseManager → Option Pools
lease_pools l m = elim (get_elem? m.heap l.entry) [ none ↦ none | some e ↦ e.pools ]

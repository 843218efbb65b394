-- ===== src/Db/Maintenance.antt =====
-- src/db.rs: `cleanup_idle`, `checkpoint_wal`, `stats` and `close_all`.
pub mod Balance
pub mod Idle
pub mod Cleanup
pub mod Shutdown
use tinkiva_sqllite_server.Prelude.{
  ℕ, String, ◌+◌, ◌-◌, ◌*◌, Bool, true, false, ◌&&◌, Option, none, some, List, [], ◌∷◌, map, ◌==◌,
  leb, if◌then◌else◌, length, get_elem?, wrap64,
}
use tinkiva_sqllite_server.Config.{DatabaseSettings}
use tinkiva_sqllite_server.Metrics
use tinkiva_sqllite_server.Db.Entry.{DatabaseEntry, closed}
use tinkiva_sqllite_server.Db.Registry.{Entries}
use tinkiva_sqllite_server.Db.State.{
  DatabaseManager, DatabaseLease, PoolEvent, checkpoint_passive, lease, begin_close, drop_lease,
  count,
}
use tinkiva_sqllite_server.Db.Evict.{take_entry, close_entry}
use tinkiva_sqllite_server.Db.Acquire.{Others}

-- `now_ms().saturating_sub(idle_timeout().as_millis() as u64)`
unfoldable pub cutoff : DatabaseSettings → ℕ → ℕ
cutoff settings now = now - wrap64 (settings.idle_timeout_seconds * 1000)

unfoldable pub is_stale : ℕ → DatabaseEntry → Bool
is_stale limit e = e.active_leases == 0 && leb e.last_used_ms limit

-- The names of the entries that the two filters leave.
unfoldable pub stale : ℕ → List DatabaseEntry → Entries → List String
stale limit heap [] = []
stale limit heap ((name, id) ∷ rest) =
    let others = stale limit heap rest in
    elim (get_elem? heap id) [
      | none ↦ others
      | some e ↦ if is_stale limit e then name ∷ others else others
    ]

-- The loop of `cleanup_idle`. Closing an entry waits; `others` says, for each name, what the other
-- tasks do then.
unfoldable pub close_stale :
    (String → Others) → List String → ℕ → DatabaseManager → ℕ × DatabaseManager
close_stale others [] closed m = (closed, m)
close_stale others (name ∷ names) closed m =
    let (taken, m') = take_entry name m in
    elim taken [
      | none ↦ close_stale others names closed m'
      | some id ↦ close_stale others names (closed + 1) (others name (close_entry id m'))
    ]

unfoldable pub cleanup_idle :
    (String → Others) → DatabaseSettings → ℕ → DatabaseManager → ℕ × DatabaseManager
cleanup_idle others settings now m =
    let (closed, m') = close_stale others (stale (cutoff settings now) m.heap m.entries) 0 m in
    (closed, count (Metrics.record_idle_close closed) m')

abbrev pub ids : Entries → List ℕ
ids = map λ (entry : String × ℕ). entry.1

-- What a round of the loop of `checkpoint_wal` meets: the other tasks while the statement runs,
-- whether it succeeds, and the clock when the lease is dropped.
pub record Round : Type 0 where
  pub others : Others
  pub succeeds : Bool
  pub dropped_ms : ℕ

unfoldable pub is_open : ℕ → DatabaseManager → Bool
is_open id m = elim (get_elem? m.heap id) [
  | none ↦ false
  | some e ↦ elim e.pools [ none ↦ false | some _ ↦ true ]
]

-- One round: whether a checkpoint was made, and the state after it. The lease of a database that
-- is not open yet is dropped by `continue`.
unfoldable pub checkpoint_entry : Round → ℕ → DatabaseManager → Bool × DatabaseManager
unfolding is_open
checkpoint_entry round id m =
    let (granted, leased) = lease id m in
    let own : DatabaseLease = record { entry = id; slots = false } in
    if granted
    then if is_open id leased
      then (
        round.succeeds,
        drop_lease round.dropped_ms own
            (round.others (record leased { events = checkpoint_passive id ∷ leased.events })),
      )
      else (false, drop_lease round.dropped_ms own leased)
    else (false, leased)

unfoldable pub checkpoint_entries : (ℕ → Round) → List ℕ → ℕ → DatabaseManager → ℕ × DatabaseManager
checkpoint_entries rounds [] checkpointed m = (checkpointed, m)
checkpoint_entries rounds (id ∷ rest) checkpointed m =
    let (made, m') = checkpoint_entry (rounds id) id m in
    checkpoint_entries rounds rest (if made then checkpointed + 1 else checkpointed) m'

unfoldable pub checkpoint_wal : (ℕ → Round) → DatabaseManager → ℕ × DatabaseManager
checkpoint_wal rounds m =
    let (checkpointed, m') = checkpoint_entries rounds (ids m.entries) 0 m in
    (checkpointed, count (Metrics.record_checkpoints checkpointed) m')

pub record ManagerStats : Type 0 where
  pub open_databases : ℕ
  pub active_leases : ℕ
  pub max_open_databases : ℕ
  pub available_request_slots : ℕ
  pub max_concurrent_requests : ℕ

-- The sum over the entries that are not closing.
unfoldable pub sum_leases : List DatabaseEntry → List ℕ → ℕ
sum_leases heap [] = 0
sum_leases heap (id ∷ rest) =
    let others = sum_leases heap rest in
    elim (get_elem? heap id) [
      | none ↦ others
      | some e ↦ if e.active_leases == closed then others else wrap64 (e.active_leases + others)
    ]

unfoldable pub stats : DatabaseSettings → DatabaseManager → ManagerStats
stats settings m = record {
  open_databases = length m.entries;
  active_leases = sum_leases m.heap (ids m.entries);
  max_open_databases = settings.max_open_databases;
  available_request_slots = m.slots;
  max_concurrent_requests = settings.max_concurrent_requests;
}

-- The loop of `close_all`. What `begin_close` returns is not looked at.
unfoldable pub close_entries : (ℕ → Others) → List ℕ → DatabaseManager → DatabaseManager
close_entries others [] m = m
close_entries others (id ∷ rest) m =
    let (_, m') = begin_close id m in close_entries others rest (others id (close_entry id m'))

unfoldable pub close_all : (ℕ → Others) → DatabaseManager → DatabaseManager
close_all others m = close_entries others (ids m.entries) (record m { entries = [] })

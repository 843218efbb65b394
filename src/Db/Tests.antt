-- ===== src/Db/Tests.antt =====
-- Runs of the manager of src/db.rs, and the theorems about it at concrete inputs.
use tinkiva_sqllite_server.Prelude.{
  ℕ, String, ◌≤◌, ◌<◌, ◌≡◌, ◌≢◌, ◌⊎◌, ◌↔◌, refl, arith, true, false, Option, none, some, List, [],
  ◌∷◌, ok, err, codes, length, get_elem?, All,
}
use tinkiva_sqllite_server.Error.{SqlxError, capacity_busy}
use tinkiva_sqllite_server.Config.{DatabaseSettings, default_database}
use tinkiva_sqllite_server.Metrics
use tinkiva_sqllite_server.Db.Pools.{PoolOptions, pools_of, open_pools}
use tinkiva_sqllite_server.Db.Entry.{DatabaseEntry, Exchange, closed, lease_loop}
use tinkiva_sqllite_server.Db.Entry.Counter.{Wins, Refuses, lease_loop-linearizes, lease_loop-ends}
use tinkiva_sqllite_server.Db.Registry.{Distinct, lookup}
use tinkiva_sqllite_server.Db.State.{DatabaseManager, DatabaseLease, Hold, new}
use tinkiva_sqllite_server.Db.Evict.{evict_oldest_idle, slot_locked}
use tinkiva_sqllite_server.Db.Evict.Take.{taken}
use tinkiva_sqllite_server.Db.Evict.Oldest.{IsBusy, NotBefore, evict_oldest_idle-lru}
use tinkiva_sqllite_server.Db.Evict.Room.{slot_locked-Slotted, slot_locked-capacity_busy}
use tinkiva_sqllite_server.Db.Acquire.{Turn, acquire}
use tinkiva_sqllite_server.Db.Maintenance.{Round, cleanup_idle, checkpoint_wal, close_all, cutoff}
use tinkiva_sqllite_server.Db.Maintenance.Idle.{cleanup_idle-after_checkpoint}
use tinkiva_sqllite_server.Db.Names
use tinkiva_sqllite_server.Db.Evict
use tinkiva_sqllite_server.Db.Acquire
use tinkiva_sqllite_server.Db.Maintenance
use tinkiva_sqllite_server.Db.State
use tinkiva_sqllite_server.Db.Entry
use tinkiva_sqllite_server.Db.Registry
use tinkiva_sqllite_server.Db.Invariant.{Inv, new-Inv}

abbrev settings : DatabaseSettings
settings = default_database

-- Connections always open.
abbrev connects : PoolOptions → Option SqlxError
connects options = none

abbrev path : List ℕ
path = codes "./data/databases/acme.db"

pools_opened : open_pools connects settings path ≡ ok (pools_of settings path)
unfolding open_pools
pools_opened = refl

-- An exchange that another thread was faster than, one that fails spuriously, and one that works.
abbrev overtaken : Exchange
overtaken = record { actual = 3; spurious = false }

abbrev spurious : Exchange
spurious = record { actual = 3; spurious = true }

contended : lease_loop 2 (overtaken ∷ spurious ∷ overtaken ∷ []) ≡ some (some 4)
unfolding lease_loop
contended = refl

lease_loop-ends_example : lease_loop 2 (spurious ∷ spurious ∷ overtaken ∷ []) ≢ none
lease_loop-ends_example = lease_loop-ends 2 (spurious ∷ []) [] spurious overtaken refl refl

lease_loop-linearizes_example :
    ((v : ℕ)
      → lease_loop 2 (overtaken ∷ spurious ∷ overtaken ∷ []) ≡ some (some v)
      → Wins 2 (overtaken ∷ spurious ∷ overtaken ∷ []) v)
    × (lease_loop 2 (overtaken ∷ spurious ∷ overtaken ∷ []) ≡ some none
        → Refuses 2 (overtaken ∷ spurious ∷ overtaken ∷ []))
lease_loop-linearizes_example = lease_loop-linearizes 2 (overtaken ∷ spurious ∷ overtaken ∷ [])

-- Two idle databases and one in use.
abbrev three : DatabaseManager
three = record {
  entries = ("used", 0) ∷ ("late", 1) ∷ ("early", 2) ∷ [];
  heap =
      record { name = "used"; pools = none; last_used_ms = 1; active_leases = 1; slots = 8 }
      ∷ record { name = "late"; pools = none; last_used_ms = 9; active_leases = 0; slots = 8 }
      ∷ record { name = "early"; pools = none; last_used_ms = 4; active_leases = 0; slots = 8 }
      ∷ [];
  slots = 512;
  metrics = Metrics.new;
  leases = [];
  spawned = [];
  events = [];
}

early_evicted : (evict_oldest_idle three).1.entries ≡ ("used", 0) ∷ ("late", 1) ∷ []
unfolding evict_oldest_idle Evict.oldest_idle Evict.consider Evict.take_entry lookup
    State.begin_close Entry.begin_close State.count Registry.remove
early_evicted = refl

three-Distinct : Distinct three.entries
unfolding lookup
three-Distinct = (refl, (refl, (refl, tt)))

evict_oldest_idle-lru_example :
    ((name : String) × (id : ℕ) × (e : DatabaseEntry) × (lookup name three.entries ≡ some id)
      × (get_elem? three.heap id ≡ some e)
      × (e.active_leases ≡ 0)
      × All (λ entry. NotBefore three.heap e.last_used_ms entry.1) three.entries
      × (evict_oldest_idle three ≡ (
        true,
        record (taken name id e three) {
          metrics = Metrics.record_eviction three.metrics;
          spawned = id ∷ three.spawned;
        },
      )))
    ⊎ (All (λ entry. IsBusy three.heap entry.1) three.entries
        × (evict_oldest_idle three ≡ (false, three)))
evict_oldest_idle-lru_example = evict_oldest_idle-lru three three-Distinct

-- Room for one database, which is there already.
abbrev single : DatabaseSettings
single = record default_database { max_open_databases = 1 }

abbrev one_open : DatabaseManager
one_open = (slot_locked single 5 "first" (new single)).1

one_open-Inv : Inv single [] one_open
one_open-Inv = (slot_locked-Slotted single [] 5 "first" (new single) (new-Inv single)).kept

second_free : lookup "second" one_open.entries ≡ none
unfolding slot_locked lookup new Evict.make_room Evict.admit State.count Registry.insert
second_free = refl

slot_locked-capacity_busy_example :
    (((slot_locked single 7 "second" one_open).0 ≡ err capacity_busy) ↔ (
      (1 ≤ length one_open.entries) × All (λ entry. IsBusy one_open.heap entry.1) one_open.entries))
    × ((slot_locked single 7 "second" one_open).0 ≡ err capacity_busy
        → (slot_locked single 7 "second" one_open).1 ≡ one_open)
slot_locked-capacity_busy_example =
    slot_locked-capacity_busy single [] 7 "second" one_open one_open-Inv second_free

-- A round in which no other task runs and nothing fails.
abbrev alone : Turn
alone = record {
  at_lock = λ m. m;
  at_yield = λ m. m;
  at_tenant = λ m. m;
  at_process = λ m. m;
  at_open = λ m. m;
  tenant_elapsed = 1000;
  process_elapsed = 2000;
  connect = connects;
  created_ms = 5;
  touched_ms = 6;
  dropped_ms = 7;
}

acme_acquired :
    (acquire (λ n. alone) settings "acme" (new settings)).0
    ≡ ok (record { entry = 0; slots = true })
unfolding acquire Names.validate_database_name Acquire.attempt Evict.slot lookup new slot_locked
    Evict.make_room State.lease Evict.admit State.count Entry.lease Entry.new Registry.update
    Acquire.admit_tenant Acquire.wait_for_tenant_slot Acquire.admit_process
    Acquire.wait_for_process_slot State.modify Acquire.open_leased Acquire.ensure_open
    Entry.ensure_open open_pools pools_of Registry.insert
acme_acquired = refl

first_closed : (cleanup_idle (λ name m. m) single 400_000 one_open).0 ≡ 1
unfolding cleanup_idle slot_locked lookup new Evict.make_room Evict.admit State.count
    Registry.insert Maintenance.close_stale Maintenance.stale Maintenance.is_stale Evict.take_entry
    State.begin_close Entry.begin_close Entry.new State.modify cutoff
first_closed = refl

-- A checkpoint ten seconds before.
abbrev round : Round
round = record { others = λ m. m; succeeds = true; dropped_ms = 390_000 }

cutoff_before : cutoff single 400_000 < 390_000
unfolding cutoff
cutoff_before = omega arith

cleanup_idle-after_checkpoint_example :
    (cleanup_idle (λ name m. m) single 400_000 (checkpoint_wal (λ id. round) one_open).1).0 ≡ 0
cleanup_idle-after_checkpoint_example =
    cleanup_idle-after_checkpoint (λ name m. m) single 400_000 (λ id. round) one_open
      λ id. (λ m. refl, cutoff_before)

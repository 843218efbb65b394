-- ===== src/Db/System/Tests.antt =====
-- A run of the manager of src/db.rs, and the theorems about it at concrete inputs.
use tinkiva_sqllite_server.Prelude.{
  none, length, ◌+◌, ◌≤◌, ℕ, ◌≡◌, refl, arith, true, some, ok, [], ◌∷◌, get_elem?, All,
}
use tinkiva_sqllite_server.Config.{DatabaseSettings, default_database}
use tinkiva_sqllite_server.Db.Entry.{DatabaseEntry}
use tinkiva_sqllite_server.Db.Entry
use tinkiva_sqllite_server.Db.Registry
use tinkiva_sqllite_server.Db.State
use tinkiva_sqllite_server.Db.State.{DatabaseManager, DatabaseLease, new, lease, drop}
use tinkiva_sqllite_server.Db.Evict
use tinkiva_sqllite_server.Db.Evict.{slot_locked}
use tinkiva_sqllite_server.Db.Acquire.{Turn, acquire}
use tinkiva_sqllite_server.Db.Names.{validate_database_name}
use tinkiva_sqllite_server.Db.System.Given.{Quiet, IsIdleAt, acquire_given}
use tinkiva_sqllite_server.Db.System.Stats.{leases_on, Reach-stats}
use tinkiva_sqllite_server.Db.Maintenance.{ids, stats}
use tinkiva_sqllite_server.Db.Invariant.{Inv, process_permits}
use tinkiva_sqllite_server.Db.Invariant.Steps.{bare}
use tinkiva_sqllite_server.Db.Tenancy.{Tenancy}
use tinkiva_sqllite_server.Db.System.{first, slotted, leased, dropped, done, before, Reach}
use tinkiva_sqllite_server.Db.System.Sound.{Reach-Inv, Free, Reach-quiescent}
use tinkiva_sqllite_server.Db.System.Apart.{Reach-Tenancy}

abbrev settings : DatabaseSettings
settings = default_database

-- A request that has got its entry, one that counts on it, and its timeout.
abbrev linked : DatabaseManager
linked = (slot_locked settings 5 "acme" (new settings)).1

abbrev waiting : DatabaseManager
waiting = record (lease 0 linked).1 { leases = bare 0 ∷ linked.leases }

abbrev timed_out : DatabaseManager
timed_out = record (drop 9 (bare 0) waiting) { leases = [] }

granted : (lease 0 linked).0 ≡ true
unfolding lease slot_locked new Registry.lookup Evict.make_room Evict.admit Entry.new Entry.lease
    Registry.insert State.count
granted = refl

no_leases : linked.leases ≡ []
unfolding slot_locked new Registry.lookup Evict.make_room Evict.admit Entry.new Registry.insert
    State.count
no_leases = refl

waiting-Reach : Reach settings waiting
waiting-Reach =
    before (slotted 5 "acme") (before (leased 0 granted first (rw no_leases (omega arith))) done)

timed_out-Reach : Reach settings timed_out
timed_out-Reach = before (slotted 5 "acme") (
    before (leased 0 granted first (rw no_leases (omega arith)))
      (before (dropped 9 (bare 0) (rw no_leases first)) done))

Reach-Inv_example : Inv settings [] waiting
Reach-Inv_example = Reach-Inv settings waiting waiting-Reach

Reach-Tenancy_example : Tenancy settings waiting
Reach-Tenancy_example = Reach-Tenancy settings waiting waiting-Reach

Reach-quiescent_example :
    (timed_out.slots ≡ settings.max_concurrent_requests)
    × ((id : ℕ) (e : DatabaseEntry) → get_elem? timed_out.heap id ≡ some e → Free settings e)
Reach-quiescent_example = Reach-quiescent settings timed_out timed_out-Reach refl

-- A round in which no other task runs.
abbrev turn : Turn
turn = record {
  at_lock = λ m. m;
  at_yield = λ m. m;
  at_tenant = λ m. m;
  at_process = λ m. m;
  at_open = λ m. m;
  tenant_elapsed = 1000;
  process_elapsed = 2000;
  connect = λ options. none;
  created_ms = 5;
  touched_ms = 6;
  dropped_ms = 7;
}

turn-Quiet : Quiet turn
turn-Quiet = record {
  at_lock = λ m. refl;
  at_tenant = λ m. refl;
  at_process = λ m. refl;
  at_open = λ m. refl;
  connects = λ options. refl;
}

valid : validate_database_name "other" ≡ ok tt
unfolding validate_database_name
valid = refl

abbrev returned_entry : DatabaseEntry
returned_entry = record {
  name = "acme";
  pools = none;
  last_used_ms = 9;
  active_leases = 0;
  slots = settings.max_concurrent_requests_per_database;
}

idle : All (λ entry. IsIdleAt timed_out.heap entry.1) timed_out.entries
unfolding slot_locked new Registry.lookup Evict.make_room Evict.admit Entry.new Registry.insert
    State.count lease drop Entry.lease Entry.release Entry.touch State.modify Registry.update
idle = ((returned_entry, refl, refl), tt)

acquire_given_example :
    (l : DatabaseLease) × ((acquire (λ n. turn) settings "other" timed_out).0 ≡ ok l)
acquire_given_example =
    acquire_given settings (λ n. turn) "other" timed_out turn-Quiet (omega arith) (omega arith)
      (omega arith) (omega arith, omega arith) valid (Reach-Inv settings timed_out timed_out-Reach)
      refl idle

Reach-stats_example :
    ((stats settings waiting).open_databases ≡ length waiting.entries)
    × (length waiting.entries ≤ (stats settings waiting).max_open_databases)
    × ((stats settings waiting).max_open_databases ≡ settings.max_open_databases)
    × ((stats settings waiting).active_leases ≡ leases_on (ids waiting.entries) waiting.leases)
    × ((stats settings waiting).available_request_slots + process_permits waiting.leases
        ≡ (stats settings waiting).max_concurrent_requests)
    × ((stats settings waiting).max_concurrent_requests ≡ settings.max_concurrent_requests)
Reach-stats_example = Reach-stats settings waiting waiting-Reach

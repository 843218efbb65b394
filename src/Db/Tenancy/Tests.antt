-- ===== src/Db/Tenancy/Tests.antt =====
-- Two tenants of src/db.rs, and the theorems about them at concrete inputs.
use tinkiva_sqllite_server.Prelude.{
  ℕ, ◌+◌, length, get_elem?, String, ◌≡◌, ◌≢◌, true, false, refl, arith, none, some, ok, eq_iff,
}
use tinkiva_sqllite_server.Config.{DatabaseSettings, default_database}
use tinkiva_sqllite_server.Db.Names
use tinkiva_sqllite_server.Db.Names.{database_path}
use tinkiva_sqllite_server.Db.Pools.{Pools, open_pools, pools_of}
use tinkiva_sqllite_server.Db.Entry
use tinkiva_sqllite_server.Db.Entry.{DatabaseEntry}
use tinkiva_sqllite_server.Db.Registry
use tinkiva_sqllite_server.Db.State
use tinkiva_sqllite_server.Db.State.{DatabaseManager, DatabaseLease, new, lease_pools}
use tinkiva_sqllite_server.Db.Evict
use tinkiva_sqllite_server.Db.Acquire
use tinkiva_sqllite_server.Db.Acquire.{Turn, acquire}
use tinkiva_sqllite_server.Db.Tenancy.{Tenancy, Tenant-refl}
use tinkiva_sqllite_server.Db.Tenancy.Leases.{Peaceful, Served}
use tinkiva_sqllite_server.Db.Tenancy.Acquire.{acquire-Served}
use tinkiva_sqllite_server.Db.Tenancy.Isolation.{acquire_isolated}
use tinkiva_sqllite_server.Prelude.{length}
use tinkiva_sqllite_server.Db.Registry.{Distinct, lookup}
use tinkiva_sqllite_server.Db.State.{DatabaseManager}
use tinkiva_sqllite_server.Db.Evict.{slot}
use tinkiva_sqllite_server.Db.Maintenance.{cleanup_idle}
use tinkiva_sqllite_server.Db.Maintenance.Cleanup.{alone, IsIdleFor, cleanup_idle-lookup}
use tinkiva_sqllite_server.Db.Tenancy.Slot.{slot-Found}

abbrev settings : DatabaseSettings
settings = default_database

-- A round in which no other task runs and connections open.
abbrev quiet : Turn
quiet = record {
  at_lock = λ m. m;
  at_yield = λ m. m;
  at_tenant = λ m. m;
  at_process = λ m. m;
  at_open = λ m. m;
  tenant_elapsed = 1000;
  process_elapsed = 2000;
  connect = λ options. none;
  created_ms = 5;
  touched_ms = 6;
  dropped_ms = 7;
}

quiet-Peaceful : Peaceful settings quiet
quiet-Peaceful = record {
  at_lock = λ m h. Tenant-refl settings m h;
  at_yield = λ m h. Tenant-refl settings m h;
  at_tenant = λ m h. Tenant-refl settings m h;
  at_process = λ m h. Tenant-refl settings m h;
  at_open = λ m h. Tenant-refl settings m h;
}

new-Tenancy : Tenancy settings (new settings)
unfolding new
new-Tenancy = record { linked = tt; filed = λ id e read. absurd (ground arith) }

acquire-Served_example :
    Served settings "acme" (new settings) (acquire (λ n. quiet) settings "acme" (new settings))
acquire-Served_example =
    acquire-Served settings "acme" (λ n. quiet) (new settings) (λ n. quiet-Peaceful) new-Tenancy

-- A lease on a database of its own, in a manager that was empty.
abbrev first_lease : DatabaseLease
first_lease = record { entry = 0; slots = true }

abbrev acme : Pools
acme = pools_of settings (database_path settings "acme")

abbrev beta : Pools
beta = pools_of settings (database_path settings "beta")

acme_given : (acquire (λ n. quiet) settings "acme" (new settings)).0 ≡ ok first_lease
unfolding acquire Names.validate_database_name Acquire.attempt Evict.slot Registry.lookup new
    Evict.slot_locked Evict.make_room State.lease Evict.admit State.count Entry.lease Entry.new
    Registry.update Acquire.admit_tenant Acquire.wait_for_tenant_slot Acquire.admit_process
    Acquire.wait_for_process_slot State.modify State.touch Entry.touch Acquire.open_leased
    Acquire.ensure_open Entry.ensure_open open_pools pools_of Registry.insert lease_pools
    database_path
acme_given = refl

beta_given : (acquire (λ n. quiet) settings "beta" (new settings)).0 ≡ ok first_lease
unfolding acquire Names.validate_database_name Acquire.attempt Evict.slot Registry.lookup new
    Evict.slot_locked Evict.make_room State.lease Evict.admit State.count Entry.lease Entry.new
    Registry.update Acquire.admit_tenant Acquire.wait_for_tenant_slot Acquire.admit_process
    Acquire.wait_for_process_slot State.modify State.touch Entry.touch Acquire.open_leased
    Acquire.ensure_open Entry.ensure_open open_pools pools_of Registry.insert lease_pools
    database_path
beta_given = refl

acme_pools :
    lease_pools first_lease (acquire (λ n. quiet) settings "acme" (new settings)).1 ≡ some acme
unfolding acquire Names.validate_database_name Acquire.attempt Evict.slot Registry.lookup new
    Evict.slot_locked Evict.make_room State.lease Evict.admit State.count Entry.lease Entry.new
    Registry.update Acquire.admit_tenant Acquire.wait_for_tenant_slot Acquire.admit_process
    Acquire.wait_for_process_slot State.modify State.touch Entry.touch Acquire.open_leased
    Acquire.ensure_open Entry.ensure_open open_pools pools_of Registry.insert lease_pools
    database_path
acme_pools = refl

beta_pools :
    lease_pools first_lease (acquire (λ n. quiet) settings "beta" (new settings)).1 ≡ some beta
unfolding acquire Names.validate_database_name Acquire.attempt Evict.slot Registry.lookup new
    Evict.slot_locked Evict.make_room State.lease Evict.admit State.count Entry.lease Entry.new
    Registry.update Acquire.admit_tenant Acquire.wait_for_tenant_slot Acquire.admit_process
    Acquire.wait_for_process_slot State.modify State.touch Entry.touch Acquire.open_leased
    Acquire.ensure_open Entry.ensure_open open_pools pools_of Registry.insert lease_pools
    database_path
beta_pools = refl

abbrev acme_name : String
acme_name = "acme"

acme_ne_beta : acme_name ≢ "beta"
acme_ne_beta same = let h : false ≡ true = (eq_iff acme_name "beta").1 same in ground (arith, h)

acquire_isolated_example : acme.writer.options.filename ≢ beta.writer.options.filename
acquire_isolated_example =
    acquire_isolated settings (λ n. quiet) (λ n. quiet) "acme" "beta" (new settings) (new settings)
      first_lease first_lease acme beta (λ n. quiet-Peaceful) (λ n. quiet-Peaceful) new-Tenancy
      new-Tenancy acme_ne_beta acme_given beta_given acme_pools beta_pools

-- One database, opened at 5 ms and idle since.
abbrev one_idle : DatabaseManager
one_idle = (slot (λ m. m) settings 5 "first" (new settings)).1

one_idle-Tenancy : Tenancy settings one_idle
one_idle-Tenancy =
    (slot-Found settings (λ m. m) 5 "first" (new settings) (Tenant-refl settings (new settings))
      new-Tenancy).kept.tenancy

one_idle-Distinct : Distinct one_idle.entries
unfolding slot Evict.slot_locked Evict.make_room Evict.admit State.count Registry.insert lookup new
one_idle-Distinct = (refl, tt)

-- A tick `idle_timeout_seconds` after the last use.
abbrev tick : ℕ
tick = 300_005

cleanup_idle-lookup_example :
    ((name : String) (id : ℕ) (e : DatabaseEntry)
      → lookup name one_idle.entries ≡ some id
      → get_elem? one_idle.heap id ≡ some e
      → (IsIdleFor settings tick e
          → lookup name (cleanup_idle alone settings tick one_idle).1.entries ≡ none)
        × ((IsIdleFor settings tick e → ⊥)
            → lookup name (cleanup_idle alone settings tick one_idle).1.entries ≡ some id))
    × ((name : String)
        → lookup name one_idle.entries ≡ none
        → lookup name (cleanup_idle alone settings tick one_idle).1.entries ≡ none)
    × ((cleanup_idle alone settings tick one_idle).0
          + length (cleanup_idle alone settings tick one_idle).1.entries
        ≡ length one_idle.entries)
cleanup_idle-lookup_example =
    cleanup_idle-lookup settings tick one_idle one_idle-Distinct one_idle-Tenancy

-- ===== src/Db/System/Apart.antt =====
-- Every step of the manager of src/db.rs keeps the tenants apart.
use tinkiva_sqllite_server.Prelude.{
  ℕ, ◌-◌, ◌≡◌, refl, ap, ◌∙◌, List, ◌∷◌, arith, get_elem?, inl, inr, Option-cases,
}
use tinkiva_sqllite_server.Config.{DatabaseSettings}
use tinkiva_sqllite_server.Db.Entry.{DatabaseEntry, closed}
use tinkiva_sqllite_server.Db.State.{DatabaseManager, Hold, new, modify, lease, drop, begin_close}
use tinkiva_sqllite_server.Db.State.Cases.{begin_close_cases}
use tinkiva_sqllite_server.Db.Evict.{close_entry}
use tinkiva_sqllite_server.Db.Evict.Take.{take_entry_cases}
use tinkiva_sqllite_server.Db.Acquire.Fair.{IsFair, Fair}
use tinkiva_sqllite_server.Db.Tenancy.{
  IsNamed, Tenancy, Tenant, Tenant-refl, Tenant-trans, IsKept-refl, modify-Tenant,
}
use tinkiva_sqllite_server.Db.Tenancy.Steps.{lease-Tenant, touch-Tenant, frame-Tenant, drop-Tenant}
use tinkiva_sqllite_server.Db.Tenancy.Leases.{
  IsPeaceful, Peaceful, count-Tenant, remove_if-Tenant, ensure_open-Tenant,
}
use tinkiva_sqllite_server.Db.Tenancy.Slot.{taken-Tenant, slot_locked-Found}
use tinkiva_sqllite_server.Db.Acquire.{Others, Turn}
use tinkiva_sqllite_server.Db.System.Order.{Swapped-All}
use tinkiva_sqllite_server.Db.System.{
  Step, slotted, leased, took_tenant, took_process, opened, unlinked, touched, counted, dropped,
  swapped, taken, closed_entry, logged, begun_close, unlinked_all, Steps, done, before, Reach,
  IsScheduled, Scheduled,
}
use tinkiva_sqllite_server.Db.System.Sound.{Steps-Inv}

module _ (settings : DatabaseSettings) where
  pub leases-Tenant :
      (leases : List Hold) (m m' : DatabaseManager)
      → Tenant settings m m'
      → Tenant settings m (record m' { leases = leases })
  leases-Tenant leases m m' h = record {
    tenancy = record { linked = h.tenancy.linked; filed = h.tenancy.filed };
    kept = h.kept;
  }

  begin_close-Tenant :
      (id : ℕ) (m : DatabaseManager) → Tenancy settings m → Tenant settings m (begin_close id m).1
  begin_close-Tenant id m h = elim (begin_close_cases id m) [
    | inl (same, _) ↦ rw same (Tenant-refl settings m h)
    | inr (e, read, idle, begun) ↦ rw begun (
        modify-Tenant settings id (λ _. record e { active_leases = closed }) m
          (λ e' read'.
            let same : e ≡ e' = ground arith in
            (
              ap (λ (e : DatabaseEntry). e.name) same,
              λ pools there. ap (λ (e : DatabaseEntry). e.pools) same ∙ there,
              h.filed id e read,
            ))
          h)
  ]

  close_entry-Tenant :
      (id : ℕ) (m : DatabaseManager) → Tenancy settings m → Tenant settings m (close_entry id m)
  unfolding close_entry
  close_entry-Tenant id m h = elim (Option-cases (get_elem? m.heap id)) [
    | inl missing ↦ rw (missing, close_entry) (Tenant-refl settings m h)
    | inr (e, read) ↦ elim (Option-cases e.pools) [
      | inl shut ↦ rw (read, close_entry, shut) (Tenant-refl settings m h)
      | inr (pools, there) ↦
          rw (read, close_entry, there) (frame-Tenant settings m.slots m.metrics m.spawned _ m h)
    ]
  ]

  pub Step-Tenant :
      {room : ℕ} {m m' : DatabaseManager}
      → Step settings room m m'
      → Tenancy settings m
      → Tenant settings m m'
  Step-Tenant {room} {m} (slotted now name) h = (slot_locked-Found settings now name m h).kept
  Step-Tenant {room} {m} (leased id granted s few) h =
      leases-Tenant _ m (lease id m).1 (lease-Tenant settings id m h)
  Step-Tenant {room} {m} (took_tenant id e s s' read left) h =
      leases-Tenant _ m (modify id (λ e. record e { slots = e.slots - 1 }) m) (
        modify-Tenant settings id (λ e. record e { slots = e.slots - 1 }) m
          (λ e read. (refl, (λ pools there. there), h.filed id e read)) h)
  Step-Tenant {room} {m} (took_process id s s' left) h =
      leases-Tenant _ m (record m { slots = m.slots - 1 })
        (frame-Tenant settings (m.slots - 1) m.metrics m.spawned m.events m h)
  Step-Tenant {room} {m} (opened turn id e read) h =
      (ensure_open-Tenant settings e.name turn id m (e, read, refl) h).0
  Step-Tenant {room} {m} (unlinked name id) h = remove_if-Tenant settings name id m h
  Step-Tenant {room} {m} (touched id now) h = touch-Tenant settings id now m h
  Step-Tenant {room} {m} (counted f) h = count-Tenant settings "" f m h
  Step-Tenant {room} {m} (dropped now lease s) h =
      leases-Tenant _ m (drop now lease m) (drop-Tenant settings now lease m h)
  Step-Tenant {room} {m} (swapped s) h = record {
    tenancy = record {
      linked = Swapped-All (λ entry. IsNamed m.heap entry.0 entry.1) s h.linked;
      filed = h.filed;
    };
    kept = IsKept-refl m.heap;
  }
  Step-Tenant {room} {m} (taken name) h = elim (take_entry_cases name m) [
    | inl (same, _) ↦ rw same (Tenant-refl settings m h)
    | inr (id, e, found, read, idle, took) ↦ rw took (taken-Tenant settings name id e m read h)
  ]
  Step-Tenant {room} {m} (closed_entry id) h = close_entry-Tenant id m h
  Step-Tenant {room} {m} (logged event) h =
      frame-Tenant settings m.slots m.metrics m.spawned (event ∷ m.events) m h
  Step-Tenant {room} {m} (begun_close id) h = begin_close-Tenant id m h
  Step-Tenant {room} {m} unlinked_all h = record {
    tenancy = record { linked = tt; filed = h.filed };
    kept = IsKept-refl m.heap;
  }

  pub Steps-Tenant :
      {room : ℕ} {m m' : DatabaseManager}
      → Steps settings room m m'
      → Tenancy settings m
      → Tenant settings m m'
  Steps-Tenant {room} {m} done h = Tenant-refl settings m h
  Steps-Tenant {room} {m} (before {m'} {m''} step steps) h =
      Tenant-trans settings m m' m'' (Step-Tenant step h) (Steps-Tenant steps)

  -- However the tasks interleave, every entry is linked under its own name, and its pools are on the
  -- file of that name.
  pub Reach-Tenancy : (m : DatabaseManager) → Reach settings m → Tenancy settings m
  unfolding new
  Reach-Tenancy m steps =
      (Steps-Tenant steps
        (record { linked = tt; filed = λ id e read. absurd (ground arith) })).tenancy

  -- Other tasks that do nothing but steps keep what the theorems on one task ask of them.
  pub IsScheduled-IsFair : (others : Others) → IsScheduled settings others → IsFair settings others
  IsScheduled-IsFair others scheduled own m inv =
      Steps-Inv settings own (omega arith) (scheduled m) inv

  pub IsScheduled-IsPeaceful :
      (others : Others) → IsScheduled settings others → IsPeaceful settings others
  IsScheduled-IsPeaceful others scheduled m h = Steps-Tenant (scheduled m) h

  pub Scheduled-Fair : (turn : Turn) → Scheduled settings turn → Fair settings turn
  Scheduled-Fair turn h = record {
    at_lock = IsScheduled-IsFair turn.at_lock h.at_lock;
    at_yield = IsScheduled-IsFair turn.at_yield h.at_yield;
    at_tenant = IsScheduled-IsFair turn.at_tenant h.at_tenant;
    at_process = IsScheduled-IsFair turn.at_process h.at_process;
    at_open = IsScheduled-IsFair turn.at_open h.at_open;
  }

  pub Scheduled-Peaceful : (turn : Turn) → Scheduled settings turn → Peaceful settings turn
  Scheduled-Peaceful turn h = record {
    at_lock = IsScheduled-IsPeaceful turn.at_lock h.at_lock;
    at_yield = IsScheduled-IsPeaceful turn.at_yield h.at_yield;
    at_tenant = IsScheduled-IsPeaceful turn.at_tenant h.at_tenant;
    at_process = IsScheduled-IsPeaceful turn.at_process h.at_process;
    at_open = IsScheduled-IsPeaceful turn.at_open h.at_open;
  }

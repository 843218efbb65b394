-- ===== src/Db/Tenancy/Steps.antt =====
-- Leases, permits and links of src/db.rs keep the tenants apart.
use tinkiva_sqllite_server.Prelude.{
  ℕ, String, ◌+◌, ◌≡◌, inl, inr, refl, ap, ◌∙◌, some, List, [], ◌∷◌, ◌++◌, arith, ◌==◌, length,
  get_elem?, Bool-cases, get_elem?-lt-length,
}
use tinkiva_sqllite_server.Config.{DatabaseSettings}
use tinkiva_sqllite_server.Metrics.{Metrics}
use tinkiva_sqllite_server.Db.Pools.{Pools}
use tinkiva_sqllite_server.Db.Entry.{DatabaseEntry, closed}
use tinkiva_sqllite_server.Db.Entry
use tinkiva_sqllite_server.Db.Registry.{remove, get_elem?-push, insert-All, remove-All}
use tinkiva_sqllite_server.Db.State.{
  DatabaseManager, PoolEvent, Hold, returned, modify, count, lease, touch, drop,
}
use tinkiva_sqllite_server.Db.State.Cases.{lease_cases}
use tinkiva_sqllite_server.Db.Evict.{admit}
use tinkiva_sqllite_server.Db.Tenancy.{
  IsFiled, IsKept, IsKept-refl, linked_kept, Tenancy, Tenant, Tenant-refl, Tenant-trans,
  modify-Tenant,
}

module _ (settings : DatabaseSettings) where
  pub lease-Tenant :
      (id : ℕ) (m : DatabaseManager) → Tenancy settings m → Tenant settings m (lease id m).1
  lease-Tenant id m h = elim (lease_cases id m) [
    | inl (same, _) ↦ rw same (Tenant-refl settings m h)
    | inr (e, read, _, granted) ↦ rw granted (
        modify-Tenant settings id (λ _. record e { active_leases = e.active_leases + 1 }) m
          (λ e' read'.
            let same : e ≡ e' = ground arith in
            (
              ap (λ (e : DatabaseEntry). e.name) same,
              λ pools there. ap (λ (e : DatabaseEntry). e.pools) same ∙ there,
              h.filed id e read,
            ))
          h)
  ]

  pub touch-Tenant :
      (id now : ℕ) (m : DatabaseManager) → Tenancy settings m → Tenant settings m (touch id now m)
  unfolding touch Entry.touch
  touch-Tenant id now m h =
      modify-Tenant settings id (Entry.touch now) m
        (λ e read. (refl, (λ pools there. there), h.filed id e read)) h

  -- What the heap is not part of.
  pub frame-Tenant :
      (slots : ℕ) (metrics : Metrics) (spawned : List ℕ) (events : List PoolEvent)
      (m : DatabaseManager)
      → Tenancy settings m
      → Tenant settings m
          (record m { slots = slots; metrics = metrics; spawned = spawned; events = events })
  frame-Tenant slots metrics spawned events m h = record {
    tenancy = record { linked = h.linked; filed = h.filed };
    kept = IsKept-refl m.heap;
  }

  returned-IsFiled :
      (now : ℕ) (hold : Hold) (m : DatabaseManager)
      → Tenancy settings m
      → (e : DatabaseEntry) → get_elem? m.heap hold.entry ≡ some e
      → ((returned now hold e).name ≡ e.name)
        × ((pools : Pools) → e.pools ≡ some pools → (returned now hold e).pools ≡ some pools)
        × IsFiled settings (returned now hold e)
  unfolding Entry.release Entry.touch
  returned-IsFiled now hold m h e read = elim (Bool-cases hold.tenant) [
    | inl t ↦ rw t (refl, (λ pools there. there), h.filed hold.entry e read)
    | inr t ↦ rw t (refl, (λ pools there. there), h.filed hold.entry e read)
  ]

  pub drop-Tenant :
      (now : ℕ) (hold : Hold) (m : DatabaseManager)
      → Tenancy settings m
      → Tenant settings m (drop now hold m)
  unfolding drop modify
  drop-Tenant now hold m h =
      let back : Tenant settings m (modify hold.entry (returned now hold) m) =
        modify-Tenant settings hold.entry (returned now hold) m (returned-IsFiled now hold m h) h in
      elim (Bool-cases hold.process) [
        | inr p ↦ rw (p, drop) back
        | inl p ↦
            rw (p, drop)
              (Tenant-trans settings m (modify hold.entry (returned now hold) m) _ back (
                frame-Tenant (m.slots + 1) m.metrics m.spawned m.events
                  (modify hold.entry (returned now hold) m)))
      ]

  pub remove-Tenant :
      (name : String) (m : DatabaseManager)
      → Tenancy settings m
      → Tenant settings m (record m { entries = remove name m.entries })
  remove-Tenant name m h = record {
    tenancy = record { linked = remove-All _ name m.entries h.linked; filed = h.filed };
    kept = IsKept-refl m.heap;
  }

  pub admit-Tenant :
      (now : ℕ) (name : String) (m : DatabaseManager)
      → Tenancy settings m
      → Tenant settings m (admit settings now name m).1
  unfolding admit count Entry.new
  admit-Tenant now name m h =
      let entry : DatabaseEntry =
        Entry.new name settings.max_concurrent_requests_per_database now in
      let kept : IsKept m.heap (m.heap ++ entry ∷ []) = λ id e read. (
        e,
        ground (arith, get_elem?-push m.heap entry id, get_elem?-lt-length m.heap id e read),
        refl,
        λ pools there. there,
      ) in
      record {
        tenancy = record {
          linked =
              insert-All _ name (length m.heap) m.entries
                (linked_kept m.heap (m.heap ++ entry ∷ []) m.entries kept h.linked)
                (entry, ground (arith, get_elem?-push m.heap entry (length m.heap)), refl);
          filed = λ id e read. elim (Bool-cases (id == length m.heap)) [
            | inl new ↦ λ pools there. absurd (ground (arith, get_elem?-push m.heap entry id))
            | inr old ↦ h.filed id e (ground (arith, get_elem?-push m.heap entry id))
          ];
        };
        kept = kept;
      }

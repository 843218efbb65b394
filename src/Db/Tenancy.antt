-- ===== src/Db/Tenancy.antt =====
-- Whose file is behind an entry of src/db.rs: entries are linked under their own names, and their
-- pools are on the file of that name.
pub mod Steps
pub mod Slot
pub mod Leases
pub mod Acquire
pub mod Isolation
mod Tests
use tinkiva_sqllite_server.Prelude.{
  ℕ, zero, suc, String, ◌+◌, ◌-◌, ◌≤◌, ◌<◌, ◌≡◌, ◌≢◌, ◌⊎◌, inl, inr, refl, sym, ap, ◌∙◌, Bool, true,
  false, Option, none, some, List, [], ◌∷◌, ◌++◌, Result, ok, err, arith, eq_iff, ==_iff, ◌==◌, ltb,
  if◌then◌else◌, length, get_elem?, All, Bool-cases, Option-cases, length-append,
  get_elem?-lt-length, length-le_of_none,
}
use mathlib.Core.Path.{subst}
use tinkiva_sqllite_server.Metrics.{Metrics}
use tinkiva_sqllite_server.Config.{DatabaseSettings}
use tinkiva_sqllite_server.Db.Names.{database_path}
use tinkiva_sqllite_server.Db.Pools.{Pools}
use tinkiva_sqllite_server.Db.Entry.{DatabaseEntry, closed}
use tinkiva_sqllite_server.Db.Entry
use tinkiva_sqllite_server.Db.Registry.{
  Entries, lookup, insert, remove, update, get_elem?-update, update_cases, get_elem?-push,
  insert-All, remove-All, lookup-All,
}
use tinkiva_sqllite_server.Db.State.{
  DatabaseManager, PoolEvent, Hold, new, returned, modify, count, lease, begin_close, touch, drop,
}
use tinkiva_sqllite_server.Db.State.Cases.{lease_cases}
use tinkiva_sqllite_server.Db.Evict.{admit}

-- There is an entry at `id`, with this name.
abbrev pub IsNamed : List DatabaseEntry → String → ℕ → Type 0
IsNamed heap name id = (e : DatabaseEntry) × (get_elem? heap id ≡ some e) × (e.name ≡ name)

abbrev pub IsOnFile : List ℕ → Pools → Type 0
IsOnFile path pools =
    (pools.writer.options.filename ≡ path) × (pools.readers.options.filename ≡ path)

abbrev pub IsFiled : DatabaseSettings → DatabaseEntry → Type 0
IsFiled settings e =
    (pools : Pools) → e.pools ≡ some pools → IsOnFile (database_path settings e.name) pools

pub record Tenancy (settings : DatabaseSettings) (m : DatabaseManager) : Type 0 where
  pub linked : All (λ entry. IsNamed m.heap entry.0 entry.1) m.entries
  pub filed : (id : ℕ) (e : DatabaseEntry) → get_elem? m.heap id ≡ some e → IsFiled settings e

-- No entry goes away or gets another name, and open pools stay.
abbrev pub IsKept : List DatabaseEntry → List DatabaseEntry → Type 0
IsKept before after =
    (id : ℕ) (e : DatabaseEntry)
    → get_elem? before id ≡ some e
    → (e' : DatabaseEntry) × (get_elem? after id ≡ some e')
      × (e'.name ≡ e.name)
      × ((pools : Pools) → e.pools ≡ some pools → e'.pools ≡ some pools)

pub IsKept-refl : (heap : List DatabaseEntry) → IsKept heap heap
IsKept-refl heap id e read = (e, read, refl, λ pools h. h)

pub IsKept-trans :
    (first second third : List DatabaseEntry)
    → IsKept first second
    → IsKept second third
    → IsKept first third
IsKept-trans first second third before after id e read =
    let (e', read', name', pools') = before id e read in
    let (e'', read'', name'', pools'') = after id e' read' in
    (e'', read'', name'' ∙ name', λ pools h. pools'' pools (pools' pools h))

pub IsKept-IsNamed :
    (before after : List DatabaseEntry) (name : String) (id : ℕ)
    → IsKept before after
    → IsNamed before name id
    → IsNamed after name id
IsKept-IsNamed before after name id kept (e, read, same) =
    let (e', read', name', _) = kept id e read in (e', read', name' ∙ same)

linked_kept :
    (before after : List DatabaseEntry) (es : Entries)
    → IsKept before after
    → All (λ entry. IsNamed before entry.0 entry.1) es
    → All (λ entry. IsNamed after entry.0 entry.1) es
linked_kept before after [] kept h = tt
linked_kept before after ((name, id) ∷ es) kept h =
    (IsKept-IsNamed before after name id kept h.0, linked_kept before after es kept h.1)

-- A step of the manager that keeps the tenants apart.
pub record Tenant (settings : DatabaseSettings) (m m' : DatabaseManager) : Type 0 where
  pub tenancy : Tenancy settings m'
  pub kept : IsKept m.heap m'.heap

module _ (settings : DatabaseSettings) where
  pub Tenant-refl : (m : DatabaseManager) → Tenancy settings m → Tenant settings m m
  Tenant-refl m h = record { tenancy = h; kept = IsKept-refl m.heap }

  pub Tenant-trans :
      (m m' m'' : DatabaseManager)
      → Tenant settings m m'
      → (Tenancy settings m' → Tenant settings m' m'')
      → Tenant settings m m''
  Tenant-trans m m' m'' first second =
      let next = second first.tenancy in
      record {
        tenancy = next.tenancy;
        kept = IsKept-trans m.heap m'.heap m''.heap first.kept next.kept;
      }

  -- An access to one entry that keeps its name and its open pools.
  pub modify-Tenant :
      (id : ℕ) (f : DatabaseEntry → DatabaseEntry) (m : DatabaseManager)
      → ((e : DatabaseEntry)
          → get_elem? m.heap id ≡ some e
          → ((f e).name ≡ e.name)
            × ((pools : Pools) → e.pools ≡ some pools → (f e).pools ≡ some pools)
            × IsFiled settings (f e))
      → Tenancy settings m
      → Tenant settings m (modify id f m)
  unfolding modify
  modify-Tenant id f m step h =
      let kept : IsKept m.heap (update id f m.heap) = λ other e read.
        elim (Bool-cases (id == other)) [
          | inr miss ↦ (e, ground (arith, get_elem?-update id other f m.heap), refl, λ pools h. h)
          | inl hit ↦
              let same : id ≡ other = (==_iff id other).0 hit in
              let (name, pools, _) = step e (rw same read) in
              (f e, ground (arith, get_elem?-update id other f m.heap), name, pools)
        ] in
      record {
        tenancy = record {
          linked = linked_kept m.heap (update id f m.heap) m.entries kept h.linked;
          filed = λ other e read. elim (update_cases id other f m.heap e read) [
            | inr (_, before) ↦ h.filed other e before
            | inl (old, hit, before, written) ↦
                let (_, _, filed) = step old (rw hit before) in
                subst (IsFiled settings) written filed
          ];
        };
        kept = kept;
      }

-- ===== src/Db/System/Sound.antt =====
-- Every step of the manager of src/db.rs keeps the counts of leases and permits.
use tinkiva_sqllite_server.Prelude.{
  ℕ, ◌≤◌, ◌-◌, ◌<◌, ◌≡◌, ◌⊎◌, sym, refl, Bool, some, List, [], ◌∷◌, arith, length, get_elem?, All,
  inl, inr,
}
use mathlib.Core.Path.{subst}
use tinkiva_sqllite_server.Config.{DatabaseSettings}
use tinkiva_sqllite_server.Db.Entry.{DatabaseEntry, closed}
use tinkiva_sqllite_server.Db.State.{DatabaseManager, Hold, modify, lease, drop}
use tinkiva_sqllite_server.Db.Evict.Take.{take_entry_cases}
use tinkiva_sqllite_server.Db.Evict.Room.{taken-Inv, slot_locked-Slotted}
use tinkiva_sqllite_server.Db.Acquire.Fair.{remove_if-Inv, ensure_open-Inv}
use tinkiva_sqllite_server.Db.Invariant.{held, tenant_permits, process_permits, Inv, many, new-Inv}
use tinkiva_sqllite_server.Db.Invariant.Counts.{touch-Inv, lease-Inv, begin_close-Inv, drop-Inv}
use tinkiva_sqllite_server.Db.Invariant.Steps.{
  bare, frame-Inv, count-Inv, tenant_taken, process_taken,
}
use tinkiva_sqllite_server.Db.Maintenance.Balance.{close_entry-Inv}
use tinkiva_sqllite_server.Db.System.Frame.{drop_leases, lease_leases}
use tinkiva_sqllite_server.Db.System.Order.{Swapped-All, Swapped-length, Swapped-Distinct}
use tinkiva_sqllite_server.Db.System.{
  Select, first, next, Step, slotted, leased, took_tenant, took_process, opened, unlinked, touched,
  counted, dropped, swapped, taken, closed_entry, logged, begun_close, unlinked_all, Steps, done,
  before, Reach,
}

-- Selecting one lease changes no count.
Select-held :
    (id : ℕ) {h : Hold} {hs rest : List Hold}
    → Select h hs rest
    → (held id (h ∷ rest) ≡ held id hs) × (tenant_permits id (h ∷ rest) ≡ tenant_permits id hs)
Select-held id first = (refl, refl)
Select-held id (next {x} {hs} {rest} s) = ground (arith, Select-held id s)

Select-process :
    {h : Hold} {hs rest : List Hold}
    → Select h hs rest
    → (process_permits (h ∷ rest) ≡ process_permits hs) × (length (h ∷ rest) ≡ length hs)
Select-process first = (refl, refl)
Select-process (next {x} {hs} {rest} s) = ground (arith, Select-process s)

Select-All :
    (n : ℕ) {h : Hold} {hs rest : List Hold}
    → Select h hs rest
    → All (λ (h : Hold). h.entry < n) hs
    → All (λ (h : Hold). h.entry < n) (h ∷ rest)
Select-All n first all = all
Select-All n (next s) (x, all) = let (h, rest) = Select-All n s all in (h, (x, rest))

inserted-All :
    (n : ℕ) {h : Hold} {hs rest : List Hold}
    → Select h hs rest
    → All (λ (h : Hold). h.entry < n) (h ∷ rest)
    → All (λ (h : Hold). h.entry < n) hs
inserted-All n first all = all
inserted-All n (next s) (h, (x, all)) = (x, inserted-All n s (h, all))

module _ (settings : DatabaseSettings) where
  -- The accounts of the task that runs and those of the others add up the same either way.
  swap-Inv :
      (own : List Hold) (m : DatabaseManager)
      → Inv settings own m
      → Inv settings m.leases (record m { leases = own })
  swap-Inv own m inv = record {
    capacity = inv.capacity;
    distinct = inv.distinct;
    linked = inv.linked;
    own_allocated = inv.others_allocated;
    others_allocated = inv.own_allocated;
    accounts = λ id e read. ground (arith, inv.accounts id e read);
    process = omega (arith, inv.process);
    own_few = inv.few;
    few = inv.own_few;
  }

  Select-Inv :
      {h : Hold} {hs rest : List Hold} (m : DatabaseManager)
      → Select h hs rest
      → Inv settings hs m
      → Inv settings (h ∷ rest) m
  Select-Inv {h} {hs} {rest} m s inv = record {
    capacity = inv.capacity;
    distinct = inv.distinct;
    linked = inv.linked;
    own_allocated = Select-All (length m.heap) s inv.own_allocated;
    others_allocated = inv.others_allocated;
    accounts = λ id e read. ground (arith, Select-held id s, inv.accounts id e read);
    process = omega (arith, Select-process s, inv.process);
    own_few = omega (arith, Select-process s, inv.own_few);
    few = inv.few;
  }

  inserted-Inv :
      {h : Hold} {hs rest : List Hold} (m : DatabaseManager)
      → Select h hs rest
      → Inv settings (h ∷ rest) m
      → Inv settings hs m
  inserted-Inv {h} {hs} {rest} m s inv = record {
    capacity = inv.capacity;
    distinct = inv.distinct;
    linked = inv.linked;
    own_allocated = inserted-All (length m.heap) s inv.own_allocated;
    others_allocated = inv.others_allocated;
    accounts = λ id e read. ground (arith, Select-held id s, inv.accounts id e read);
    process = omega (arith, Select-process s, inv.process);
    own_few = omega (arith, Select-process s, inv.own_few);
    few = inv.few;
  }

  -- One of the leases as the own one of the task whose step it is.
  selected :
      {h : Hold} {rest : List Hold} (own : List Hold) (m : DatabaseManager)
      → Select h m.leases rest
      → Inv settings own m
      → Inv settings (h ∷ rest) (record m { leases = own })
  selected own m s inv = Select-Inv (record m { leases = own }) s (swap-Inv own m inv)

  -- A step that is some step on the leases of the other tasks, for the task whose leases are `own`.
  moved :
      (own leases : List Hold) (m : DatabaseManager)
      → Inv settings leases (record m { leases = own })
      → Inv settings own (record m { leases = leases })
  moved own leases m inv = swap-Inv leases (record m { leases = own }) inv

  Step-Inv :
      {room : ℕ} {m m' : DatabaseManager} (own : List Hold)
      → room ≤ many
      → Step settings room m m'
      → Inv settings own m
      → Inv settings own m'
  unfolding modify
  Step-Inv {m} own small (slotted now name) inv =
      (slot_locked-Slotted settings own now name m inv).kept
  Step-Inv {m} own small (leased {after} id granted s few) inv =
      elim (lease-Inv settings m.leases id (record m { leases = own }) (omega arith)
        (swap-Inv own m inv)) [
          | inl same ↦ absurd (ground (arith, lease_leases id m own))
          | inr (_, inv') ↦ moved own after (lease id m).1 (
              inserted-Inv _ s (
                subst (λ (r : Bool × DatabaseManager). Inv settings (bare id ∷ m.leases) r.1)
                  (lease_leases id m own) inv'))
        ]
  Step-Inv {m} own small (took_tenant {rest} {after} id e s s' read left) inv =
      moved own after (modify id (λ e. record e { slots = e.slots - 1 }) m) (
        inserted-Inv _ s' (
          tenant_taken settings rest id e (record m { leases = own }) read left
            (selected own m s inv)))
  Step-Inv {m} own small (took_process {rest} {after} id s s' left) inv =
      moved own after (record m { slots = m.slots - 1 })
        (inserted-Inv _ s'
          (process_taken settings rest id (record m { leases = own }) left (selected own m s inv)))
  Step-Inv {m} own small (opened turn id e read) inv =
      ensure_open-Inv settings own turn e.name id m inv
  Step-Inv {m} own small (unlinked name id) inv = remove_if-Inv settings own name id m inv
  Step-Inv {m} own small (touched id now) inv = touch-Inv settings own id now m inv
  Step-Inv {m} own small (counted f) inv = count-Inv settings own f m inv
  Step-Inv {m} own small (dropped {rest} now h s) inv = moved own rest (drop now h m) (
      rw (sym (drop_leases now h m own))
        (drop-Inv settings rest now h (record m { leases = own }) (selected own m s inv)))
  Step-Inv {room} {m} own small (swapped {entries} s) inv = record {
    capacity = omega (arith, Swapped-length s, inv.capacity);
    distinct = Swapped-Distinct s inv.distinct;
    linked = Swapped-All (λ entry. entry.1 < length m.heap) s inv.linked;
    own_allocated = inv.own_allocated;
    others_allocated = inv.others_allocated;
    accounts = inv.accounts;
    process = inv.process;
    own_few = inv.own_few;
    few = inv.few;
  }
  Step-Inv {m} own small (taken name) inv = elim (take_entry_cases name m) [
    | inl (same, _) ↦ rw same inv
    | inr (id, e, found, read, idle, took) ↦
        rw took (taken-Inv settings own name id e m read idle inv)
  ]
  Step-Inv {m} own small (closed_entry id) inv = close_entry-Inv settings own id m inv
  Step-Inv {m} own small (logged event) inv =
      frame-Inv settings own m.metrics m.spawned (event ∷ m.events) m inv
  Step-Inv {m} own small (begun_close id) inv = begin_close-Inv settings own id m inv
  Step-Inv {m} own small unlinked_all inv = record {
    capacity = omega arith;
    distinct = tt;
    linked = tt;
    own_allocated = inv.own_allocated;
    others_allocated = inv.others_allocated;
    accounts = inv.accounts;
    process = inv.process;
    own_few = inv.own_few;
    few = inv.few;
  }

  pub Steps-Inv :
      {room : ℕ} {m m' : DatabaseManager} (own : List Hold)
      → room ≤ many
      → Steps settings room m m'
      → Inv settings own m
      → Inv settings own m'
  Steps-Inv own small done inv = inv
  Steps-Inv own small (before step steps) inv =
      Steps-Inv own small steps (Step-Inv own small step inv)

  -- However the tasks interleave, and whenever a request is dropped: no more databases are linked
  -- than the capacity, under different names; every entry counts the leases on it, or is closed and
  -- has none; and the permits that are left and those that leases have add up to the settings.
  pub Reach-Inv : (m : DatabaseManager) → Reach settings m → Inv settings [] m
  Reach-Inv m steps = Steps-Inv [] (omega arith) steps (new-Inv settings)

  -- An entry that no lease counts on.
  pub record Free (e : DatabaseEntry) : Type 0 where
    pub unused : (e.active_leases ≡ 0) ⊎ (e.active_leases ≡ closed)
    pub permits : e.slots ≡ settings.max_concurrent_requests_per_database

  -- Once no task has a lease, whatever happened before, every permit of the process and of every
  -- entry is back, and no entry counts a lease.
  pub Reach-quiescent :
      (m : DatabaseManager)
      → Reach settings m
      → m.leases ≡ []
      → (m.slots ≡ settings.max_concurrent_requests)
        × ((id : ℕ) (e : DatabaseEntry) → get_elem? m.heap id ≡ some e → Free e)
  Reach-quiescent m steps none_left =
      let inv : Inv settings [] (record m { leases = [] }) =
        subst (λ leases. Inv settings [] (record m { leases = leases })) none_left
          (Reach-Inv m steps) in
      (
        ground (arith, inv.process),
        λ id e read.
            let accounts = inv.accounts id e read in
            record {
              unused = elim accounts.counted [
                | inl same ↦ inl (ground arith)
                | inr (shut, _) ↦ inr shut
              ];
              permits = ground (arith, accounts.shared);
            },
      )

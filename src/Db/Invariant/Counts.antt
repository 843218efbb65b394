-- ===== src/Db/Invariant/Counts.antt =====
-- The counts of leases, and how the accesses to one entry keep the invariant.
use tinkiva_sqllite_server.Prelude.{
  ℕ, ◌+◌, ◌≤◌, ◌<◌, ◌≡◌, ◌≢◌, ◌⊎◌, inl, inr, refl, sym, true, false, some, List, [], ◌∷◌, arith,
  length, get_elem?, All, Bool-cases, get_elem?-lt-length,
}
use mathlib.Core.Path.{subst}
use tinkiva_sqllite_server.Config.{DatabaseSettings}
use tinkiva_sqllite_server.Db.Entry.{DatabaseEntry, closed}
use tinkiva_sqllite_server.Db.Entry
use tinkiva_sqllite_server.Db.Registry.{length-update, update_cases}
use tinkiva_sqllite_server.Db.State.{
  DatabaseManager, Hold, modify, lease, begin_close, touch, drop, returned,
}
use tinkiva_sqllite_server.Db.State.Cases.{lease_cases, begin_close_cases}
use tinkiva_sqllite_server.Db.Invariant.{
  held, tenant_permits, process_permits, IsAccounted, Inv, many,
}

pub held-le-length : (id : ℕ) (hs : List Hold) → held id hs ≤ length hs
held-le-length id [] = omega arith
held-le-length id (h ∷ hs) = ground (arith, held-le-length id hs)

-- An access to the entry `id` that turns the accounts for `own` into those for `own'` there, and
-- changes no count elsewhere, turns the invariant for `own` into that for `own'`.
module _ (settings : DatabaseSettings) (own own' : List Hold) where
  pub modify-Inv :
      (id : ℕ) (f : DatabaseEntry → DatabaseEntry) (m : DatabaseManager)
      → Inv settings own m
      → All (λ (h : Hold). h.entry < length m.heap) own'
      → length own' < many
      → process_permits own' ≡ process_permits own
      → ((other : ℕ)
          → other ≢ id
          → (held other own' ≡ held other own)
            × (tenant_permits other own' ≡ tenant_permits other own))
      → ((e : DatabaseEntry)
          → get_elem? m.heap id ≡ some e
          → IsAccounted settings own m.leases id e
          → IsAccounted settings own' m.leases id (f e))
      → Inv settings own' (modify id f m)
  unfolding modify
  modify-Inv id f m inv allocated few same others step = record {
    capacity = inv.capacity;
    distinct = inv.distinct;
    linked = rw (length-update id f m.heap) inv.linked;
    own_allocated = rw (length-update id f m.heap) allocated;
    others_allocated = rw (length-update id f m.heap) inv.others_allocated;
    accounts = λ other e h. elim (update_cases id other f m.heap e h) [
      | inl (old, hit, read, written) ↦
          let read' : get_elem? m.heap id ≡ some old = rw hit read in
          subst (λ i. IsAccounted settings own' m.leases i e) hit
            (subst (IsAccounted settings own' m.leases id) written
              (step old read' (inv.accounts id old read')))
      | inr (miss, read) ↦
          let (same_held, same_permits) = others other (λ hit. miss (sym hit)) in
          rw (same_held, same_permits) (inv.accounts other e read)
    ];
    process = rw same inv.process;
    own_few = few;
    few = inv.few;
  }
  -- An access that keeps the accounts keeps the invariant.

module _ (settings : DatabaseSettings) (own : List Hold) where
  pub modify_same :
      (id : ℕ) (f : DatabaseEntry → DatabaseEntry) (m : DatabaseManager)
      → Inv settings own m
      → ((e : DatabaseEntry) → (f e).active_leases ≡ e.active_leases)
      → ((e : DatabaseEntry) → (f e).slots ≡ e.slots)
      → Inv settings own (modify id f m)
  modify_same id f m inv leases slots =
      modify-Inv settings own own id f m inv inv.own_allocated inv.own_few refl
        (λ other miss. (refl, refl)) λ e read a. ground (arith, leases e, slots e)

  pub touch-Inv :
      (id now : ℕ) (m : DatabaseManager) → Inv settings own m → Inv settings own (touch id now m)
  unfolding touch Entry.touch
  touch-Inv id now m inv = modify_same id (Entry.touch now) m inv (λ e. refl) (λ e. refl)

  abbrev bare : ℕ → Hold
  bare id = record { entry = id; tenant = false; process = false }

  -- A granted lease is one more of the task's own; a refused one changes nothing.
  pub lease-Inv :
      (id : ℕ) (m : DatabaseManager)
      → length own + 1 < many
      → Inv settings own m
      → ((lease id m ≡ (false, m)))
        ⊎ (((lease id m).0 ≡ true) × Inv settings (bare id ∷ own) (lease id m).1)
  lease-Inv id m few inv = elim (lease_cases id m) [
    | inl (same, _) ↦ inl same
    | inr (e, read, available, granted) ↦ inr (
      rw granted,
      rw granted (
          modify-Inv settings own (bare id ∷ own) id _ m inv
            (get_elem?-lt-length m.heap id e read, inv.own_allocated) (omega arith) (omega arith)
            (λ other miss. ground arith) λ old same a. ground arith),
    )
  ]

  pub begin_close-Inv :
      (id : ℕ) (m : DatabaseManager) → Inv settings own m → Inv settings own (begin_close id m).1
  begin_close-Inv id m inv = elim (begin_close_cases id m) [
    | inl (same, _) ↦ rw same inv
    | inr (e, read, idle, begun) ↦ rw begun (
        modify-Inv settings own own id _ m inv inv.own_allocated inv.own_few refl
          (λ other miss. (refl, refl)) λ old same a. ground arith)
  ]

  process_returned :
      (h : Hold) (m : DatabaseManager)
      → h.process ≡ true
      → Inv settings (h ∷ own) m
      → Inv settings (record h { process = false } ∷ own) (record m { slots = m.slots + 1 })
  process_returned h m p inv = record {
    capacity = inv.capacity;
    distinct = inv.distinct;
    linked = inv.linked;
    own_allocated = inv.own_allocated;
    others_allocated = inv.others_allocated;
    accounts = inv.accounts;
    process = ground (arith, inv.process);
    own_few = inv.own_few;
    few = inv.few;
  }

  entry_returned :
      (now : ℕ) (h : Hold) (m : DatabaseManager)
      → h.process ≡ false
      → Inv settings (h ∷ own) m
      → Inv settings own (modify h.entry (returned now h) m)
  unfolding Entry.release Entry.touch
  entry_returned now h m p inv =
      modify-Inv settings (h ∷ own) own h.entry (returned now h) m inv inv.own_allocated.1
        (omega (arith, inv.own_few)) (ground arith) (λ other miss. ground arith)
        λ old same a. ground (arith, held-le-length h.entry own, held-le-length h.entry m.leases)

  -- Dropping one of the task's leases takes it off the accounts.
  pub drop-Inv :
      (now : ℕ) (h : Hold) (m : DatabaseManager)
      → Inv settings (h ∷ own) m
      → Inv settings own (drop now h m)
  unfolding drop modify
  drop-Inv now h m inv = elim (Bool-cases h.process) [
    | inl p ↦
        rw (p, drop)
          (entry_returned now (record h { process = false }) _ refl (process_returned h m p inv))
    | inr p ↦ rw (p, drop) (entry_returned now h m p inv)
  ]

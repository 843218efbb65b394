-- ===== src/Db/System/Given.antt =====
-- When `acquire` of src/db.rs gives a lease.
use tinkiva_sqllite_server.Prelude.{
  ℕ, String, ◌+◌, ◌-◌, ◌≤◌, ◌<◌, ◌≡◌, ◌≢◌, refl, ap, ◌∙◌, true, none, some, List, [], ◌∷◌, Result,
  ok, arith, inl, inr, Bool-cases, Option-cases, ◌==◌, length, get_elem?, All,
}
use mathlib.Core.Path.{subst}
use tinkiva_sqllite_server.Error.{AppError}
use tinkiva_sqllite_server.Config.{DatabaseSettings}
use tinkiva_sqllite_server.Metrics
use tinkiva_sqllite_server.Db.Names.{validate_database_name}
use tinkiva_sqllite_server.Db.Pools.{PoolOptions, open_pools}
use tinkiva_sqllite_server.Db.Entry.{DatabaseEntry, closed, IsRunnable}
use tinkiva_sqllite_server.Db.Entry
use tinkiva_sqllite_server.Db.Registry.{
  Entries, lookup, lookup-All, get_elem?-push, get_elem?-update,
}
use tinkiva_sqllite_server.Db.State.{DatabaseManager, DatabaseLease, count, modify}
use tinkiva_sqllite_server.Db.State.Cases.{lease_cases}
use tinkiva_sqllite_server.Db.Evict.{slot, slot_locked, make_room, admit, max_attempts}
use tinkiva_sqllite_server.Db.Evict.Oldest.{IsBusy}
use tinkiva_sqllite_server.Db.Evict.Room.{slot_locked-capacity_busy, slot_locked-Slotted}
use tinkiva_sqllite_server.Db.Invariant.{Inv, tenant_permits, process_permits}
use tinkiva_sqllite_server.Db.System.Frame.{slot_locked_leases}
use tinkiva_sqllite_server.Db.Acquire.{
  Turn, wait_for_tenant_slot, wait_for_process_slot, ensure_open, open_leased, admit_process,
  admit_tenant, attempt, acquire,
}

-- A round in which no other task runs and the pools can be opened.
pub record Quiet (turn : Turn) : Type 0 where
  pub at_lock : (m : DatabaseManager) → turn.at_lock m ≡ m
  pub at_tenant : (m : DatabaseManager) → turn.at_tenant m ≡ m
  pub at_process : (m : DatabaseManager) → turn.at_process m ≡ m
  pub at_open : (m : DatabaseManager) → turn.at_open m ≡ m
  pub connects : (options : PoolOptions) → turn.connect options ≡ none

abbrev lease_of : ℕ → DatabaseLease
lease_of id = record { entry = id; slots = true }

module _ (settings : DatabaseSettings) (turn : Turn) (quiet : Quiet turn) (name : String) where
  open_given :
      (id : ℕ) (m : DatabaseManager) → (open_leased turn settings name id m).0 ≡ ok (lease_of id)
  unfolding open_leased ensure_open Entry.ensure_open open_pools
  open_given id m =
      rw (quiet.at_open m, open_leased)
        (elim (Option-cases (get_elem? m.heap id)) [
          | inl missing ↦ rw (missing, ensure_open) refl
          | inr (e, read) ↦ elim (Option-cases e.pools) [
            | inr (pools, there) ↦ rw (read, ensure_open, there) refl
            | inl shut ↦ rw (read, ensure_open, shut, quiet.connects _) refl
          ]
        ])

  process_given :
      (id : ℕ) (m : DatabaseManager)
      → m.slots ≢ 0
      → (admit_process turn settings name id m).0 ≡ ok (lease_of id)
  unfolding admit_process wait_for_process_slot count
  process_given id m left =
      rw (admit_process, quiet.at_process m)
        (elim (Bool-cases (m.slots == 0)) [
          | inl none_left ↦ absurd (ground arith)
          | inr some_left ↦ rw some_left (open_given id _)
        ])

  tenant_given :
      (id : ℕ) (e : DatabaseEntry) (m : DatabaseManager)
      → get_elem? m.heap id ≡ some e
      → e.slots ≢ 0
      → m.slots ≢ 0
      → (admit_tenant turn settings name id m).0 ≡ ok (lease_of id)
  unfolding admit_tenant wait_for_tenant_slot count modify
  tenant_given id e m read slots left =
      rw (quiet.at_tenant m, admit_tenant, wait_for_tenant_slot, read)
        (elim (Bool-cases (e.slots == 0)) [
          | inl none_left ↦ absurd (ground arith)
          | inr some_left ↦ rw some_left (
              process_given id
                (modify id (λ e. record e { slots = e.slots - 1 })
                  (count (Metrics.record_admission_wait turn.tenant_elapsed) (turn.at_tenant m)))
                (rw (quiet.at_tenant m) left))
        ])

-- A database that nobody uses, and that is not closing.
abbrev pub IsIdleAt : List DatabaseEntry → ℕ → Type 0
IsIdleAt heap id = (e : DatabaseEntry) × (get_elem? heap id ≡ some e) × (e.active_leases ≡ 0)

all_busy :
    (limit : ℕ) (heap : List DatabaseEntry) (es : Entries)
    → 0 < limit
    → All (λ entry. IsIdleAt heap entry.1) es
    → (limit ≤ length es) × All (λ entry. IsBusy heap entry.1) es
    → ⊥
all_busy limit heap [] capacity idle (full, busy) = omega (arith, capacity, full)
all_busy limit heap (entry ∷ es) capacity ((e, read, free), idle) (full, (busy, _)) =
    busy e read free

module _ (settings : DatabaseSettings) where
  -- A database that is looked up is not closing.
  slot_available :
      (now : ℕ) (name : String) (m : DatabaseManager)
      → 0 < settings.max_open_databases
      → Inv settings [] m
      → All (λ entry. IsIdleAt m.heap entry.1) m.entries
      → (id : ℕ) × ((slot_locked settings now name m).0 ≡ ok id)
        × IsIdleAt (slot_locked settings now name m).1.heap id
  unfolding slot_locked admit count Entry.new
  slot_available now name m capacity inv idle = elim (Option-cases (lookup name m.entries)) [
    | inr (id, found) ↦ (
      id,
      rw (found, slot_locked) refl,
      rw (found, slot_locked)
          (lookup-All (λ entry. IsIdleAt m.heap entry.1) name m.entries id idle found),
    )
    | inl free ↦
        let ((busy, _), _) = slot_locked-capacity_busy settings [] now name m inv free in
        let m' = (make_room settings max_attempts m).1 in
        elim (Bool-cases (make_room settings max_attempts m).0) [
          | inr full ↦ absurd (
              all_busy settings.max_open_databases m.heap m.entries capacity idle
                (busy (rw (free, slot_locked, full) refl)))
          | inl room ↦ (
            length m'.heap,
            rw (free, slot_locked, room) refl,
            rw (free, slot_locked, room)
                (
                  Entry.new name settings.max_concurrent_requests_per_database now,
                  ground (
                    arith,
                    get_elem?-push m'.heap
                        (Entry.new name settings.max_concurrent_requests_per_database now)
                        (length m'.heap),
                  ),
                  refl,
                ),
          )
        ]
  ]

  slot-Quiet :
      (turn : Turn)
      → Quiet turn
      → (now : ℕ) (name : String) (m : DatabaseManager)
      → slot turn.at_lock settings now name m ≡ slot_locked settings now name m
  unfolding slot slot_locked
  slot-Quiet turn quiet now name m = elim (Option-cases (lookup name m.entries)) [
    | inr (id, found) ↦ rw (found, slot, slot_locked) refl
    | inl free ↦ rw (free, slot, quiet.at_lock m) refl
  ]

  -- All permits are left where no task has a lease.
  permits_left :
      (m : DatabaseManager) (id : ℕ) (e : DatabaseEntry)
      → Inv settings [] m
      → m.leases ≡ []
      → get_elem? m.heap id ≡ some e
      → 0 < settings.max_concurrent_requests_per_database
      → 0 < settings.max_concurrent_requests
      → (e.slots ≢ 0) × (m.slots ≢ 0)
  permits_left m id e inv none_left read share total = (
    λ zero_left. ground (
      arith,
      (inv.accounts id e read).shared,
      ap (tenant_permits id) none_left,
      zero_left,
      share,
    ),
    λ zero_left. ground (arith, inv.process, ap process_permits none_left, zero_left, total),
  )

  -- Where the invariant holds, no request has a lease, and every database that is linked is idle, a
  -- request for an accepted name gets a lease if nobody else runs meanwhile, its pools can be opened
  -- and the three limits of the settings are not 0, and no more than a semaphore holds where they are
  -- the permits of one.
  pub acquire_given :
      (turns : ℕ → Turn) (name : String) (m : DatabaseManager)
      → Quiet (turns 15)
      → 0 < settings.max_open_databases
      → 0 < settings.max_concurrent_requests_per_database
      → 0 < settings.max_concurrent_requests
      → IsRunnable settings
      → validate_database_name name ≡ ok tt
      → Inv settings [] m
      → m.leases ≡ []
      → All (λ entry. IsIdleAt m.heap entry.1) m.entries
      → (l : DatabaseLease) × ((acquire turns settings name m).0 ≡ ok l)
  unfolding acquire attempt modify
  acquire_given turns name m quiet capacity share total _ valid inv no_leases idle =
      let turn = turns 15 in
      let (id, looked, (e, read, free)) = slot_available turn.created_ms name m capacity inv idle in
      let m' = (slot_locked settings turn.created_ms name m).1 in
      let inv' : Inv settings [] m' =
        (slot_locked-Slotted settings [] turn.created_ms name m inv).kept in
      let still : m'.leases ≡ [] =
        ap (λ (r : Result AppError ℕ × DatabaseManager). r.1.leases)
          (slot_locked_leases settings turn.created_ms name m m.leases)
        ∙ no_leases in
      let permits : (e.slots ≢ 0) × (m'.slots ≢ 0) =
        permits_left m' id e inv' still read share total in
      elim (lease_cases id m') [
        | inl (_, shut) ↦ absurd (ground (arith, shut e read, free))
        | inr (e', read', _, granted) ↦
            let m'' = modify id (λ _. record e' { active_leases = e'.active_leases + 1 }) m' in
            let same : e ≡ e' = ground arith in
            (
              lease_of id,
              rw
                  (
                    valid,
                    acquire,
                    attempt,
                    slot-Quiet turn quiet turn.created_ms name m,
                    looked,
                    slot-Quiet turn quiet turn.created_ms name m,
                    granted,
                  )
                  (tenant_given settings turn quiet name id
                    (record e' { active_leases = e'.active_leases + 1 }) m''
                    (ground (
                      arith,
                      get_elem?-update id id
                          (λ _. record e' { active_leases = e'.active_leases + 1 }) m'.heap,
                    ))
                    (subst (λ (e : DatabaseEntry). e.slots ≢ 0) same permits.0) permits.1),
            )
      ]

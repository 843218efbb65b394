-- ===== src/Db/Maintenance/Idle.antt =====
-- `checkpoint_wal` of src/db.rs against the idle timeout of `cleanup_idle`.
use tinkiva_sqllite_server.Prelude.{
  ℕ, String, ◌+◌, ◌<◌, ◌≡◌, ◌≢◌, ◌⊎◌, inl, inr, refl, ap, ◌∙◌, false, some, List, [], ◌∷◌, arith,
  get_elem?, All, Any, Bool-cases, Option-cases,
}
use tinkiva_sqllite_server.Config.{DatabaseSettings}
use tinkiva_sqllite_server.Db.Entry.{DatabaseEntry, closed}
use tinkiva_sqllite_server.Db.Entry
use tinkiva_sqllite_server.Db.Registry.{Entries, update_cases}
use tinkiva_sqllite_server.Db.State.{
  DatabaseManager, PoolEvent, checkpoint_passive, hold_of, returned, modify, count, lease, drop,
  drop_lease,
}
use tinkiva_sqllite_server.Db.State.Cases.{lease_cases}
use tinkiva_sqllite_server.Db.Acquire.{Others}
use tinkiva_sqllite_server.Db.Maintenance.{
  cutoff, is_stale, stale, close_stale, cleanup_idle, ids, Round, is_open, checkpoint_entry,
  checkpoint_entries, checkpoint_wal,
}

-- An entry that `cleanup_idle` passes over: it has a lease, is closing, or was used after `limit`.
abbrev pub IsFresh : ℕ → List DatabaseEntry → ℕ → Type 0
IsFresh limit heap id =
    (e : DatabaseEntry)
    → get_elem? heap id ≡ some e
    → (e.active_leases ≢ 0) ⊎ (limit < e.last_used_ms)

stale_none :
    (limit : ℕ) (heap : List DatabaseEntry) (es : Entries)
    → All (λ entry. IsFresh limit heap entry.1) es
    → stale limit heap es ≡ []
unfolding stale is_stale
stale_none limit heap [] fresh = refl
stale_none limit heap ((name, id) ∷ es) fresh = elim (Option-cases (get_elem? heap id)) [
  | inl missing ↦ ground (arith, stale_none limit heap es fresh.1)
  | inr (e, read) ↦ ground (arith, fresh.0 e read, stale_none limit heap es fresh.1)
]

-- A round that no other task interrupts, with the lease dropped after `limit`.
abbrev pub IsQuiet : ℕ → Round → Type 0
IsQuiet limit round = ((m : DatabaseManager) → round.others m ≡ m) × (limit < round.dropped_ms)

-- Dropping a lease refreshes its entry and keeps the others fresh.
drop-IsFresh :
    (limit now id other : ℕ) (m : DatabaseManager)
    → limit < now
    → (id ≡ other) ⊎ IsFresh limit m.heap other
    → IsFresh limit (drop_lease now (record { entry = id; slots = false }) m).heap other
unfolding drop_lease drop modify Entry.release Entry.touch
drop-IsFresh limit now id other m late before e read =
    elim (update_cases id other (returned now (hold_of (record { entry = id; slots = false })))
      m.heap e read) [
        | inl (old, hit, _, written) ↦ inr (rw⁻¹ written late)
        | inr (miss, read') ↦ elim before [
          | inl hit ↦ absurd (miss hit)
          | inr fresh ↦ fresh e read'
        ]
      ]

-- The count of a lease keeps an entry fresh.
lease-IsFresh :
    (limit id other : ℕ) (m : DatabaseManager)
    → IsFresh limit m.heap other
    → IsFresh limit (lease id m).1.heap other
unfolding modify
lease-IsFresh limit id other m fresh = elim (lease_cases id m) [
  | inl (same, _) ↦ rw same fresh
  | inr (e, read, available, granted) ↦ rw granted λ a read'.
      elim (update_cases id other (λ _. record e { active_leases = e.active_leases + 1 }) m.heap a
        read') [ inl (old, _, _, written) ↦ inl (ground arith) | inr (_, before) ↦ fresh a before ]
]

-- An uninterrupted round is refused the lease and changes nothing, or leases the entry, adds to the
-- log at most, and drops the lease.
quiet_cases :
    (limit : ℕ) (round : Round) (id : ℕ) (m : DatabaseManager)
    → IsQuiet limit round
    → (((e : DatabaseEntry) → get_elem? m.heap id ≡ some e → e.active_leases ≡ closed)
        × ((checkpoint_entry round id m).1 ≡ m))
      ⊎ ((log : List PoolEvent) × ((checkpoint_entry round id m).1
            ≡ drop_lease round.dropped_ms
                (record { entry = id; slots = false })
                (record (lease id m).1 { events = log })))
unfolding checkpoint_entry
quiet_cases limit round id m (quiet, _) = elim (lease_cases id m) [
  | inl (same, shut) ↦ inl (shut, rw (same, checkpoint_entry) refl)
  | inr (x, read, _, granted) ↦
      let leased = (lease id m).1 in
      elim (Bool-cases (is_open id leased)) [
        | inr shut ↦ inr (leased.events, rw (ap (λ r. r.0) granted, checkpoint_entry, shut) refl)
        | inl there ↦ inr (
          checkpoint_passive id ∷ leased.events,
          rw
              (
                ap (λ r. r.0) granted,
                checkpoint_entry,
                there,
                quiet (record leased { events = checkpoint_passive id ∷ leased.events }),
              )
              refl,
        )
      ]
]

-- After a round its entry is fresh, and so is every entry that was.
checkpoint_entry-IsFresh :
    (limit : ℕ) (round : Round) (id other : ℕ) (m : DatabaseManager)
    → IsQuiet limit round
    → (id ≡ other) ⊎ IsFresh limit m.heap other
    → IsFresh limit (checkpoint_entry round id m).1.heap other
checkpoint_entry-IsFresh limit round id other m quiet before =
    elim (quiet_cases limit round id m quiet) [
      | inl (shut, same) ↦ rw same λ e read. elim before [
        | inl hit ↦ inl (ground (arith, shut e (rw hit read)))
        | inr fresh ↦ fresh e read
      ]
      | inr (log, same) ↦ rw same (
          drop-IsFresh limit round.dropped_ms id other (record (lease id m).1 { events = log })
            quiet.1
            (elim before [
              | inl hit ↦ inl hit
              | inr fresh ↦ inr (lease-IsFresh limit id other m fresh)
            ]))
    ]

lease-entries : (id : ℕ) (m : DatabaseManager) → (lease id m).1.entries ≡ m.entries
unfolding modify
lease-entries id m = elim (lease_cases id m) [
  | inl (same, _) ↦ rw same refl
  | inr (e, read, available, granted) ↦ rw granted refl
]

checkpoint_entry-entries :
    (limit : ℕ) (round : Round) (id : ℕ) (m : DatabaseManager)
    → IsQuiet limit round
    → (checkpoint_entry round id m).1.entries ≡ m.entries
unfolding drop_lease drop modify
checkpoint_entry-entries limit round id m quiet = elim (quiet_cases limit round id m quiet) [
  | inl (_, same) ↦ ap (λ (m : DatabaseManager). m.entries) same
  | inr (log, same) ↦ rw same (lease-entries id m)
]

-- The loop keeps the registry, and every entry that it visits is fresh at its end.
checkpoint_entries-IsFresh :
    (limit : ℕ) (rounds : ℕ → Round) (visited : List ℕ) (checkpointed : ℕ) (m : DatabaseManager)
    → ((id : ℕ) → IsQuiet limit (rounds id))
    → ((checkpoint_entries rounds visited checkpointed m).1.entries ≡ m.entries)
      × ((other : ℕ)
          → Any (λ id. id ≡ other) visited ⊎ IsFresh limit m.heap other
          → IsFresh limit (checkpoint_entries rounds visited checkpointed m).1.heap other)
unfolding checkpoint_entries
checkpoint_entries-IsFresh limit rounds [] checkpointed m quiet =
    (refl, λ other before. elim before [ inl never ↦ absurd never | inr fresh ↦ fresh ])
checkpoint_entries-IsFresh limit rounds (id ∷ rest) checkpointed m quiet =
    let m' = (checkpoint_entry (rounds id) id m).1 in
    let (kept, fresh) = checkpoint_entries-IsFresh limit rounds rest _ m' quiet in
    let round = checkpoint_entry-IsFresh limit (rounds id) id in
    (
      kept ∙ checkpoint_entry-entries limit (rounds id) id m (quiet id),
      λ other before. elim before [
        | inl (inl now) ↦ fresh other (inr (round other m (quiet id) (inl now)))
        | inl (inr later) ↦ fresh other (inl later)
        | inr already ↦ fresh other (inr (round other m (quiet id) (inr already)))
      ],
    )

All-of-ids :
    (P : ℕ → Type 0) (es : Entries)
    → ((id : ℕ) → Any (λ i. i ≡ id) (ids es) → P id)
    → All (λ entry. P entry.1) es
All-of-ids P [] h = tt
All-of-ids P ((name, id) ∷ es) h =
    (h id (inl refl), All-of-ids P es (λ other later. h other (inr later)))

-- If each lease of a checkpoint is dropped after the cutoff of a run of `cleanup_idle` that follows
-- it, and no other task runs during the checkpoint, that run closes no database, however long ago
-- the last request was.
pub cleanup_idle-after_checkpoint :
    (others : String → Others) (settings : DatabaseSettings) (now : ℕ) (rounds : ℕ → Round)
    (m : DatabaseManager)
    → ((id : ℕ) → IsQuiet (cutoff settings now) (rounds id))
    → (cleanup_idle others settings now (checkpoint_wal rounds m).1).0 ≡ 0
unfolding cleanup_idle checkpoint_wal close_stale count
cleanup_idle-after_checkpoint others settings now rounds m quiet =
    let limit = cutoff settings now in
    let after = (checkpoint_entries rounds (ids m.entries) 0 m).1 in
    let (kept, fresh) = checkpoint_entries-IsFresh limit rounds (ids m.entries) 0 m quiet in
    let none_stale : stale limit after.heap after.entries ≡ [] =
      stale_none limit after.heap after.entries (
        rw kept (
          All-of-ids (IsFresh limit after.heap) m.entries
            (λ id visited. fresh id (inl visited)))) in
    rw none_stale refl

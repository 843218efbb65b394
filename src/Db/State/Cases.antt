-- ===== src/Db/State/Cases.antt =====
-- How the operations on one entry of src/db.rs can end.
use tinkiva_sqllite_server.Prelude.{
  ℕ, ◌+◌, ◌≡◌, ◌≢◌, ◌⊎◌, inl, inr, true, false, some, arith, ◌==◌, get_elem?, Bool-cases,
  Option-cases,
}
use tinkiva_sqllite_server.Db.Entry.{DatabaseEntry, closed}
use tinkiva_sqllite_server.Db.Entry
use tinkiva_sqllite_server.Db.State.{DatabaseManager, modify, lease, begin_close}

-- A lease is refused, and nothing changes, or it is counted on an entry that is not closed.
pub lease_cases :
    (id : ℕ) (m : DatabaseManager)
    → ((lease id m ≡ (false, m))
        × ((e : DatabaseEntry) → get_elem? m.heap id ≡ some e → e.active_leases ≡ closed))
      ⊎ ((e : DatabaseEntry) × (get_elem? m.heap id ≡ some e)
          × (e.active_leases ≢ closed)
          × (lease id m
              ≡ (true, modify id (λ _. record e { active_leases = e.active_leases + 1 }) m)))
unfolding lease Entry.lease
lease_cases id m = elim (Option-cases (get_elem? m.heap id)) [
  | inl missing ↦ inl (rw (missing, lease), λ e read. absurd (ground arith))
  | inr (e, read) ↦ elim (Bool-cases (e.active_leases == closed)) [
    | inl shut ↦ inl (rw (read, lease, shut), λ e' read'. ground arith)
    | inr available ↦ inr (e, read, ground arith, rw (read, lease, available))
  ]
]

-- A close is begun on an entry with no lease, or nothing changes.
pub begin_close_cases :
    (id : ℕ) (m : DatabaseManager)
    → ((begin_close id m ≡ (false, m))
        × ((e : DatabaseEntry) → get_elem? m.heap id ≡ some e → e.active_leases ≢ 0))
      ⊎ ((e : DatabaseEntry) × (get_elem? m.heap id ≡ some e)
          × (e.active_leases ≡ 0)
          × (begin_close id m ≡ (true, modify id (λ _. record e { active_leases = closed }) m)))
unfolding begin_close Entry.begin_close
begin_close_cases id m = elim (Option-cases (get_elem? m.heap id)) [
  | inl missing ↦ inl (rw (missing, begin_close), λ e read. absurd (ground arith))
  | inr (e, read) ↦ elim (Bool-cases (e.active_leases == 0)) [
    | inl idle ↦ inr (e, read, ground arith, rw (read, begin_close, idle))
    | inr busy ↦ inl (rw (read, begin_close, busy), λ e' read'. ground arith)
  ]
]

-- ===== src/Db/Evict/Take.antt =====
-- How `take` of src/db.rs can end.
use tinkiva_sqllite_server.Prelude.{
  ℕ, String, ◌≡◌, ◌≢◌, ◌⊎◌, inl, inr, none, some, arith, get_elem?, Option-cases,
}
use tinkiva_sqllite_server.Db.Entry.{DatabaseEntry, closed}
use tinkiva_sqllite_server.Db.Registry.{lookup, remove, update}
use tinkiva_sqllite_server.Db.State.{DatabaseManager, modify}
use tinkiva_sqllite_server.Db.State.Cases.{begin_close_cases}
use tinkiva_sqllite_server.Db.Evict.{take_entry}

-- The manager once the idle entry `e` at `id` has been taken.
abbrev pub taken : String → ℕ → DatabaseEntry → DatabaseManager → DatabaseManager
taken name id e m = record m {
  entries = remove name m.entries;
  heap = update id (λ _. record e { active_leases = closed }) m.heap;
}

-- An entry is taken if it is linked and has no lease; otherwise nothing changes.
pub take_entry_cases :
    (name : String) (m : DatabaseManager)
    → ((take_entry name m ≡ (none, m))
        × ((id : ℕ) (e : DatabaseEntry)
            → lookup name m.entries ≡ some id
            → get_elem? m.heap id ≡ some e
            → e.active_leases ≢ 0))
      ⊎ ((id : ℕ) × (e : DatabaseEntry) × (lookup name m.entries ≡ some id)
          × (get_elem? m.heap id ≡ some e)
          × (e.active_leases ≡ 0)
          × (take_entry name m ≡ (some id, taken name id e m)))
unfolding take_entry modify
take_entry_cases name m = elim (Option-cases (lookup name m.entries)) [
  | inl missing ↦ inl (rw (missing, take_entry), λ id e found read. absurd (ground arith))
  | inr (id, found) ↦ elim (begin_close_cases id m) [
    | inl (same, busy) ↦
        inl (rw (found, take_entry, same), λ id' e found' read. busy e (ground arith))
    | inr (e, read, idle, begun) ↦ inr (id, e, found, read, idle, rw (found, take_entry, begun))
  ]
]

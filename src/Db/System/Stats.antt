-- ===== src/Db/System/Stats.antt =====
-- `stats` of src/db.rs on the states that the tasks lead to.
use tinkiva_sqllite_server.Prelude.{
  ℕ, String, ◌+◌, ◌≤◌, ◌<◌, ◌≡◌, refl, sym, ap, ◌∙◌, Bool, false, ◌||◌, none, List, [], ◌∷◌, arith,
  eq_iff, str_eq, ◌==◌, length, All, inl, inr, Bool-cases, if◌then◌else◌,
}
use tinkiva_sqllite_server.Config.{DatabaseSettings}
use tinkiva_sqllite_server.Db.Entry.{closed}
use tinkiva_sqllite_server.Db.Registry.{Entries, Distinct, lookup}
use tinkiva_sqllite_server.Db.State.{DatabaseManager, Hold}
use tinkiva_sqllite_server.Db.Invariant.{held, process_permits, Inv, many}
use tinkiva_sqllite_server.Db.Maintenance.{ids, sum_leases, stats}
use tinkiva_sqllite_server.Db.Tenancy.{IsNamed}
use tinkiva_sqllite_server.Db.System.{Reach}
use tinkiva_sqllite_server.Db.System.Sound.{Reach-Inv}
use tinkiva_sqllite_server.Db.System.Apart.{Reach-Tenancy}

abbrev pub among : ℕ → List ℕ → Bool
among n [] = false
among n (id ∷ ids) = n == id || among n ids

-- The leases on these entries.
abbrev pub leases_on : List ℕ → List Hold → ℕ
leases_on ids [] = 0
leases_on ids (h ∷ hs) = (if among h.entry ids then 1 else 0) + leases_on ids hs

leases_on-none : (hs : List Hold) → leases_on [] hs ≡ 0
leases_on-none [] = refl
leases_on-none (h ∷ hs) = ground (arith, leases_on-none hs)

leases_on-few : (ids : List ℕ) (hs : List Hold) → leases_on ids hs ≤ length hs
leases_on-few ids [] = omega arith
leases_on-few ids (h ∷ hs) = ground (arith, leases_on-few ids hs)

leases_on-held :
    (id : ℕ) (others : List ℕ) (hs : List Hold)
    → among id others ≡ false
    → leases_on (id ∷ others) hs ≡ held id hs + leases_on others hs
leases_on-held id others [] fresh = refl
leases_on-held id others (h ∷ hs) fresh = elim (Bool-cases (h.entry == id)) [
  | inl same ↦
      let other : among h.entry others ≡ false = ap (λ n. among n others) (ground arith) ∙ fresh in
      rw (same, other) (ground (arith, leases_on-held id others hs fresh))
  | inr other ↦ rw other (ground (arith, leases_on-held id others hs fresh))
]

-- An entry is linked under one name.
among-fresh :
    (m : DatabaseManager) (name : String) (id : ℕ) (es : Entries)
    → IsNamed m.heap name id
    → All (λ entry. IsNamed m.heap entry.0 entry.1) es
    → lookup name es ≡ none
    → among id (ids es) ≡ false
unfolding lookup
among-fresh m name id [] here there free = refl
among-fresh m name id ((other, id') ∷ es) (e, read, same) ((e', read', same'), there) free =
    elim (Bool-cases (str_eq other name)) [
      | inl match ↦ absurd (ground (arith, free, match))
      | inr differ ↦ elim (Bool-cases (id == id')) [
        | inl one ↦ absurd (ground (arith, eq_iff other name))
        | inr another ↦
            rw another
              (among-fresh m name id es (e, read, same) there (ground (arith, free, differ)))
      ]
    ]

module _ (settings : DatabaseSettings) where
  sum_leases-leases_on :
      (m : DatabaseManager) (es : Entries)
      → Inv settings [] m
      → Distinct es
      → All (λ entry. IsNamed m.heap entry.0 entry.1) es
      → sum_leases m.heap (ids es) ≡ leases_on (ids es) m.leases
  unfolding sum_leases
  sum_leases-leases_on m [] inv distinct there = sym (leases_on-none m.leases)
  sum_leases-leases_on m ((name, id) ∷ es) inv (free, distinct) ((e, read, same), there) =
      let rest = sum_leases-leases_on m es inv distinct there in
      let split =
        leases_on-held id (ids es) m.leases (among-fresh m name id es (e, read, same) there free) in
      let few = leases_on-few (id ∷ ids es) m.leases in
      let fits : held id m.leases + leases_on (ids es) m.leases < many =
        omega (arith, split, few, inv.few) in
      let counted = (inv.accounts id e read).counted in
      rw split (elim (Bool-cases (e.active_leases == closed)) [
        | inl shut ↦
            rw (read, sum_leases, shut)
              (elim counted [
                | inl all ↦ absurd (ground (arith, fits))
                | inr (_, nothing) ↦ ground (arith, rest)
              ])
        | inr available ↦
            rw (read, sum_leases, available)
              (elim counted [
                | inl all ↦ ground (arith, rest, fits)
                | inr (closed_now, _) ↦ absurd (ground arith)
              ])
      ])

  -- On the states that the tasks lead to, `stats` counts the linked databases, which are no more
  -- than the capacity; the leases on them, without overflow; and as many permits of the process as
  -- the settings give, less those that leases have.
  pub Reach-stats :
      (m : DatabaseManager)
      → Reach settings m
      → ((stats settings m).open_databases ≡ length m.entries)
        × (length m.entries ≤ (stats settings m).max_open_databases)
        × ((stats settings m).max_open_databases ≡ settings.max_open_databases)
        × ((stats settings m).active_leases ≡ leases_on (ids m.entries) m.leases)
        × ((stats settings m).available_request_slots + process_permits m.leases
            ≡ (stats settings m).max_concurrent_requests)
        × ((stats settings m).max_concurrent_requests ≡ settings.max_concurrent_requests)
  unfolding stats
  Reach-stats m reached =
      let inv = Reach-Inv settings m reached in
      (
        refl,
        inv.capacity,
        refl,
        sum_leases-leases_on m m.entries inv inv.distinct (Reach-Tenancy settings m reached).linked,
        omega (arith, inv.process),
        refl,
      )

-- ===== src/Db/Acquire/Fair.antt =====
-- What other tasks may do while `acquire` of src/db.rs waits, and how its end keeps the accounts.
use tinkiva_sqllite_server.Prelude.{
  ℕ, String, ◌<◌, ◌≡◌, ◌≢◌, inl, inr, refl, true, none, some, List, ◌∷◌, ok, err, arith, ◌==◌,
  length, get_elem?, Bool-cases, Option-cases, Result-cases, ok-injective, length-le_of_none,
}
use mathlib.Core.Path.{subst}
use tinkiva_sqllite_server.Error.{AppError}
use tinkiva_sqllite_server.Config.{DatabaseSettings}
use tinkiva_sqllite_server.Db.Names.{database_path}
use tinkiva_sqllite_server.Db.Pools.{open_pools}
use tinkiva_sqllite_server.Db.Entry.{DatabaseEntry, closed}
use tinkiva_sqllite_server.Db.Entry
use tinkiva_sqllite_server.Db.Registry.{lookup, get_elem?-update}
use tinkiva_sqllite_server.Db.State.{DatabaseManager, DatabaseLease, Hold, hold_of, modify, touch}
use tinkiva_sqllite_server.Db.Acquire.{Others, Turn, remove_if, ensure_open, Outcome}
use tinkiva_sqllite_server.Db.Invariant.{Inv}
use tinkiva_sqllite_server.Db.Invariant.Counts.{modify-Inv}
use tinkiva_sqllite_server.Db.Invariant.Steps.{remove-Inv, admitted}

-- Other tasks that keep the invariant whatever leases a task has.
abbrev pub IsFair : DatabaseSettings → Others → Type 0
IsFair settings others =
    (own : List Hold) (m : DatabaseManager) → Inv settings own m → Inv settings own (others m)

pub record Fair (settings : DatabaseSettings) (turn : Turn) : Type 0 where
  pub at_lock : IsFair settings turn.at_lock
  pub at_yield : IsFair settings turn.at_yield
  pub at_tenant : IsFair settings turn.at_tenant
  pub at_process : IsFair settings turn.at_process
  pub at_open : IsFair settings turn.at_open

abbrev pub IsOpen : ℕ → DatabaseManager → Type 0
IsOpen id m = (e : DatabaseEntry) × (get_elem? m.heap id ≡ some e) × (e.pools ≢ none)

-- A lease that was given has both permits, is counted, and has open pools; with an error the task
-- has the leases that it had before.
pub record Balanced (settings : DatabaseSettings) (own : List Hold) (r : Outcome) : Type 0 where
  pub given :
      (l : DatabaseLease)
      → r.0 ≡ ok l
      → (l.slots ≡ true) × Inv settings (hold_of l ∷ own) r.1 × IsOpen l.entry r.1
  pub refused : (error : AppError) → r.0 ≡ err error → Inv settings own r.1

-- Opening an entry changes its pools only, and where it succeeds there are pools.
entry_opened :
    (turn : Turn) (settings : DatabaseSettings) (path : List ℕ) (e : DatabaseEntry)
    → ((Entry.ensure_open turn.connect settings path e).0.active_leases ≡ e.active_leases)
      × ((Entry.ensure_open turn.connect settings path e).0.slots ≡ e.slots)
      × ((Entry.ensure_open turn.connect settings path e).1 ≡ ok tt
          → (Entry.ensure_open turn.connect settings path e).0.pools ≢ none)
unfolding Entry.ensure_open
entry_opened turn settings path e = elim (Option-cases e.pools) [
  | inr (pools, there) ↦ rw (there, Entry.ensure_open) (refl, refl, λ h. ground arith)
  | inl shut ↦ elim (Result-cases (open_pools turn.connect settings path)) [
    | inl (pools, opened) ↦ rw (shut, Entry.ensure_open, opened) (refl, refl, λ h. ground arith)
    | inr (error, failed) ↦
        rw (shut, Entry.ensure_open, failed) (refl, refl, λ h. absurd (ground arith))
  ]
]

module _ (settings : DatabaseSettings) (own : List Hold) where
  pub refused-Balanced :
      (error : AppError) (m : DatabaseManager)
      → Inv settings own m
      → Balanced settings own (err error, m)
  refused-Balanced error m inv = record {
    given = λ l h. absurd (ground arith);
    refused = λ e h. inv;
  }

  pub given-Balanced :
      (id : ℕ) (m : DatabaseManager)
      → Inv settings (admitted id ∷ own) m
      → IsOpen id m
      → Balanced settings own (ok (record { entry = id; slots = true }), m)
  given-Balanced id m inv there = record {
    given = λ l h.
        subst
          (λ (l : DatabaseLease).
            (l.slots ≡ true) × Inv settings (hold_of l ∷ own) m × IsOpen l.entry m)
          (ok-injective (record { entry = id; slots = true }) l h) (refl, inv, there);
    refused = λ error h. absurd (ground arith);
  }

  pub remove_if-Inv :
      (name : String) (id : ℕ) (m : DatabaseManager)
      → Inv settings own m
      → Inv settings own (remove_if name id m)
  unfolding remove_if
  remove_if-Inv name id m inv = elim (Option-cases (lookup name m.entries)) [
    | inl missing ↦ rw (missing, remove_if) inv
    | inr (found, e) ↦ elim (Bool-cases (found == id)) [
      | inl same ↦ rw (e, remove_if, same) (remove-Inv settings own name m inv)
      | inr other ↦ rw (e, remove_if, other) inv
    ]
  ]

  pub ensure_open-Inv :
      (turn : Turn) (name : String) (id : ℕ) (m : DatabaseManager)
      → Inv settings own m
      → Inv settings own (ensure_open turn settings name id m).1
  unfolding ensure_open
  ensure_open-Inv turn name id m inv = elim (Option-cases (get_elem? m.heap id)) [
    | inl missing ↦ rw (missing, ensure_open) inv
    | inr (e, read) ↦
        let (leases, slots, _) = entry_opened turn settings (database_path settings name) e in
        rw (read, ensure_open)
          (modify-Inv settings own own id _ m inv inv.own_allocated inv.own_few refl
            (λ other miss. (refl, refl)) λ old same a. ground arith)
  ]

  pub ensure_open-IsOpen :
      (turn : Turn) (name : String) (id : ℕ) (m : DatabaseManager)
      → id < length m.heap
      → (ensure_open turn settings name id m).0 ≡ ok tt
      → IsOpen id (ensure_open turn settings name id m).1
  unfolding ensure_open modify
  ensure_open-IsOpen turn name id m allocated = elim (Option-cases (get_elem? m.heap id)) [
    | inl missing ↦ absurd (ground (arith, length-le_of_none m.heap id missing))
    | inr (e, read) ↦
        let (_, _, opened) = entry_opened turn settings (database_path settings name) e in
        rw (read, ensure_open)
          λ h. (
            (Entry.ensure_open turn.connect settings (database_path settings name) e).0,
            ground (
              arith,
              get_elem?-update id id
                  (λ _. (Entry.ensure_open turn.connect settings (database_path settings name) e).0)
                  m.heap,
            ),
            opened h,
          )
  ]

pub touched-IsOpen : (id now : ℕ) (m : DatabaseManager) → IsOpen id m → IsOpen id (touch id now m)
unfolding touch modify Entry.touch
touched-IsOpen id now m (e, read, there) =
    (Entry.touch now e, ground (arith, get_elem?-update id id (Entry.touch now) m.heap), there)

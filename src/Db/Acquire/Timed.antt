-- ===== src/Db/Acquire/Timed.antt =====
-- `acquire` of src/db.rs under a timeout: the future of the request is dropped at an `await`, with
-- what it has in hand. `budget` is how many more awaits end in time.
use tinkiva_sqllite_server.Prelude.{
  ℕ, zero, suc, String, true, false, Option, none, some, Result, ok, err, if◌then◌else◌,
}
use tinkiva_sqllite_server.Error.{AppError, capacity_busy, overloaded}
use tinkiva_sqllite_server.Config.{DatabaseSettings}
use tinkiva_sqllite_server.Metrics
use tinkiva_sqllite_server.Db.Names.{validate_database_name}
use tinkiva_sqllite_server.Db.Registry.{lookup}
use tinkiva_sqllite_server.Db.State.{DatabaseManager, DatabaseLease, lease, count, drop, drop_lease}
use tinkiva_sqllite_server.Db.Evict.{max_attempts, slot_locked}
use tinkiva_sqllite_server.Db.Acquire.{
  Others, Turn, wait_for_tenant_slot, wait_for_process_slot, open_leased,
}

-- `none` if the future was dropped; otherwise its result, and what is left of the budget.
abbrev pub Timed : Type 0 → Type 0
Timed A = Option (A × ℕ) × DatabaseManager

-- While the pools are opened the lease has both permits.
unfoldable pub timed_open :
    Turn
    → DatabaseSettings
    → String
    → ℕ
    → ℕ
    → DatabaseManager
    → Timed (Result AppError DatabaseLease)
timed_open turn settings name id zero m =
    (none, drop_lease turn.dropped_ms (record { entry = id; slots = true }) (turn.at_open m))
timed_open turn settings name id (suc budget) m =
    let (result, m') = open_leased turn settings name id m in (some (result, budget), m')

-- At the second wait it has the first permit, a local variable.
unfoldable pub timed_process :
    Turn
    → DatabaseSettings
    → String
    → ℕ
    → ℕ
    → DatabaseManager
    → Timed (Result AppError DatabaseLease)
timed_process turn settings name id zero m = (
  none,
  drop turn.dropped_ms (record { entry = id; tenant = true; process = false }) (turn.at_process m),
)
timed_process turn settings name id (suc budget) m =
    let (admitted, m') = wait_for_process_slot turn.at_process turn.process_elapsed m in
    if admitted then timed_open turn settings name id budget m' else (
      some (err overloaded, budget),
      drop turn.dropped_ms (record { entry = id; tenant = true; process = false })
          (count Metrics.record_shed m'),
    )

unfoldable pub timed_tenant :
    Turn
    → DatabaseSettings
    → String
    → ℕ
    → ℕ
    → DatabaseManager
    → Timed (Result AppError DatabaseLease)
timed_tenant turn settings name id zero m =
    (none, drop_lease turn.dropped_ms (record { entry = id; slots = false }) (turn.at_tenant m))
timed_tenant turn settings name id (suc budget) m =
    let (admitted, m') = wait_for_tenant_slot turn.at_tenant turn.tenant_elapsed id m in
    if admitted then timed_process turn settings name id budget m' else (
      some (err overloaded, budget),
      drop_lease turn.dropped_ms (record { entry = id; slots = false })
          (count Metrics.record_shed m'),
    )

-- `slot` waits for the lock only if the database is not resident.
unfoldable pub timed_lock :
    Turn → DatabaseSettings → String → ℕ → DatabaseManager → Timed (Result AppError ℕ)
timed_lock turn settings name zero m = (none, turn.at_lock m)
timed_lock turn settings name (suc budget) m =
    let (found, m') = slot_locked settings turn.created_ms name (turn.at_lock m) in
    (some (found, budget), m')

unfoldable pub timed_slot :
    Turn → DatabaseSettings → String → ℕ → DatabaseManager → Timed (Result AppError ℕ)
timed_slot turn settings name budget m = elim (lookup name m.entries) [
  | some id ↦ (some (ok id, budget), m)
  | none ↦ timed_lock turn settings name budget m
]

-- `yield_now`, and what comes after it.
unfoldable pub timed_yield :
    {A : Type 0} → (ℕ → DatabaseManager → Timed A) → Others → ℕ → DatabaseManager → Timed A
timed_yield next at_yield zero m = (none, at_yield m)
timed_yield next at_yield (suc budget) m = next budget (at_yield m)

-- The loop of `acquire` with the rounds that are left.
unfoldable pub timed_attempt :
    (ℕ → Turn)
    → DatabaseSettings
    → String
    → ℕ
    → ℕ
    → DatabaseManager
    → Timed (Result AppError DatabaseLease)
timed_attempt turns settings name zero budget m = (some (err capacity_busy, budget), m)
timed_attempt turns settings name (suc n) budget m =
    let turn = turns n in
    let (progress, m') = timed_slot turn settings name budget m in
    elim progress [
      | none ↦ (none, m')
      | some (found, left) ↦ elim found [
        | err error ↦ (some (err error, left), m')
        | ok id ↦
            let (granted, m'') = lease id m' in
            elim granted [
              | true ↦ timed_tenant turn settings name id left m''
              | false ↦ timed_yield (timed_attempt turns settings name n) turn.at_yield left m''
            ]
      ]
    ]

unfoldable pub timed_acquire :
    (ℕ → Turn)
    → DatabaseSettings
    → String
    → ℕ
    → DatabaseManager
    → Timed (Result AppError DatabaseLease)
timed_acquire turns settings name budget m = elim (validate_database_name name) [
  | err error ↦ (some (err error, budget), m)
  | ok _ ↦ timed_attempt turns settings name max_attempts budget m
]

-- ===== src/Db/Acquire.antt =====
-- src/db.rs: `acquire`. A task is interrupted only where the source awaits; what the other tasks
-- do there is a function on the state, and a clock reading is a number.
pub mod Fair
pub mod Balance
pub mod Timed
use tinkiva_sqllite_server.Prelude.{
  ℕ, zero, suc, String, ◌+◌, ◌-◌, Bool, true, false, Option, none, some, List, [], ◌∷◌, Result, ok,
  err, ◌==◌, str_eq, if◌then◌else◌, get_elem?,
}
use tinkiva_sqllite_server.Error.{SqlxError, AppError, capacity_busy, overloaded, database}
use tinkiva_sqllite_server.Config.{DatabaseSettings}
use tinkiva_sqllite_server.Metrics
use tinkiva_sqllite_server.Db.Names.{validate_database_name, database_path}
use tinkiva_sqllite_server.Db.Pools.{PoolOptions}
use tinkiva_sqllite_server.Db.Entry
use tinkiva_sqllite_server.Db.Registry.{lookup, remove}
use tinkiva_sqllite_server.Db.State.{
  DatabaseManager, DatabaseLease, Hold, modify, count, lease, touch, drop, drop_lease,
}
use tinkiva_sqllite_server.Db.Evict.{max_attempts, slot}

-- What the other tasks do while one waits.
abbrev pub Others : Type 0
Others = DatabaseManager → DatabaseManager

-- What a round of the loop of `acquire` meets: the other tasks at each `await`, how long the
-- waits for a permit take (in nanoseconds), how opening the writer ends, and the clock.
pub record Turn : Type 0 where
  pub at_lock : Others
  pub at_yield : Others
  pub at_tenant : Others
  pub at_process : Others
  pub at_open : Others
  pub tenant_elapsed : ℕ
  pub process_elapsed : ℕ
  pub connect : PoolOptions → Option SqlxError
  pub created_ms : ℕ
  pub touched_ms : ℕ
  pub dropped_ms : ℕ

-- A permit of the semaphore of an entry. The wait ends with one if one is left when the other
-- tasks have had their turn, and by the timeout if none is; the semaphores are never closed.
unfoldable pub wait_for_tenant_slot : Others → ℕ → ℕ → DatabaseManager → Bool × DatabaseManager
wait_for_tenant_slot others elapsed id before =
    let m = count (Metrics.record_admission_wait elapsed) (others before) in
    elim (get_elem? m.heap id) [
      | none ↦ (false, m)
      | some e ↦
          if e.slots == 0
          then (false, m)
          else (true, modify id (λ e. record e { slots = e.slots - 1 }) m)
    ]

-- The same for the semaphore of the process.
unfoldable pub wait_for_process_slot : Others → ℕ → DatabaseManager → Bool × DatabaseManager
wait_for_process_slot others elapsed before =
    let m = count (Metrics.record_admission_wait elapsed) (others before) in
    if m.slots == 0 then (false, m) else (true, record m { slots = m.slots - 1 })

-- `entries.remove_if(name, |_, entry| Arc::ptr_eq(entry, &lease.entry))`
unfoldable pub remove_if : String → ℕ → DatabaseManager → DatabaseManager
remove_if name id m = elim (lookup name m.entries) [
  | none ↦ m
  | some found ↦ if found == id then record m { entries = remove name m.entries } else m
]

unfoldable pub ensure_open :
    Turn
    → DatabaseSettings
    → String
    → ℕ
    → DatabaseManager
    → Result SqlxError (Unit {0}) × DatabaseManager
ensure_open turn settings name id m = elim (get_elem? m.heap id) [
  | none ↦ (ok tt, m)
  | some e ↦
      let (e', result) = Entry.ensure_open turn.connect settings (database_path settings name) e in
      (result, modify id (λ _. e') m)
]

abbrev pub Outcome : Type 0
Outcome = Result AppError DatabaseLease × DatabaseManager

-- From `ensure_open` to the end of the round. An error unlinks the entry, if it is still linked,
-- and drops the lease with both permits.
unfoldable pub open_leased : Turn → DatabaseSettings → String → ℕ → DatabaseManager → Outcome
open_leased turn settings name id m =
    let (result, m') = ensure_open turn settings name id (turn.at_open m) in
    let lease : DatabaseLease = record { entry = id; slots = true } in
    elim result [
      | ok _ ↦ (ok lease, touch id turn.touched_ms m')
      | err error ↦ (err (database error), drop_lease turn.dropped_ms lease (remove_if name id m'))
    ]

-- The second wait, with the first permit in hand.
unfoldable pub admit_process : Turn → DatabaseSettings → String → ℕ → DatabaseManager → Outcome
admit_process turn settings name id m =
    let (admitted, m') = wait_for_process_slot turn.at_process turn.process_elapsed m in
    if admitted then open_leased turn settings name id m' else (
      err overloaded,
      drop turn.dropped_ms (record { entry = id; tenant = true; process = false })
          (count Metrics.record_shed m'),
    )

-- From the first wait on, with the lease counted.
unfoldable pub admit_tenant : Turn → DatabaseSettings → String → ℕ → DatabaseManager → Outcome
admit_tenant turn settings name id m =
    let (admitted, m') = wait_for_tenant_slot turn.at_tenant turn.tenant_elapsed id m in
    if admitted then admit_process turn settings name id m' else (
      err overloaded,
      drop_lease turn.dropped_ms (record { entry = id; slots = false })
          (count Metrics.record_shed m'),
    )

-- The loop of `acquire` with the rounds that are left; `turns n` is the round before the last `n`.
unfoldable pub attempt : (ℕ → Turn) → DatabaseSettings → String → ℕ → DatabaseManager → Outcome
attempt turns settings name zero m = (err capacity_busy, m)
attempt turns settings name (suc n) m =
    let turn = turns n in
    let (found, m') = slot turn.at_lock settings turn.created_ms name m in
    elim found [
      | err error ↦ (err error, m')
      | ok id ↦
          let (granted, m'') = lease id m' in
          let again = attempt turns settings name n (turn.at_yield m'') in
          if granted then admit_tenant turn settings name id m'' else again
    ]

unfoldable pub acquire : (ℕ → Turn) → DatabaseSettings → String → DatabaseManager → Outcome
acquire turns settings name m = elim (validate_database_name name) [
  | err error ↦ (err error, m)
  | ok _ ↦ attempt turns settings name max_attempts m
]

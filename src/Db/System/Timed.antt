-- ===== src/Db/System/Timed.antt =====
-- `acquire` of src/db.rs under a timeout, among the other tasks.
use tinkiva_sqllite_server.Prelude.{
  ℕ, zero, suc, String, ◌+◌, ◌<◌, ◌≡◌, ◌⊎◌, refl, none, some, Result, length, inl, inr,
  Option-cases, Result-cases,
}
use tinkiva_sqllite_server.Error.{AppError}
use tinkiva_sqllite_server.Config.{DatabaseSettings}
use tinkiva_sqllite_server.Db.Names.{validate_database_name}
use tinkiva_sqllite_server.Db.Registry.{lookup}
use tinkiva_sqllite_server.Db.State.{DatabaseManager, DatabaseLease, Hold, modify, drop, drop_lease}
use tinkiva_sqllite_server.Db.State.Cases.{lease_cases}
use tinkiva_sqllite_server.Db.Evict.{slot, slot_locked, max_attempts}
use tinkiva_sqllite_server.Db.Acquire.{
  Others, Turn, wait_for_tenant_slot, wait_for_process_slot, open_leased, admit_process,
  admit_tenant, attempt, acquire,
}
use tinkiva_sqllite_server.Db.Acquire.Timed.{
  Timed, timed_open, timed_process, timed_tenant, timed_lock, timed_slot, timed_yield,
  timed_attempt, timed_acquire,
}
use tinkiva_sqllite_server.Db.Invariant.{many}
use tinkiva_sqllite_server.Db.Invariant.Steps.{bare, queued, admitted}
use tinkiva_sqllite_server.Db.Tenancy.{Tenancy}
use tinkiva_sqllite_server.Db.System.{
  Steps, done, before, Steps-trans, others_room, IsScheduled, Scheduled, Led,
}
use tinkiva_sqllite_server.Db.System.Frame.{adding, drop_leases}
use tinkiva_sqllite_server.Db.System.Beside.{Steps-adding, Steps-few, Still-few}
use tinkiva_sqllite_server.Db.System.Apart.{Steps-Tenant}
use tinkiva_sqllite_server.Db.System.Own.{Ready, drop_step}
use tinkiva_sqllite_server.Db.System.Acquire.{process_wait, tenant_wait}
use tinkiva_sqllite_server.Db.System.Acquire.Rounds.{others-Steps, granted-Ready, slot-Looked}
pub mod Rounds

-- What is dropped by the timeout has led to a state without its lease; what is not is the `whole`.
abbrev pub Progress :
    {A : Type 0} → DatabaseSettings → DatabaseManager → A × DatabaseManager → Timed A → Type 0
Progress settings start whole r =
    ((r.0 ≡ none) × Led settings start r.1) ⊎ ((left : ℕ) × (r ≡ (some (whole.0, left), whole.1)))

module _ {settings : DatabaseSettings} where
  pub chain-Progress :
      {A : Type 0} {start m : DatabaseManager} (whole : A × DatabaseManager) (r : Timed A)
      → Steps settings many start m
      → Progress settings m whole r
      → Progress settings start whole r
  chain-Progress whole r steps (inl (cut, led)) =
      inl (cut, record { steps = Steps-trans steps led.steps; few = led.few })
  chain-Progress whole r steps (inr ends) = inr ends

  -- A lease that is dropped after the others' turn.
  pub cut-Led :
      (others : Others) (now : ℕ) (h : Hold) (m : DatabaseManager)
      → IsScheduled settings others
      → length m.leases < others_room
      → Led settings (adding h m) (drop now h (others m))
  cut-Led others now h m scheduled few = record {
    steps = Steps-trans (Steps-adding h (scheduled m)) (before (drop_step now h (others m)) done);
    few =
        Still-few others_room (drop now h) (others m) (drop_leases now h)
          (Steps-few (scheduled m) few);
  }

  -- The others' turn, of a task without a lease.
  pub others-Led :
      (others : Others) (m : DatabaseManager)
      → IsScheduled settings others
      → length m.leases < others_room
      → Led settings m (others m)
  others-Led others m scheduled few = record {
    steps = others-Steps others m scheduled;
    few = Steps-few (scheduled m) few;
  }

  timed_open-Progress :
      (turn : Turn) (name : String) (id budget : ℕ) (m : DatabaseManager)
      → Scheduled settings turn
      → length m.leases < others_room
      → Progress settings
          (adding (admitted id) m)
          (open_leased turn settings name id m)
          (timed_open turn settings name id budget m)
  unfolding timed_open drop_lease
  timed_open-Progress turn name id zero m scheduled few =
      inl (refl, cut-Led turn.at_open turn.dropped_ms (admitted id) m scheduled.at_open few)
  timed_open-Progress turn name id (suc budget) m scheduled few = inr (budget, refl)

  timed_process-Progress :
      (turn : Turn) (name : String) (id budget : ℕ) (m : DatabaseManager)
      → Scheduled settings turn
      → Ready settings name id m
      → Progress settings
          (adding (queued id) m)
          (admit_process turn settings name id m)
          (timed_process turn settings name id budget m)
  unfolding timed_process admit_process
  timed_process-Progress turn name id zero m scheduled ready =
      inl
        (refl, cut-Led turn.at_process turn.dropped_ms (queued id) m scheduled.at_process ready.few)
  timed_process-Progress turn name id (suc budget) m scheduled ready =
      let m' = (wait_for_process_slot turn.at_process turn.process_elapsed m).1 in
      elim (process_wait turn name id m scheduled.at_process ready) [
        | inl (granted, steps, ready') ↦
            rw (granted, timed_process, admit_process)
              (chain-Progress (open_leased turn settings name id m')
                (timed_open turn settings name id budget m') steps
                (timed_open-Progress turn name id budget m' scheduled ready'.few))
        | inr (refused, steps, few) ↦
            rw (refused, timed_process, admit_process) (inr (budget, refl))
      ]

  pub timed_tenant-Progress :
      (turn : Turn) (name : String) (id budget : ℕ) (m : DatabaseManager)
      → Scheduled settings turn
      → Ready settings name id m
      → Progress settings
          (adding (bare id) m)
          (admit_tenant turn settings name id m)
          (timed_tenant turn settings name id budget m)
  unfolding timed_tenant admit_tenant drop_lease
  timed_tenant-Progress turn name id zero m scheduled ready =
      inl (refl, cut-Led turn.at_tenant turn.dropped_ms (bare id) m scheduled.at_tenant ready.few)
  timed_tenant-Progress turn name id (suc budget) m scheduled ready =
      let m' = (wait_for_tenant_slot turn.at_tenant turn.tenant_elapsed id m).1 in
      elim (tenant_wait turn name id m scheduled.at_tenant ready) [
        | inl (granted, steps, ready') ↦
            rw (granted, timed_tenant, admit_tenant)
              (chain-Progress (admit_process turn settings name id m')
                (timed_process turn settings name id budget m') steps
                (timed_process-Progress turn name id budget m' scheduled ready'))
        | inr (refused, steps, few) ↦ rw (refused, timed_tenant, admit_tenant) (inr (budget, refl))
      ]

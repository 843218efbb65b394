-- ===== src/Db/Acquire/Balance.antt =====
-- `acquire` of src/db.rs against the counts of leases and permits.
use tinkiva_sqllite_server.Prelude.{
  ℕ, zero, suc, String, ◌+◌, ◌<◌, inl, inr, List, ◌∷◌, arith, ◌==◌, length, get_elem?, Bool-cases,
  Option-cases, Result-cases,
}
use tinkiva_sqllite_server.Error.{capacity_busy, overloaded, database}
use tinkiva_sqllite_server.Config.{DatabaseSettings}
use tinkiva_sqllite_server.Metrics
use tinkiva_sqllite_server.Db.Names.{validate_database_name}
use tinkiva_sqllite_server.Db.Registry.{lookup}
use tinkiva_sqllite_server.Db.State.{DatabaseManager, Hold, count, drop, drop_lease}
use tinkiva_sqllite_server.Db.Evict.{max_attempts, slot}
use tinkiva_sqllite_server.Db.Evict.Room.{Slotted, slot_locked-Slotted}
use tinkiva_sqllite_server.Db.Acquire.{
  Turn, wait_for_tenant_slot, wait_for_process_slot, ensure_open, open_leased, admit_process,
  admit_tenant, attempt, acquire,
}
use tinkiva_sqllite_server.Db.Invariant.{Inv, many}
use tinkiva_sqllite_server.Db.Invariant.Counts.{touch-Inv, lease-Inv, drop-Inv}
use tinkiva_sqllite_server.Db.Invariant.Steps.{
  count-Inv, tenant_taken, process_taken, bare, queued, admitted,
}
use tinkiva_sqllite_server.Db.Acquire.Fair.{
  Fair, Balanced, refused-Balanced, given-Balanced, remove_if-Inv, ensure_open-Inv,
  ensure_open-IsOpen, touched-IsOpen,
}

-- The rounds of `acquire`, for a task that has the leases `own` already.
module _ (settings : DatabaseSettings) (own : List Hold) where
  open_leased-Balanced :
      (turn : Turn) (name : String) (id : ℕ) (m : DatabaseManager)
      → Fair settings turn
      → Inv settings (admitted id ∷ own) m
      → Balanced settings own (open_leased turn settings name id m)
  unfolding open_leased drop_lease
  open_leased-Balanced turn name id m fair inv =
      let before = fair.at_open (admitted id ∷ own) m inv in
      let after =
        ensure_open-Inv settings (admitted id ∷ own) turn name id (turn.at_open m) before in
      let there =
        ensure_open-IsOpen settings own turn name id (turn.at_open m) before.own_allocated.0 in
      elim (Result-cases (ensure_open turn settings name id (turn.at_open m)).0) [
        | inl (_, opened) ↦
            rw (opened, open_leased)
              (given-Balanced settings own id _
                (touch-Inv settings (admitted id ∷ own) id turn.touched_ms _ after)
                (touched-IsOpen id turn.touched_ms _ (there opened)))
        | inr (error, failed) ↦
            rw (failed, open_leased)
              (refused-Balanced settings own (database error) _ (
                drop-Inv settings own turn.dropped_ms (admitted id) _
                  (remove_if-Inv settings (admitted id ∷ own) name id _ after)))
      ]

  admit_process-Balanced :
      (turn : Turn) (name : String) (id : ℕ) (m : DatabaseManager)
      → Fair settings turn
      → Inv settings (queued id ∷ own) m
      → Balanced settings own (admit_process turn settings name id m)
  unfolding admit_process wait_for_process_slot
  admit_process-Balanced turn name id m fair inv =
      let counted = Metrics.record_admission_wait turn.process_elapsed in
      let waited =
        count-Inv settings (queued id ∷ own) counted _ (fair.at_process (queued id ∷ own) m inv) in
      let m' = count counted (turn.at_process m) in
      elim (Bool-cases (m'.slots == 0)) [
        | inl none_left ↦
            rw (none_left, admit_process)
              (refused-Balanced settings own overloaded _ (
                drop-Inv settings own turn.dropped_ms (queued id) _
                  (count-Inv settings (queued id ∷ own) Metrics.record_shed m' waited)))
        | inr left ↦
            rw (left, admit_process)
              (open_leased-Balanced turn name id _ fair
                (process_taken settings own id m' (ground arith) waited))
      ]

  admit_tenant-Balanced :
      (turn : Turn) (name : String) (id : ℕ) (m : DatabaseManager)
      → Fair settings turn
      → Inv settings (bare id ∷ own) m
      → Balanced settings own (admit_tenant turn settings name id m)
  unfolding admit_tenant wait_for_tenant_slot drop_lease
  admit_tenant-Balanced turn name id m fair inv =
      let counted = Metrics.record_admission_wait turn.tenant_elapsed in
      let waited =
        count-Inv settings (bare id ∷ own) counted _ (fair.at_tenant (bare id ∷ own) m inv) in
      let m' = count counted (turn.at_tenant m) in
      let shed : Inv settings own (drop turn.dropped_ms (bare id) (count Metrics.record_shed m')) =
        drop-Inv settings own turn.dropped_ms (bare id) _
          (count-Inv settings (bare id ∷ own) Metrics.record_shed m' waited) in
      elim (Option-cases (get_elem? m'.heap id)) [
        | inl missing ↦
            rw (missing, admit_tenant, wait_for_tenant_slot)
              (refused-Balanced settings own overloaded _ shed)
        | inr (e, read) ↦ elim (Bool-cases (e.slots == 0)) [
          | inl none_left ↦
              rw (read, admit_tenant, wait_for_tenant_slot, none_left)
                (refused-Balanced settings own overloaded _ shed)
          | inr left ↦
              rw (read, admit_tenant, wait_for_tenant_slot, left)
                (admit_process-Balanced turn name id _ fair
                  (tenant_taken settings own id e m' read (ground arith) waited))
        ]
      ]

  -- `slot`, whether or not it has to wait for the lock.
  slot-Slotted :
      (turn : Turn) (name : String) (m : DatabaseManager)
      → Fair settings turn
      → Inv settings own m
      → Slotted settings own name (slot turn.at_lock settings turn.created_ms name m)
  unfolding slot
  slot-Slotted turn name m fair inv = elim (Option-cases (lookup name m.entries)) [
    | inr (id, found) ↦ rw (found, slot) (record { kept = inv; linked = λ id' h. ground arith })
    | inl missing ↦
        rw (missing, slot)
          (slot_locked-Slotted settings own turn.created_ms name _ (fair.at_lock own m inv))
  ]

  attempt-Balanced :
      (turns : ℕ → Turn) (name : String) (rounds : ℕ) (m : DatabaseManager)
      → ((n : ℕ) → Fair settings (turns n))
      → length own + 1 < many
      → Inv settings own m
      → Balanced settings own (attempt turns settings name rounds m)
  unfolding attempt
  attempt-Balanced turns name zero m fair few inv =
      refused-Balanced settings own capacity_busy m inv
  attempt-Balanced turns name (suc n) m fair few inv =
      let turn = turns n in
      let slotted = slot-Slotted turn name m (fair n) inv in
      let m' = (slot turn.at_lock settings turn.created_ms name m).1 in
      elim (Result-cases (slot turn.at_lock settings turn.created_ms name m).0) [
        | inr (error, full) ↦
            rw (full, attempt) (refused-Balanced settings own error _ slotted.kept)
        | inl (id, found) ↦ elim (lease-Inv settings own id m' few slotted.kept) [
          | inl same ↦
              rw (found, attempt, same)
                (attempt-Balanced turns name n _ fair few ((fair n).at_yield own _ slotted.kept))
          | inr (granted, leased) ↦
              rw (found, attempt, granted) (admit_tenant-Balanced turn name id _ (fair n) leased)
        ]
      ]

  -- Where the invariant holds, the other tasks keep it at every `await`, and the task has room for
  -- one more lease below 2 ^ 63, `acquire` keeps it: a lease that it gives has both permits, is on an
  -- entry with open pools (so `pools` does not panic), and is one more lease on the accounts; with
  -- an error, the accounts are those of the leases that the task had before.
  pub acquire-Balanced :
      (turns : ℕ → Turn) (name : String) (m : DatabaseManager)
      → ((n : ℕ) → Fair settings (turns n))
      → length own + 1 < many
      → Inv settings own m
      → Balanced settings own (acquire turns settings name m)
  unfolding acquire
  acquire-Balanced turns name m fair few inv = elim (Result-cases (validate_database_name name)) [
    | inr (error, bad) ↦ rw (bad, acquire) (refused-Balanced settings own error m inv)
    | inl (good, valid) ↦
        rw (valid, acquire) (attempt-Balanced turns name max_attempts m fair few inv)
  ]

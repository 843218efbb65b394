-- ===== src/Db/System/Acquire.antt =====
-- `acquire` of src/db.rs, among the other tasks, as steps of the manager.
use tinkiva_sqllite_server.Prelude.{
  ℕ, zero, suc, String, ◌+◌, ◌-◌, ◌<◌, ◌≤◌, ◌≡◌, refl, sym, ap, ◌∙◌, Bool, true, false, ◌⊎◌, List,
  ◌∷◌, Result, ok, err, arith, length, get_elem?, ◌==◌, inl, inr, Bool-cases, Option-cases,
  Result-cases, ok-injective,
}
use mathlib.Core.Path.{subst}
use tinkiva_sqllite_server.Error.{AppError, capacity_busy, overloaded, database}
use tinkiva_sqllite_server.Config.{DatabaseSettings}
use tinkiva_sqllite_server.Metrics
use tinkiva_sqllite_server.Db.State.{
  DatabaseManager, DatabaseLease, Hold, hold_of, modify, count, lease, touch, drop, drop_lease,
}
use tinkiva_sqllite_server.Db.Acquire.{
  Turn, Outcome, wait_for_tenant_slot, wait_for_process_slot, remove_if, ensure_open, open_leased,
  admit_process, admit_tenant,
}
use tinkiva_sqllite_server.Db.Invariant.{many}
use tinkiva_sqllite_server.Db.Invariant.Steps.{bare, queued, admitted}
use tinkiva_sqllite_server.Db.Tenancy.{IsNamed, Tenant, Tenancy, IsKept-IsNamed}
use tinkiva_sqllite_server.Db.Tenancy.Leases.{count-Tenant}
use tinkiva_sqllite_server.Db.System.{
  first, Step, took_tenant, took_process, opened, unlinked, touched, counted, dropped, Steps, done,
  before, Steps-trans, others_room, IsScheduled, Scheduled,
}
use tinkiva_sqllite_server.Db.System.Frame.{
  having, adding, drop_leases, ensure_open_leases, remove_if_leases,
}
use tinkiva_sqllite_server.Db.System.Beside.{
  from_blind, from_still, Steps-adding, Steps-few, Still-few, Blind-few,
}
use tinkiva_sqllite_server.Db.System.Apart.{Step-Tenant, leases-Tenant, Steps-Tenant}
use tinkiva_sqllite_server.Db.System.Own.{
  Stepped, Ready, chain-Stepped, before-Stepped, refused-Stepped, Ready-others, drop_step,
  open_step, unlink_step, shed_step,
}
pub mod Rounds

-- How a wait ends: with the permit, or without it after the timeout.
abbrev pub Waited :
    DatabaseSettings → String → ℕ → Hold → Hold → DatabaseManager → Bool × DatabaseManager → Type 0
Waited settings name id waiting given m r =
    ((r.0 ≡ true)
      × Steps settings many (adding waiting m) (adding given r.1)
      × Ready settings name id r.1)
    ⊎ ((r.0 ≡ false)
        × Steps settings many (adding waiting m) (adding waiting r.1)
        × (length r.1.leases < others_room))

module _ {settings : DatabaseSettings} where
  open_leased-Stepped :
      (turn : Turn) (name : String) (id : ℕ) (m : DatabaseManager)
      → IsScheduled settings turn.at_open
      → Ready settings name id m
      → Stepped settings (adding (admitted id) m) (open_leased turn settings name id m)
  unfolding open_leased drop_lease touch modify
  open_leased-Stepped turn name id m scheduled before_others =
      let m1 = turn.at_open m in
      let ready : Ready settings name id m1 = Ready-others (scheduled m) before_others in
      let m' = (ensure_open turn settings name id m1).1 in
      let few : length m'.leases < others_room =
        Blind-few others_room (ensure_open turn settings name id) m1
          (ensure_open_leases turn settings name id) ready.few in
      let opening = open_step turn name id (admitted id) m1 ready.named in
      chain-Stepped (Steps-adding (admitted id) (scheduled m))
        (elim (Result-cases (ensure_open turn settings name id m1).0) [
          | inl (_, good) ↦
              rw (good, open_leased)
                (before-Stepped opening (record {
                  given = λ l h.
                      subst
                        (λ l.
                          Steps settings many (adding (admitted id) m')
                            (adding (hold_of l) (touch id turn.touched_ms m')))
                        (ok-injective {E = AppError} (record { entry = id; slots = true }) l h)
                        (before (touched id turn.touched_ms) done);
                  refused = λ e h. absurd (ground arith);
                  few = few;
                }))
          | inr (error, failed) ↦
              rw (failed, open_leased)
                (before-Stepped opening (
                  before-Stepped (unlink_step name id (admitted id) m') (
                    refused-Stepped (database error)
                      (Still-few others_room (drop turn.dropped_ms (admitted id))
                        (remove_if name id m') (drop_leases turn.dropped_ms (admitted id))
                        (Still-few others_room (remove_if name id) m' (remove_if_leases name id)
                          few))
                      (before (drop_step turn.dropped_ms (admitted id) (remove_if name id m'))
                        done))))
        ])

  pub process_wait :
      (turn : Turn) (name : String) (id : ℕ) (m : DatabaseManager)
      → IsScheduled settings turn.at_process
      → Ready settings name id m
      → Waited settings name id
          (queued id)
          (admitted id)
          m
          (wait_for_process_slot turn.at_process turn.process_elapsed m)
  unfolding wait_for_process_slot count
  process_wait turn name id m scheduled before_others =
      let waited = Metrics.record_admission_wait turn.process_elapsed in
      let m' = count waited (turn.at_process m) in
      let ready = Ready-others (scheduled m) before_others in
      let others = Steps-adding (queued id) (scheduled m) in
      elim (Bool-cases (m'.slots == 0)) [
        | inl none_left ↦
            rw (none_left, wait_for_process_slot)
              (inr (refl, Steps-trans others (before (counted waited) done), ready.few))
        | inr left ↦
            rw (left, wait_for_process_slot)
              (inl (
                refl,
                Steps-trans others (
                    before (counted waited)
                      (before (took_process id first first (ground arith)) done)),
                record {
                  tenancy = record { linked = ready.tenancy.linked; filed = ready.tenancy.filed };
                  named = ready.named;
                  few = ready.few;
                },
              ))
      ]

  pub tenant_wait :
      (turn : Turn) (name : String) (id : ℕ) (m : DatabaseManager)
      → IsScheduled settings turn.at_tenant
      → Ready settings name id m
      → Waited settings name id
          (bare id)
          (queued id)
          m
          (wait_for_tenant_slot turn.at_tenant turn.tenant_elapsed id m)
  unfolding wait_for_tenant_slot count modify
  tenant_wait turn name id m scheduled before_others =
      let waited = Metrics.record_admission_wait turn.tenant_elapsed in
      let m1 = turn.at_tenant m in
      let m' = count waited m1 in
      let ready = Ready-others (scheduled m) before_others in
      let others =
        Steps-trans (Steps-adding (bare id) (scheduled m)) (before (counted waited) done) in
      elim (Option-cases (get_elem? m'.heap id)) [
        | inl missing ↦ rw (missing, wait_for_tenant_slot) (inr (refl, others, ready.few))
        | inr (e, read) ↦ elim (Bool-cases (e.slots == 0)) [
          | inl none_left ↦
              rw (read, wait_for_tenant_slot, none_left) (inr (refl, others, ready.few))
          | inr left ↦
              let taken : DatabaseManager = modify id (λ e. record e { slots = e.slots - 1 }) m' in
              let step : Step settings many (adding (bare id) m') (adding (queued id) taken) =
                took_tenant id e first first read (ground arith) in
              let kept =
                Step-Tenant settings step
                  (leases-Tenant settings (bare id ∷ m'.leases) m1 m'
                    (count-Tenant settings name waited m1 ready.tenancy)).tenancy in
              rw (read, wait_for_tenant_slot, left)
                (inl (
                  refl,
                  Steps-trans others (before step done),
                  record {
                    tenancy = record { linked = kept.tenancy.linked; filed = kept.tenancy.filed };
                    named = IsKept-IsNamed m'.heap taken.heap name id kept.kept ready.named;
                    few = ready.few;
                  },
                ))
        ]
      ]

  admit_process-Stepped :
      (turn : Turn) (name : String) (id : ℕ) (m : DatabaseManager)
      → Scheduled settings turn
      → Ready settings name id m
      → Stepped settings (adding (queued id) m) (admit_process turn settings name id m)
  unfolding admit_process
  admit_process-Stepped turn name id m scheduled ready =
      let m' = (wait_for_process_slot turn.at_process turn.process_elapsed m).1 in
      elim (process_wait turn name id m scheduled.at_process ready) [
        | inl (granted, steps, ready') ↦
            rw (granted, admit_process)
              (chain-Stepped steps (open_leased-Stepped turn name id m' scheduled.at_open ready'))
        | inr (timed_out, steps, few) ↦
            rw (timed_out, admit_process)
              (chain-Stepped steps (shed_step turn.dropped_ms (queued id) m' few))
      ]

  pub admit_tenant-Stepped :
      (turn : Turn) (name : String) (id : ℕ) (m : DatabaseManager)
      → Scheduled settings turn
      → Ready settings name id m
      → Stepped settings (adding (bare id) m) (admit_tenant turn settings name id m)
  unfolding admit_tenant drop_lease
  admit_tenant-Stepped turn name id m scheduled ready =
      let m' = (wait_for_tenant_slot turn.at_tenant turn.tenant_elapsed id m).1 in
      elim (tenant_wait turn name id m scheduled.at_tenant ready) [
        | inl (granted, steps, ready') ↦
            rw (granted, admit_tenant)
              (chain-Stepped steps (admit_process-Stepped turn name id m' scheduled ready'))
        | inr (timed_out, steps, few) ↦
            rw (timed_out, admit_tenant)
              (chain-Stepped steps (shed_step turn.dropped_ms (bare id) m' few))
      ]

-- ===== src/Db/System/Timed/Rounds.antt =====
-- The loop of `acquire` of src/db.rs under a timeout, among the other tasks.
use tinkiva_sqllite_server.Prelude.{
  ℕ, zero, suc, String, ◌+◌, ◌<◌, refl, Result, length, inl, inr, Option-cases, Result-cases,
}
use tinkiva_sqllite_server.Error.{AppError}
use tinkiva_sqllite_server.Config.{DatabaseSettings}
use tinkiva_sqllite_server.Db.Names.{validate_database_name}
use tinkiva_sqllite_server.Db.Registry.{lookup}
use tinkiva_sqllite_server.Db.State.{DatabaseManager, DatabaseLease, modify}
use tinkiva_sqllite_server.Db.State.Cases.{lease_cases}
use tinkiva_sqllite_server.Db.Evict.{slot, slot_locked, max_attempts}
use tinkiva_sqllite_server.Db.Acquire.{Turn, admit_tenant, attempt, acquire}
use tinkiva_sqllite_server.Db.Acquire.Timed.{
  Timed, timed_tenant, timed_lock, timed_slot, timed_yield, timed_attempt, timed_acquire,
}
use tinkiva_sqllite_server.Db.Tenancy.{Tenancy}
use tinkiva_sqllite_server.Db.System.{
  done, before, Steps-trans, others_room, IsScheduled, Scheduled,
}
use tinkiva_sqllite_server.Db.System.Beside.{Steps-few}
use tinkiva_sqllite_server.Db.System.Apart.{Steps-Tenant}
use tinkiva_sqllite_server.Db.System.Acquire.Rounds.{others-Steps, granted-Ready, slot-Looked}
use tinkiva_sqllite_server.Db.System.Timed.{
  Progress, chain-Progress, others-Led, timed_tenant-Progress,
}

module _ {settings : DatabaseSettings} where
  timed_lock-Progress :
      (turn : Turn) (name : String) (budget : ℕ) (m : DatabaseManager)
      → IsScheduled settings turn.at_lock
      → length m.leases < others_room
      → Progress settings m
          (slot_locked settings turn.created_ms name (turn.at_lock m))
          (timed_lock turn settings name budget m)
  unfolding timed_lock
  timed_lock-Progress turn name zero m scheduled few =
      inl (refl, others-Led turn.at_lock m scheduled few)
  timed_lock-Progress turn name (suc budget) m scheduled few = inr (budget, refl)

  timed_slot-Progress :
      (turn : Turn) (name : String) (budget : ℕ) (m : DatabaseManager)
      → IsScheduled settings turn.at_lock
      → length m.leases < others_room
      → Progress settings m
          (slot turn.at_lock settings turn.created_ms name m)
          (timed_slot turn settings name budget m)
  unfolding timed_slot slot
  timed_slot-Progress turn name budget m scheduled few =
      elim (Option-cases (lookup name m.entries)) [
        | inr (id, found) ↦ rw (found, timed_slot, slot) (inr (budget, refl))
        | inl missing ↦
            rw (missing, timed_slot, slot) (timed_lock-Progress turn name budget m scheduled few)
      ]

  -- The next rounds, as `timed_attempt-Progress` has them.
  timed_yield-Progress :
      (turn : Turn) (whole : DatabaseManager → Result AppError DatabaseLease × DatabaseManager)
      (next : ℕ → DatabaseManager → Timed (Result AppError DatabaseLease)) (budget : ℕ)
      (m : DatabaseManager)
      → IsScheduled settings turn.at_yield
      → Tenancy settings m
      → length m.leases < others_room
      → ((left : ℕ) (m : DatabaseManager)
          → Tenancy settings m
          → length m.leases < others_room
          → Progress settings m (whole m) (next left m))
      → Progress settings m (whole (turn.at_yield m)) (timed_yield next turn.at_yield budget m)
  unfolding timed_yield
  timed_yield-Progress turn whole next zero m scheduled tenancy few later =
      inl (refl, others-Led turn.at_yield m scheduled few)
  timed_yield-Progress turn whole next (suc budget) m scheduled tenancy few later =
      chain-Progress (whole (turn.at_yield m)) (next budget (turn.at_yield m))
        (others-Steps turn.at_yield m scheduled)
        (later budget (turn.at_yield m) (Steps-Tenant settings (scheduled m) tenancy).tenancy
          (Steps-few (scheduled m) few))

  timed_attempt-Progress :
      (turns : ℕ → Turn) (name : String) (rounds budget : ℕ) (m : DatabaseManager)
      → ((n : ℕ) → Scheduled settings (turns n))
      → Tenancy settings m
      → length m.leases < others_room
      → Progress settings m
          (attempt turns settings name rounds m)
          (timed_attempt turns settings name rounds budget m)
  unfolding timed_attempt attempt
  timed_attempt-Progress turns name zero budget m scheduled tenancy few = inr (budget, refl)
  timed_attempt-Progress turns name (suc n) budget m scheduled tenancy few =
      let turn = turns n in
      let m' = (slot turn.at_lock settings turn.created_ms name m).1 in
      let looked = slot-Looked turn name m (scheduled n).at_lock tenancy few in
      elim (timed_slot-Progress turn name budget m (scheduled n).at_lock few) [
        | inl (cut, led) ↦ inl (rw (cut, timed_attempt) refl, rw (cut, timed_attempt) led)
        | inr (left, same) ↦
            rw (same, timed_attempt)
              (elim (Result-cases (slot turn.at_lock settings turn.created_ms name m).0) [
                | inr (error, full) ↦ rw (full, same, attempt) (inr (left, refl))
                | inl (id, good) ↦
                    rw (good, same, attempt)
                      (elim (lease_cases id m') [
                        | inl (shut, _) ↦
                            rw (shut, same, shut, attempt)
                              (chain-Progress (attempt turns settings name n (turn.at_yield m')) _
                                looked.steps
                                (timed_yield-Progress turn (attempt turns settings name n)
                                  (timed_attempt turns settings name n) left m'
                                  (scheduled n).at_yield looked.tenancy looked.few
                                  (λ left m. timed_attempt-Progress turns name n left m scheduled)))
                        | inr (e, read, _, granted) ↦
                            let m'' =
                              modify id (λ _. record e { active_leases = e.active_leases + 1 })
                                m' in
                            let (step, ready) =
                              granted-Ready name id m' m'' granted (looked.ready id good) in
                            rw (granted, same, granted, attempt)
                              (chain-Progress (admit_tenant turn settings name id m'')
                                (timed_tenant turn settings name id left m'')
                                (Steps-trans looked.steps (before step done))
                                (timed_tenant-Progress turn name id left m'' (scheduled n) ready))
                      ])
              ])
      ]

  -- Where the tenants are apart, the others have fewer than 2 ^ 63 - 1 leases and do nothing but
  -- steps with room for one more at every `await`, a timeout at any `await` of `acquire` has led by
  -- steps of the manager to a state in which the request has no lease and no permit; without one,
  -- the result and the manager are those of `acquire`.
  pub timed_acquire-Progress :
      (turns : ℕ → Turn) (name : String) (budget : ℕ) (m : DatabaseManager)
      → ((n : ℕ) → Scheduled settings (turns n))
      → Tenancy settings m
      → length m.leases < others_room
      → Progress settings m
          (acquire turns settings name m)
          (timed_acquire turns settings name budget m)
  unfolding timed_acquire acquire
  timed_acquire-Progress turns name budget m scheduled tenancy few =
      elim (Result-cases (validate_database_name name)) [
        | inr (error, bad) ↦ rw (bad, timed_acquire, acquire) (inr (budget, refl))
        | inl (good, valid) ↦
            rw (valid, timed_acquire, acquire)
              (timed_attempt-Progress turns name max_attempts budget m scheduled tenancy few)
      ]

-- ===== src/Db/System/Acquire/Rounds.antt =====
-- The loop of `acquire` of src/db.rs as steps of the manager.
use tinkiva_sqllite_server.Prelude.{
  ℕ, zero, suc, String, ◌+◌, ◌<◌, ◌≡◌, sym, ap, ◌∙◌, Bool, true, Result, ok, ◌∷◌, arith, length,
  inl, inr, Option-cases, Result-cases,
}
use mathlib.Core.Path.{subst}
use tinkiva_sqllite_server.Error.{AppError, capacity_busy}
use tinkiva_sqllite_server.Config.{DatabaseSettings}
use tinkiva_sqllite_server.Db.Names.{validate_database_name}
use tinkiva_sqllite_server.Db.Registry.{lookup}
use tinkiva_sqllite_server.Db.State.{DatabaseManager, lease, modify}
use tinkiva_sqllite_server.Db.State.Cases.{lease_cases}
use tinkiva_sqllite_server.Db.Evict.{slot, slot_locked, max_attempts}
use tinkiva_sqllite_server.Db.Acquire.{Others, Turn, attempt, acquire}
use tinkiva_sqllite_server.Db.Invariant.{many}
use tinkiva_sqllite_server.Db.Invariant.Steps.{bare}
use tinkiva_sqllite_server.Db.Tenancy.{Tenant, Tenancy, IsKept-IsNamed}
use tinkiva_sqllite_server.Db.Tenancy.Steps.{lease-Tenant}
use tinkiva_sqllite_server.Db.Tenancy.Slot.{slot-Found}
use tinkiva_sqllite_server.Db.System.{
  first, Step, slotted, leased, Steps, done, before, Steps-trans, Steps-wider, others_room,
  IsScheduled, Scheduled,
}
use tinkiva_sqllite_server.Db.System.Frame.{having, adding, lease_leases, slot_locked_leases}
use tinkiva_sqllite_server.Db.System.Beside.{Steps-few, Blind-few}
use tinkiva_sqllite_server.Db.System.Apart.{Steps-Tenant}
use tinkiva_sqllite_server.Db.System.Own.{
  Stepped, Ready, chain-Stepped, before-Stepped, refused-Stepped,
}
use tinkiva_sqllite_server.Db.System.Acquire.{admit_tenant-Stepped}

-- What a task knows once it has looked its database up.
pub record Looked (settings : DatabaseSettings) (name : String) (start : DatabaseManager)
    (r : Result AppError ℕ × DatabaseManager) : Type 0 where
  pub steps : Steps settings many start r.1
  pub tenancy : Tenancy settings r.1
  pub few : length r.1.leases < others_room
  pub ready : (id : ℕ) → r.0 ≡ ok id → Ready settings name id r.1

module _ {settings : DatabaseSettings} where
  -- The others' turn while the task has no lease.
  pub others-Steps :
      (others : Others) (m : DatabaseManager)
      → IsScheduled settings others
      → Steps settings many m (others m)
  others-Steps others m scheduled = Steps-wider (omega arith) (scheduled m)

  -- Its steps, and the room that is left.
  slot-Steps :
      (at_lock : Others) (now : ℕ) (name : String) (m : DatabaseManager)
      → IsScheduled settings at_lock
      → length m.leases < others_room
      → Steps settings many m (slot at_lock settings now name m).1
        × (length (slot at_lock settings now name m).1.leases < others_room)
  unfolding slot
  slot-Steps at_lock now name m scheduled few = elim (Option-cases (lookup name m.entries)) [
    | inr (id, found) ↦ rw (found, slot) (done, few)
    | inl missing ↦
        rw (missing, slot)
          (
            Steps-trans (others-Steps at_lock m scheduled) (before (slotted now name) done),
            Blind-few others_room (slot_locked settings now name) (at_lock m)
                (slot_locked_leases settings now name) (Steps-few (scheduled m) few),
          )
  ]

  -- The start of a lease.
  pub lease_step :
      (id : ℕ) (m m' : DatabaseManager)
      → lease id m ≡ (true, m')
      → length m.leases < others_room
      → Step settings many m (adding (bare id) m') × (m'.leases ≡ m.leases)
  lease_step id m m' granted few =
      let same : m'.leases ≡ m.leases =
        sym (ap (λ (r : Bool × DatabaseManager). r.1.leases) granted)
        ∙ ap (λ (r : Bool × DatabaseManager). r.1.leases) (lease_leases id m m.leases) in
      (
        subst (Step settings many m)
            (ap (λ (r : Bool × DatabaseManager). having (bare id ∷ m.leases) r.1) granted
              ∙ ap (λ leases. having (bare id ∷ leases) m') (sym same))
            (leased id (ap (λ (r : Bool × DatabaseManager). r.0) granted) first
              (omega (arith, few))),
        same,
      )

  -- A task that has just counted itself on its entry.
  pub granted-Ready :
      (name : String) (id : ℕ) (m m' : DatabaseManager)
      → lease id m ≡ (true, m')
      → Ready settings name id m
      → Step settings many m (adding (bare id) m') × Ready settings name id m'
  granted-Ready name id m m' granted ready =
      let (step, same) = lease_step id m m' granted ready.few in
      let kept : Tenant settings m m' =
        subst (λ (r : Bool × DatabaseManager). Tenant settings m r.1) granted
          (lease-Tenant settings id m ready.tenancy) in
      (
        step,
        record {
          tenancy = kept.tenancy;
          named = IsKept-IsNamed m.heap m'.heap name id kept.kept ready.named;
          few = rw same ready.few;
        },
      )

  -- A task that has looked its database up.
  pub slot-Looked :
      (turn : Turn) (name : String) (m : DatabaseManager)
      → IsScheduled settings turn.at_lock
      → Tenancy settings m
      → length m.leases < others_room
      → Looked settings name m (slot turn.at_lock settings turn.created_ms name m)
  slot-Looked turn name m scheduled tenancy few =
      let (steps, few') = slot-Steps turn.at_lock turn.created_ms name m scheduled few in
      let found =
        slot-Found settings turn.at_lock turn.created_ms name m
          (Steps-Tenant settings (scheduled m)) tenancy in
      record {
        steps = steps;
        tenancy = found.kept.tenancy;
        few = few';
        ready = λ id good. record {
          tenancy = found.kept.tenancy;
          named = found.named id good;
          few = few';
        };
      }

  pub attempt-Stepped :
      (turns : ℕ → Turn) (name : String) (rounds : ℕ) (m : DatabaseManager)
      → ((n : ℕ) → Scheduled settings (turns n))
      → Tenancy settings m
      → length m.leases < others_room
      → Stepped settings m (attempt turns settings name rounds m)
  unfolding attempt
  attempt-Stepped turns name zero m scheduled tenancy few = refused-Stepped capacity_busy few done
  attempt-Stepped turns name (suc n) m scheduled tenancy few =
      let turn = turns n in
      let m' = (slot turn.at_lock settings turn.created_ms name m).1 in
      let looked = slot-Looked turn name m (scheduled n).at_lock tenancy few in
      elim (Result-cases (slot turn.at_lock settings turn.created_ms name m).0) [
        | inr (error, full) ↦ rw (attempt, full) (refused-Stepped error looked.few looked.steps)
        | inl (id, good) ↦ chain-Stepped looked.steps (elim (lease_cases id m') [
          | inl (shut, _) ↦
              let yielded = (scheduled n).at_yield m' in
              rw (attempt, good, shut)
                (chain-Stepped (others-Steps turn.at_yield m' (scheduled n).at_yield) (
                  attempt-Stepped turns name n (turn.at_yield m') scheduled
                    (Steps-Tenant settings yielded looked.tenancy).tenancy
                    (Steps-few yielded looked.few)))
          | inr (e, read, _, granted) ↦
              let m'' = modify id (λ _. record e { active_leases = e.active_leases + 1 }) m' in
              let (step, ready) = granted-Ready name id m' m'' granted (looked.ready id good) in
              rw (attempt, good, granted)
                (before-Stepped step (admit_tenant-Stepped turn name id m'' (scheduled n) ready))
        ])
      ]

  -- Where the tenants are apart, the others have fewer than 2 ^ 63 - 1 leases and do nothing but
  -- steps with room for one more at every `await`, what happens from the call of `acquire` to its
  -- end is a sequence of steps of the manager: a lease that it gives is then one more of the tasks'
  -- leases, an error leaves none of its own, and the others have fewer than that again.
  pub acquire-Stepped :
      (turns : ℕ → Turn) (name : String) (m : DatabaseManager)
      → ((n : ℕ) → Scheduled settings (turns n))
      → Tenancy settings m
      → length m.leases < others_room
      → Stepped settings m (acquire turns settings name m)
  unfolding acquire
  acquire-Stepped turns name m scheduled tenancy few =
      elim (Result-cases (validate_database_name name)) [
        | inr (error, bad) ↦ rw (bad, acquire) (refused-Stepped error few done)
        | inl (good, valid) ↦
            rw (valid, acquire) (attempt-Stepped turns name max_attempts m scheduled tenancy few)
      ]

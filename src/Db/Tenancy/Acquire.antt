-- ===== src/Db/Tenancy/Acquire.antt =====
-- `acquire` of src/db.rs gives leases on the file of the name that it is asked for.
use tinkiva_sqllite_server.Prelude.{
  ℕ, zero, suc, String, ◌-◌, inl, inr, refl, true, false, ◌==◌, get_elem?, Bool-cases, Option-cases,
  Result-cases,
}
use tinkiva_sqllite_server.Error.{capacity_busy, overloaded}
use tinkiva_sqllite_server.Config.{DatabaseSettings}
use tinkiva_sqllite_server.Metrics
use tinkiva_sqllite_server.Db.Names.{validate_database_name}
use tinkiva_sqllite_server.Db.State.{DatabaseManager, modify, count, lease, drop_lease}
use tinkiva_sqllite_server.Db.Evict.{max_attempts, slot}
use tinkiva_sqllite_server.Db.Acquire.{
  Turn, wait_for_tenant_slot, wait_for_process_slot, admit_process, admit_tenant, attempt, acquire,
}
use tinkiva_sqllite_server.Db.Tenancy.{
  IsNamed, IsKept-IsNamed, Tenancy, Tenant, Tenant-refl, Tenant-trans, modify-Tenant,
}
use tinkiva_sqllite_server.Db.Tenancy.Leases.{
  Peaceful, Served, refused-Served, after-Served, count-Tenant, open_leased-Served,
}
use tinkiva_sqllite_server.Db.Tenancy.Slot.{slot-Found}
use tinkiva_sqllite_server.Db.Tenancy.Steps.{lease-Tenant, drop-Tenant, frame-Tenant}

module _ (settings : DatabaseSettings) (name : String) where
  admit_process-Served :
      (turn : Turn) (id : ℕ) (m : DatabaseManager)
      → Peaceful settings turn
      → IsNamed m.heap name id
      → Tenancy settings m
      → Served settings name m (admit_process turn settings name id m)
  unfolding admit_process wait_for_process_slot
  admit_process-Served turn id m peaceful named h =
      let before = peaceful.at_process m h in
      let waited = Metrics.record_admission_wait turn.process_elapsed in
      let m' = count waited (turn.at_process m) in
      let first : Tenant settings m m' =
        Tenant-trans settings m (turn.at_process m) m' before
          (count-Tenant settings name waited (turn.at_process m)) in
      elim (Bool-cases (m'.slots == 0)) [
        | inl none_left ↦
            rw (none_left, admit_process)
              (refused-Served settings name overloaded m _ (
                Tenant-trans settings m m' _ first λ h'.
                  Tenant-trans settings m' (count Metrics.record_shed m') _
                    (count-Tenant settings name Metrics.record_shed m' h')
                    (drop-Tenant settings turn.dropped_ms
                      (record { entry = id; tenant = true; process = false })
                      (count Metrics.record_shed m'))))
        | inr left ↦
            let taken =
              frame-Tenant settings (m'.slots - 1) m'.metrics m'.spawned m'.events m'
                first.tenancy in
            let there : Tenant settings m (record m' { slots = m'.slots - 1 }) =
              Tenant-trans settings m m' _ first λ _. taken in
            rw (left, admit_process)
              (after-Served settings name m (record m' { slots = m'.slots - 1 }) _ there
                (open_leased-Served settings name turn id (record m' { slots = m'.slots - 1 })
                  peaceful
                  (IsKept-IsNamed m.heap (record m' { slots = m'.slots - 1 }).heap name id
                    there.kept named)
                  there.tenancy))
      ]

  admit_tenant-Served :
      (turn : Turn) (id : ℕ) (m : DatabaseManager)
      → Peaceful settings turn
      → IsNamed m.heap name id
      → Tenancy settings m
      → Served settings name m (admit_tenant turn settings name id m)
  unfolding admit_tenant wait_for_tenant_slot drop_lease
  admit_tenant-Served turn id m peaceful named h =
      let before = peaceful.at_tenant m h in
      let waited = Metrics.record_admission_wait turn.tenant_elapsed in
      let m' = count waited (turn.at_tenant m) in
      let first : Tenant settings m m' =
        Tenant-trans settings m (turn.at_tenant m) m' before
          (count-Tenant settings name waited (turn.at_tenant m)) in
      let shed = refused-Served settings name overloaded m _ (
        Tenant-trans settings m m' _ first λ h'.
          Tenant-trans settings m' (count Metrics.record_shed m') _
            (count-Tenant settings name Metrics.record_shed m' h')
            (drop-Tenant settings turn.dropped_ms
              (record { entry = id; tenant = false; process = false })
              (count Metrics.record_shed m'))) in
      elim (Option-cases (get_elem? m'.heap id)) [
        | inl missing ↦ rw (missing, admit_tenant, wait_for_tenant_slot) shed
        | inr (e, read) ↦ elim (Bool-cases (e.slots == 0)) [
          | inl none_left ↦ rw (read, admit_tenant, wait_for_tenant_slot, none_left) shed
          | inr left ↦
              let m'' = modify id (λ e. record e { slots = e.slots - 1 }) m' in
              let there : Tenant settings m m'' = Tenant-trans settings m m' m'' first λ h'.
                modify-Tenant settings id (λ e. record e { slots = e.slots - 1 }) m'
                  (λ e read. (refl, (λ pools there. there), h'.filed id e read)) h' in
              rw (read, admit_tenant, wait_for_tenant_slot, left)
                (after-Served settings name m m'' _ there (
                  admit_process-Served turn id m'' peaceful
                    (IsKept-IsNamed m.heap m''.heap name id there.kept named) there.tenancy))
        ]
      ]

  attempt-Served :
      (turns : ℕ → Turn) (rounds : ℕ) (m : DatabaseManager)
      → ((n : ℕ) → Peaceful settings (turns n))
      → Tenancy settings m
      → Served settings name m (attempt turns settings name rounds m)
  unfolding attempt
  attempt-Served turns zero m peaceful h =
      refused-Served settings name capacity_busy m m (Tenant-refl settings m h)
  attempt-Served turns (suc n) m peaceful h =
      let turn = turns n in
      let found =
        slot-Found settings turn.at_lock turn.created_ms name m ((peaceful n).at_lock m) h in
      let m' = (slot turn.at_lock settings turn.created_ms name m).1 in
      elim (Result-cases (slot turn.at_lock settings turn.created_ms name m).0) [
        | inr (error, full) ↦
            rw (full, attempt) (refused-Served settings name error m m' found.kept)
        | inl (id, good) ↦
            let leased = lease-Tenant settings id m' found.kept.tenancy in
            let m'' = (lease id m').1 in
            let there : Tenant settings m m'' =
              Tenant-trans settings m m' m'' found.kept λ _. leased in
            elim (Bool-cases (lease id m').0) [
              | inr shut ↦
                  let yielded =
                    Tenant-trans settings m m'' (turn.at_yield m'') there
                      ((peaceful n).at_yield m'') in
                  rw (good, attempt, shut)
                    (after-Served settings name m (turn.at_yield m'') _ yielded
                      (attempt-Served turns n (turn.at_yield m'') peaceful yielded.tenancy))
              | inl granted ↦
                  rw (good, attempt, granted)
                    (after-Served settings name m m'' _ there (
                      admit_tenant-Served turn id m'' (peaceful n)
                        (IsKept-IsNamed m'.heap m''.heap name id leased.kept (found.named id good))
                        there.tenancy))
            ]
      ]

  -- Where entries are linked under their own names with pools on their own files, and the other
  -- tasks keep that, so does `acquire`; a lease that it gives is on an entry of the name asked for,
  -- whose two pools are on the file of that name.
  pub acquire-Served :
      (turns : ℕ → Turn) (m : DatabaseManager)
      → ((n : ℕ) → Peaceful settings (turns n))
      → Tenancy settings m
      → Served settings name m (acquire turns settings name m)
  unfolding acquire
  acquire-Served turns m peaceful h = elim (Result-cases (validate_database_name name)) [
    | inr (error, bad) ↦
        rw (bad, acquire) (refused-Served settings name error m m (Tenant-refl settings m h))
    | inl (_, valid) ↦ rw (valid, acquire) (attempt-Served turns max_attempts m peaceful h)
  ]

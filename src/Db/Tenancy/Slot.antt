-- ===== src/Db/Tenancy/Slot.antt =====
-- `slot` of src/db.rs, with its evictions, keeps the tenants apart and finds the name's own entry.
use tinkiva_sqllite_server.Prelude.{
  ℕ, zero, suc, String, ◌≡◌, inl, inr, refl, ap, ◌∙◌, none, some, Result, ok, arith, ltb, length,
  get_elem?, Bool-cases, Option-cases, ok-injective,
}
use mathlib.Core.Path.{subst}
use tinkiva_sqllite_server.Error.{AppError}
use tinkiva_sqllite_server.Config.{DatabaseSettings}
use tinkiva_sqllite_server.Db.Entry.{DatabaseEntry, closed}
use tinkiva_sqllite_server.Db.Entry
use tinkiva_sqllite_server.Db.Registry.{lookup, get_elem?-push, lookup-All}
use tinkiva_sqllite_server.Db.State.{DatabaseManager, modify, count}
use tinkiva_sqllite_server.Db.Evict.{
  oldest_idle, evict_oldest_idle, make_room, admit, slot_locked, slot, max_attempts,
}
use tinkiva_sqllite_server.Db.Evict.Take.{taken, take_entry_cases}
use tinkiva_sqllite_server.Db.Tenancy.{
  IsNamed, Tenancy, Tenant, Tenant-refl, Tenant-trans, modify-Tenant,
}
use tinkiva_sqllite_server.Db.Tenancy.Steps.{frame-Tenant, remove-Tenant, admit-Tenant}

module _ (settings : DatabaseSettings) where
  pub taken-Tenant :
      (name : String) (id : ℕ) (e : DatabaseEntry) (m : DatabaseManager)
      → get_elem? m.heap id ≡ some e
      → Tenancy settings m
      → Tenant settings m (taken name id e m)
  unfolding modify
  taken-Tenant name id e m read h =
      Tenant-trans settings m (modify id (λ _. record e { active_leases = closed }) m) _
        (modify-Tenant settings id (λ _. record e { active_leases = closed }) m
          (λ e' read'.
            let same : e ≡ e' = ground arith in
            (
              ap (λ (e : DatabaseEntry). e.name) same,
              λ pools there. ap (λ (e : DatabaseEntry). e.pools) same ∙ there,
              h.filed id e read,
            ))
          h)
        (remove-Tenant settings name _)

  evict_oldest_idle-Tenant :
      (m : DatabaseManager) → Tenancy settings m → Tenant settings m (evict_oldest_idle m).1
  unfolding evict_oldest_idle count
  evict_oldest_idle-Tenant m h = elim (Option-cases (oldest_idle m.heap m.entries none)) [
    | inl e ↦ rw (e, evict_oldest_idle) (Tenant-refl settings m h)
    | inr ((name, used), e) ↦ elim (take_entry_cases name m) [
      | inl (same, _) ↦ rw (e, evict_oldest_idle, same, same) (Tenant-refl settings m h)
      | inr (id, x, found, read, idle, took) ↦
          rw (e, evict_oldest_idle, took, took)
            (Tenant-trans settings m (taken name id x m) _ (taken-Tenant name id x m read h)
              (frame-Tenant settings m.slots _ _ m.events (taken name id x m)))
    ]
  ]

  make_room-Tenant :
      (attempts : ℕ) (m : DatabaseManager)
      → Tenancy settings m
      → Tenant settings m (make_room settings attempts m).1
  unfolding make_room
  make_room-Tenant zero m h = Tenant-refl settings m h
  make_room-Tenant (suc attempts) m h =
      let evicted = evict_oldest_idle-Tenant m h in
      elim (Bool-cases (ltb (length m.entries) settings.max_open_databases)) [
        | inl room ↦ rw room (Tenant-refl settings m h)
        | inr full ↦ elim (Bool-cases (evict_oldest_idle m).0) [
          | inl gone ↦
              rw (full, gone)
                (Tenant-trans settings m (evict_oldest_idle m).1 _ evicted
                  (make_room-Tenant attempts _))
          | inr none_idle ↦ rw (full, none_idle) evicted
        ]
      ]

  admit-IsNamed :
      (now : ℕ) (name : String) (m : DatabaseManager)
      → IsNamed (admit settings now name m).1.heap name (admit settings now name m).0
  unfolding admit count Entry.new
  admit-IsNamed now name m =
      let entry : DatabaseEntry =
        Entry.new name settings.max_concurrent_requests_per_database now in
      (entry, ground (arith, get_elem?-push m.heap entry (length m.heap)), refl)

  -- What `slot` returns is the entry of the name.
  pub record Found (name : String) (m : DatabaseManager) (r : Result AppError ℕ × DatabaseManager)
      : Type 0 where
    pub kept : Tenant settings m r.1
    pub named : (id : ℕ) → r.0 ≡ ok id → IsNamed r.1.heap name id

  linked-Found :
      (name : String) (id : ℕ) (m : DatabaseManager)
      → Tenancy settings m
      → lookup name m.entries ≡ some id
      → Found name m (ok id, m)
  linked-Found name id m h found = record {
    kept = Tenant-refl settings m h;
    named = λ id' e.
        subst (IsNamed m.heap name) (ok-injective {E = AppError} id id' e)
          (lookup-All (λ entry. IsNamed m.heap entry.0 entry.1) name m.entries id h.linked found);
  }

  pub slot_locked-Found :
      (now : ℕ) (name : String) (m : DatabaseManager)
      → Tenancy settings m
      → Found name m (slot_locked settings now name m)
  unfolding slot_locked
  slot_locked-Found now name m h = elim (Option-cases (lookup name m.entries)) [
    | inr (id, found) ↦ rw (found, slot_locked) (linked-Found name id m h found)
    | inl free ↦
        let room = make_room-Tenant max_attempts m h in
        let m' = (make_room settings max_attempts m).1 in
        elim (Bool-cases (make_room settings max_attempts m).0) [
          | inl some_room ↦
              rw (free, slot_locked, some_room)
                (record {
                  kept = Tenant-trans settings m m' _ room (admit-Tenant settings now name m');
                  named = λ id e.
                      subst (IsNamed (admit settings now name m').1.heap name)
                        (ok-injective {E = AppError} _ id e) (admit-IsNamed now name m');
                })
          | inr no_room ↦
              rw (free, slot_locked, no_room)
                (record { kept = room; named = λ id e. absurd (ground arith) })
        ]
  ]

  pub slot-Found :
      (at_lock : DatabaseManager → DatabaseManager) (now : ℕ) (name : String) (m : DatabaseManager)
      → (Tenancy settings m → Tenant settings m (at_lock m))
      → Tenancy settings m
      → Found name m (slot at_lock settings now name m)
  unfolding slot
  slot-Found at_lock now name m fair h = elim (Option-cases (lookup name m.entries)) [
    | inr (id, found) ↦ rw (found, slot) (linked-Found name id m h found)
    | inl missing ↦
        let before = fair h in
        let after = slot_locked-Found now name (at_lock m) before.tenancy in
        rw (missing, slot)
          (record {
            kept = Tenant-trans settings m (at_lock m) _ before λ _. after.kept;
            named = after.named;
          })
  ]

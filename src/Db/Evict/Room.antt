-- ===== src/Db/Evict/Room.antt =====
-- `slot` of src/db.rs: making room keeps the invariant, and fails only when every entry is in use.
use tinkiva_sqllite_server.Prelude.{
  ℕ, zero, suc, String, ◌≤◌, ◌<◌, ◌≡◌, ◌↔◌, inl, inr, refl, ap, eq_iff, ◌∙◌, Bool, true, false,
  none, some, List, Result, ok, err, arith, ltb, length, get_elem?, All, Bool-cases, Option-cases,
}
use tinkiva_sqllite_server.Error.{AppError, capacity_busy}
use tinkiva_sqllite_server.Config.{DatabaseSettings}
use tinkiva_sqllite_server.Db.Entry.{DatabaseEntry, closed}
use tinkiva_sqllite_server.Db.Registry.{
  lookup, length-remove_found, lookup-remove-none, lookup-All, lookup-insert, length-update,
}
use tinkiva_sqllite_server.Db.State.{DatabaseManager, Hold, modify, count}
use tinkiva_sqllite_server.Db.Evict.{evict_oldest_idle, make_room, admit, slot_locked, max_attempts}
use tinkiva_sqllite_server.Db.Evict.Take.{taken}
use tinkiva_sqllite_server.Db.Evict.Oldest.{IsBusy, evict_oldest_idle-lru}
use tinkiva_sqllite_server.Db.Invariant.{Inv}
use tinkiva_sqllite_server.Db.Invariant.Counts.{modify-Inv}
use tinkiva_sqllite_server.Db.Invariant.Steps.{frame-Inv, remove-Inv, admit-Inv}

module _ (settings : DatabaseSettings) (own : List Hold) where
  pub taken-Inv :
      (name : String) (id : ℕ) (e : DatabaseEntry) (m : DatabaseManager)
      → get_elem? m.heap id ≡ some e
      → e.active_leases ≡ 0
      → Inv settings own m
      → Inv settings own (taken name id e m)
  unfolding modify
  taken-Inv name id e m read idle inv =
      remove-Inv settings own name (modify id (λ _. record e { active_leases = closed }) m) (
        modify-Inv settings own own id (λ _. record e { active_leases = closed }) m inv
          inv.own_allocated inv.own_few refl (λ other miss. (refl, refl))
          λ old same a. ground arith)

  -- What an eviction leaves: the invariant, the heap's length, a free name free, and either one
  -- entry less or a manager in full use.
  pub record Evicted (m : DatabaseManager) (r : Bool × DatabaseManager) : Type 0 where
    pub kept : Inv settings own r.1
    pub heap_length : length r.1.heap ≡ length m.heap
    pub free : (name : String) → lookup name m.entries ≡ none → lookup name r.1.entries ≡ none
    pub gone : r.0 ≡ true → suc (length r.1.entries) ≡ length m.entries
    pub full : r.0 ≡ false → (r.1 ≡ m) × All (λ entry. IsBusy m.heap entry.1) m.entries

  pub evict_oldest_idle-Evicted :
      (m : DatabaseManager) → Inv settings own m → Evicted m (evict_oldest_idle m)
  evict_oldest_idle-Evicted m inv = elim (evict_oldest_idle-lru m inv.distinct) [
    | inl (name, id, e, found, read, idle, _, evicted) ↦ rw evicted (record {
      kept = frame-Inv settings own _ _ m.events _ (taken-Inv name id e m read idle inv);
      heap_length = length-update id _ m.heap;
      free = λ other h. lookup-remove-none name other m.entries h;
      gone = λ _. length-remove_found name m.entries id found;
      full = λ h. absurd (ground arith);
    })
    | inr (busy, same) ↦ rw same (record {
      kept = inv;
      heap_length = refl;
      free = λ other h. h;
      gone = λ h. absurd (ground arith);
      full = λ _. (refl, busy);
    })
  ]

  pub record HasRoom (m : DatabaseManager) (r : Bool × DatabaseManager) : Type 0 where
    pub kept : Inv settings own r.1
    pub heap_length : length r.1.heap ≡ length m.heap
    pub free : (name : String) → lookup name m.entries ≡ none → lookup name r.1.entries ≡ none
    pub room : r.0 ≡ true → length r.1.entries < settings.max_open_databases

  pub make_room-HasRoom :
      (attempts : ℕ) (m : DatabaseManager)
      → Inv settings own m
      → HasRoom m (make_room settings attempts m)
  unfolding make_room
  make_room-HasRoom zero m inv = record {
    kept = inv;
    heap_length = refl;
    free = λ name h. h;
    room = λ h. ground arith;
  }
  make_room-HasRoom (suc attempts) m inv =
      elim (Bool-cases (ltb (length m.entries) settings.max_open_databases)) [
        | inl room ↦ rw room (record {
          kept = inv;
          heap_length = refl;
          free = λ name h. h;
          room = λ h. ground arith;
        })
        | inr full ↦
            let evicted = evict_oldest_idle-Evicted m inv in
            let rest = make_room-HasRoom attempts (evict_oldest_idle m).1 evicted.kept in
            elim (Bool-cases (evict_oldest_idle m).0) [
              | inl gone ↦
                  rw (full, gone)
                    (record {
                      kept = rest.kept;
                      heap_length = rest.heap_length ∙ evicted.heap_length;
                      free = λ name h. rest.free name (evicted.free name h);
                      room = rest.room;
                    })
              | inr none_idle ↦
                  rw (full, none_idle)
                    (record {
                      kept = evicted.kept;
                      heap_length = evicted.heap_length;
                      free = evicted.free;
                      room = λ h. absurd (ground arith);
                    })
            ]
      ]

  make_room_enough :
      (attempts : ℕ) (m : DatabaseManager)
      → length m.entries < settings.max_open_databases
      → make_room settings attempts m ≡ (true, m)
  unfolding make_room
  make_room_enough zero m h = ground arith
  make_room_enough (suc attempts) m h = ground arith

  -- What `slot` leaves with the lock held: the invariant, and on success the address that the name
  -- is linked to.
  pub record Slotted (name : String) (r : Result AppError ℕ × DatabaseManager) : Type 0 where
    pub kept : Inv settings own r.1
    pub linked : (id : ℕ) → r.0 ≡ ok id → lookup name r.1.entries ≡ some id

  admit-linked :
      (now : ℕ) (name : String) (m : DatabaseManager)
      → lookup name (admit settings now name m).1.entries ≡ some (admit settings now name m).0
  unfolding admit count
  admit-linked now name m =
      ground (arith, lookup-insert name name (length m.heap) m.entries, eq_iff name name)

  make_room_stuck :
      (attempts : ℕ) (m : DatabaseManager)
      → ltb (length m.entries) settings.max_open_databases ≡ false
      → evict_oldest_idle m ≡ (false, m)
      → make_room settings (suc attempts) m ≡ (false, m)
  unfolding make_room
  make_room_stuck attempts m full same = rw (full, same)

  pub slot_locked-Slotted :
      (now : ℕ) (name : String) (m : DatabaseManager)
      → Inv settings own m
      → Slotted name (slot_locked settings now name m)
  unfolding slot_locked
  slot_locked-Slotted now name m inv = elim (Option-cases (lookup name m.entries)) [
    | inr (id, found) ↦
        rw (found, slot_locked) (record { kept = inv; linked = λ id' h. ground arith })
    | inl free ↦
        let room = make_room-HasRoom max_attempts m inv in
        elim (Bool-cases (make_room settings max_attempts m).0) [
          | inl some_room ↦
              rw (free, slot_locked, some_room)
                (record {
                  kept =
                      admit-Inv settings own now name (make_room settings max_attempts m).1
                        (room.free name free) (room.room some_room) room.kept;
                  linked = λ id' h.
                      admit-linked now name (make_room settings max_attempts m).1 ∙ ground arith;
                })
          | inr no_room ↦
              rw (free, slot_locked, no_room)
                (record { kept = room.kept; linked = λ id' h. absurd (ground arith) })
        ]
  ]

  make_room_gone :
      (attempts : ℕ) (m : DatabaseManager)
      → Inv settings own m
      → ltb (length m.entries) settings.max_open_databases ≡ false
      → (evict_oldest_idle m).0 ≡ true
      → make_room settings (suc attempts) m ≡ (true, (evict_oldest_idle m).1)
  unfolding make_room
  make_room_gone attempts m inv full gone =
      let evicted = evict_oldest_idle-Evicted m inv in
      rw (full, gone)
        (make_room_enough attempts (evict_oldest_idle m).1
          (omega (arith, evicted.gone gone, inv.capacity)))

  -- Where the invariant holds, a database that is not resident is turned away exactly when the
  -- manager is full and every resident database has a lease or is closing; then nothing has
  -- changed. One eviction makes room otherwise, so the bound on the attempts is never met.
  pub slot_locked-capacity_busy :
      (now : ℕ) (name : String) (m : DatabaseManager)
      → Inv settings own m
      → lookup name m.entries ≡ none
      → (((slot_locked settings now name m).0 ≡ err capacity_busy) ↔ (
          (settings.max_open_databases ≤ length m.entries)
          × All (λ entry. IsBusy m.heap entry.1) m.entries))
        × ((slot_locked settings now name m).0 ≡ err capacity_busy
            → (slot_locked settings now name m).1 ≡ m)
  unfolding slot_locked
  slot_locked-capacity_busy now name m inv free =
      elim (Bool-cases (ltb (length m.entries) settings.max_open_databases)) [
        | inl room ↦
            rw (free, slot_locked, make_room_enough max_attempts m (ground arith))
              ((λ h. absurd (ground arith), λ h. absurd (ground arith)), λ h. absurd (ground arith))
        | inr full ↦ elim (evict_oldest_idle-lru m inv.distinct) [
          | inl (victim, id, e, found, read, idle, _, evicted) ↦
              rw (free, slot_locked, make_room_gone 15 m inv full (ap (λ r. r.0) evicted))
                (
                  (
                    λ h. absurd (ground arith),
                    λ h. absurd (
                        lookup-All (λ entry. IsBusy m.heap entry.1) victim m.entries id h.1 found e
                          read idle),
                  ),
                  λ h. absurd (ground arith),
                )
          | inr (busy, same) ↦
              rw (free, slot_locked, make_room_stuck 15 m full same)
                ((λ h. (ground arith, busy), λ h. refl), λ h. refl)
        ]
      ]

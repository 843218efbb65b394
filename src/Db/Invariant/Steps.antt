-- ===== src/Db/Invariant/Steps.antt =====
-- How linking, unlinking and the permits keep the invariant.
use tinkiva_sqllite_server.Prelude.{
  ℕ, String, ◌+◌, ◌-◌, ◌<◌, ◌≡◌, ◌≢◌, inl, inr, refl, true, false, none, some, List, [], ◌∷◌, arith,
  ◌==◌, length, get_elem?, All, Bool-cases, ==_iff, length-append,
}
use tinkiva_sqllite_server.Config.{DatabaseSettings}
use tinkiva_sqllite_server.Metrics.{Metrics}
use tinkiva_sqllite_server.Db.Entry.{DatabaseEntry, closed}
use tinkiva_sqllite_server.Db.Entry
use tinkiva_sqllite_server.Db.Registry.{
  Entries, lookup, remove, remove-Distinct, length-remove-le, remove-All, insert-Distinct,
  insert-All, length-insert_new, get_elem?-push,
}
use tinkiva_sqllite_server.Db.State.{DatabaseManager, PoolEvent, Hold, modify, count}
use tinkiva_sqllite_server.Db.Evict.{admit}
use tinkiva_sqllite_server.Db.Invariant.{held, tenant_permits, Inv}
use tinkiva_sqllite_server.Db.Invariant.Counts.{modify-Inv}

abbrev pub bare : ℕ → Hold
bare id = record { entry = id; tenant = false; process = false }

abbrev pub queued : ℕ → Hold
queued id = record { entry = id; tenant = true; process = false }

abbrev pub admitted : ℕ → Hold
admitted id = record { entry = id; tenant = true; process = true }

held_unallocated :
    (n : ℕ) (hs : List Hold)
    → All (λ (h : Hold). h.entry < n) hs
    → (held n hs ≡ 0) × (tenant_permits n hs ≡ 0)
held_unallocated n [] h = (refl, refl)
held_unallocated n (x ∷ hs) h = ground (arith, held_unallocated n hs h.1)

All-grow :
    (n : ℕ) (hs : List Hold)
    → All (λ (h : Hold). h.entry < n) hs
    → All (λ (h : Hold). h.entry < n + 1) hs
All-grow n [] h = tt
All-grow n (x ∷ hs) h = (omega arith, All-grow n hs h.1)

linked-grow : (n : ℕ) (es : Entries) → All (λ e. e.1 < n) es → All (λ e. e.1 < n + 1) es
linked-grow n [] h = tt
linked-grow n (e ∷ es) h = (omega arith, linked-grow n es h.1)

module _ (settings : DatabaseSettings) (own : List Hold) where
  -- The metrics, the background tasks and the log are not accounted for.
  pub frame-Inv :
      (metrics : Metrics) (spawned : List ℕ) (events : List PoolEvent) (m : DatabaseManager)
      → Inv settings own m
      → Inv settings own (record m { metrics = metrics; spawned = spawned; events = events })
  frame-Inv metrics spawned events m inv = record {
    capacity = inv.capacity;
    distinct = inv.distinct;
    linked = inv.linked;
    own_allocated = inv.own_allocated;
    others_allocated = inv.others_allocated;
    accounts = inv.accounts;
    process = inv.process;
    own_few = inv.own_few;
    few = inv.few;
  }

  pub count-Inv :
      (f : Metrics → Metrics) (m : DatabaseManager)
      → Inv settings own m
      → Inv settings own (count f m)
  unfolding count
  count-Inv f m inv = frame-Inv (f m.metrics) m.spawned m.events m inv

  pub remove-Inv :
      (name : String) (m : DatabaseManager)
      → Inv settings own m
      → Inv settings own (record m { entries = remove name m.entries })
  remove-Inv name m inv = record {
    capacity = omega (arith, length-remove-le name m.entries);
    distinct = remove-Distinct name m.entries inv.distinct;
    linked = remove-All _ name m.entries inv.linked;
    own_allocated = inv.own_allocated;
    others_allocated = inv.others_allocated;
    accounts = inv.accounts;
    process = inv.process;
    own_few = inv.own_few;
    few = inv.few;
  }

  -- A new entry is linked where there is room and the name is free.
  pub admit-Inv :
      (now : ℕ) (name : String) (m : DatabaseManager)
      → lookup name m.entries ≡ none
      → length m.entries < settings.max_open_databases
      → Inv settings own m
      → Inv settings own (admit settings now name m).1
  unfolding admit count Entry.new
  admit-Inv now name m free room inv = record {
    capacity = omega (arith, length-insert_new name (length m.heap) m.entries free);
    distinct = insert-Distinct name (length m.heap) m.entries inv.distinct;
    linked = rw (length-append m.heap (entry ∷ [])) (
        insert-All _ name (length m.heap) m.entries
          (linked-grow (length m.heap) m.entries inv.linked) (omega arith));
    own_allocated =
        rw (length-append m.heap (entry ∷ [])) (All-grow (length m.heap) own inv.own_allocated);
    others_allocated =
        rw (length-append m.heap (entry ∷ []))
          (All-grow (length m.heap) m.leases inv.others_allocated);
    accounts = λ id e read. elim (Bool-cases (id == length m.heap)) [
      | inl new ↦
          let new_id : id ≡ length m.heap = (==_iff id (length m.heap)).0 new in
          ground (
            arith,
            get_elem?-push m.heap entry id,
            held_unallocated id own (rw new_id inv.own_allocated),
            held_unallocated id m.leases (rw new_id inv.others_allocated),
          )
      | inr old ↦ inv.accounts id e (ground (arith, get_elem?-push m.heap entry id))
    ];
    process = inv.process;
    own_few = inv.own_few;
    few = inv.few;
  }
    where
      entry : DatabaseEntry
      entry = Entry.new name settings.max_concurrent_requests_per_database now

  pub tenant_taken :
      (id : ℕ) (e : DatabaseEntry) (m : DatabaseManager)
      → get_elem? m.heap id ≡ some e
      → e.slots ≢ 0
      → Inv settings (bare id ∷ own) m
      → Inv settings (queued id ∷ own) (modify id (λ e. record e { slots = e.slots - 1 }) m)
  tenant_taken id e m read left inv =
      modify-Inv settings (bare id ∷ own) (queued id ∷ own) id _ m inv inv.own_allocated inv.own_few
        (omega arith) (λ other miss. ground arith) λ old same a. ground arith

  pub process_taken :
      (id : ℕ) (m : DatabaseManager)
      → m.slots ≢ 0
      → Inv settings (queued id ∷ own) m
      → Inv settings (admitted id ∷ own) (record m { slots = m.slots - 1 })
  process_taken id m left inv = record {
    capacity = inv.capacity;
    distinct = inv.distinct;
    linked = inv.linked;
    own_allocated = inv.own_allocated;
    others_allocated = inv.others_allocated;
    accounts = inv.accounts;
    process = ground (arith, inv.process);
    own_few = inv.own_few;
    few = inv.few;
  }

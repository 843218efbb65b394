-- ===== src/Db/Evict.antt =====
-- src/db.rs: `take`, `evict_oldest_idle`, `close_entry` and `slot`.
pub mod Take
pub mod Oldest
pub mod Room
use tinkiva_sqllite_server.Prelude.{
  ℕ, zero, suc, String, Bool, true, false, not, ◌||◌, Option, none, some, List, [], ◌∷◌, ◌++◌,
  Result, ok, err, ◌==◌, ltb, if◌then◌else◌, length, get_elem?,
}
use tinkiva_sqllite_server.Error.{AppError, capacity_busy}
use tinkiva_sqllite_server.Config.{DatabaseSettings}
use tinkiva_sqllite_server.Metrics
use tinkiva_sqllite_server.Db.Entry.{DatabaseEntry}
use tinkiva_sqllite_server.Db.Entry
use tinkiva_sqllite_server.Db.Registry.{Entries, lookup, insert, remove}
use tinkiva_sqllite_server.Db.State.{
  DatabaseManager, PoolEvent, close_readers, optimize, checkpoint_truncate, close_writer,
  begin_close, count,
}

abbrev pub max_attempts : ℕ
max_attempts = 16

-- `take`: marks an entry closed and unlinks it.
unfoldable pub take_entry : String → DatabaseManager → Option ℕ × DatabaseManager
take_entry name m = elim (lookup name m.entries) [
  | none ↦ (none, m)
  | some id ↦
      let (begun, m') = begin_close id m in
      if begun then (some id, record m' { entries = remove name m'.entries }) else (none, m')
]

-- `candidate.is_none_or(|(_, oldest)| last_used < *oldest)`
abbrev is_older : ℕ → Option (String × ℕ) → Bool
is_older last_used none = true
is_older last_used (some (_, oldest)) = ltb last_used oldest

-- What one round of the loop over the entries makes of the candidate.
unfoldable pub consider :
    List DatabaseEntry → String × ℕ → Option (String × ℕ) → Option (String × ℕ)
consider heap (name, id) candidate = elim (get_elem? heap id) [
  | none ↦ candidate
  | some e ↦
      if not (e.active_leases == 0)
      then candidate
      else if is_older e.last_used_ms candidate
      then some (name, e.last_used_ms)
      else candidate
]

unfoldable pub oldest_idle :
    List DatabaseEntry → Entries → Option (String × ℕ) → Option (String × ℕ)
oldest_idle heap [] candidate = candidate
oldest_idle heap (entry ∷ rest) candidate = oldest_idle heap rest (consider heap entry candidate)

-- `tokio::spawn(close_entry(entry))` is noted in `spawned`.
unfoldable pub evict_oldest_idle : DatabaseManager → Bool × DatabaseManager
evict_oldest_idle m = elim (oldest_idle m.heap m.entries none) [
  | none ↦ (false, m)
  | some (name, _) ↦
      let (taken, m') = take_entry name m in
      elim taken [
        | none ↦ (false, m')
        | some id ↦ (true, count Metrics.record_eviction (record m' { spawned = id ∷ m'.spawned }))
      ]
]

-- `close_entry`: readers first, since their marks would block the checkpoint; the results of the
-- two statements are dropped.
unfoldable pub close_entry : ℕ → DatabaseManager → DatabaseManager
close_entry id m = elim (get_elem? m.heap id) [
  | none ↦ m
  | some e ↦ elim e.pools [
    | none ↦ m
    | some _ ↦ record m {
      events = close_writer id ∷ checkpoint_truncate id ∷ optimize id ∷ close_readers id ∷ m.events;
    }
  ]
]

-- The `while` of `slot` with the attempts that are left: whether there is room in the end.
unfoldable pub make_room : DatabaseSettings → ℕ → DatabaseManager → Bool × DatabaseManager
make_room settings zero m = (ltb (length m.entries) settings.max_open_databases, m)
make_room settings (suc attempts) m =
    let (evicted, m') = evict_oldest_idle m in
    let rest = make_room settings attempts m' in
    if ltb (length m.entries) settings.max_open_databases
    then (true, m)
    else if evicted
    then rest
    else (false, m')

-- The end of `slot`: a new entry is linked.
unfoldable pub admit : DatabaseSettings → ℕ → String → DatabaseManager → ℕ × DatabaseManager
admit settings now name m =
    let entry = Entry.new name settings.max_concurrent_requests_per_database now in
    let id = length m.heap in
    (
      id,
      count Metrics.record_open
          (record m { heap = m.heap ++ entry ∷ []; entries = insert name id m.entries }),
    )

-- `slot` once the admission lock is held.
unfoldable pub slot_locked :
    DatabaseSettings → ℕ → String → DatabaseManager → Result AppError ℕ × DatabaseManager
slot_locked settings now name m = elim (lookup name m.entries) [
  | some id ↦ (ok id, m)
  | none ↦
      let (room, m') = make_room settings max_attempts m in
      if room
      then (let (id, m'') = admit settings now name m' in (ok id, m''))
      else (err capacity_busy, m')
]

-- `slot`; `at_lock` is what the other tasks do while it waits for the lock.
unfoldable pub slot :
    (DatabaseManager → DatabaseManager)
    → DatabaseSettings
    → ℕ
    → String
    → DatabaseManager
    → Result AppError ℕ × DatabaseManager
slot at_lock settings now name m = elim (lookup name m.entries) [
  | some id ↦ (ok id, m)
  | none ↦ slot_locked settings now name (at_lock m)
]

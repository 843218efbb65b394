-- ===== src/Db/Maintenance/Balance.antt =====
-- `cleanup_idle`, `checkpoint_wal` and `close_all` of src/db.rs against the counts of leases and
-- permits.
use tinkiva_sqllite_server.Prelude.{
  ℕ, String, ◌+◌, ◌<◌, inl, inr, List, [], ◌∷◌, arith, length, get_elem?, Bool-cases, Option-cases,
}
use tinkiva_sqllite_server.Config.{DatabaseSettings}
use tinkiva_sqllite_server.Db.State.{DatabaseManager, Hold, lease, drop_lease}
use tinkiva_sqllite_server.Db.Evict.{close_entry}
use tinkiva_sqllite_server.Db.Evict.Take.{take_entry_cases}
use tinkiva_sqllite_server.Db.Evict.Room.{taken-Inv}
use tinkiva_sqllite_server.Db.Acquire.{Others}
use tinkiva_sqllite_server.Db.Acquire.Fair.{IsFair}
use tinkiva_sqllite_server.Db.Maintenance.{
  close_stale, cleanup_idle, ids, Round, is_open, checkpoint_entry, checkpoint_entries,
  checkpoint_wal, close_entries, close_all,
}
use tinkiva_sqllite_server.Db.Invariant.{Inv, many}
use tinkiva_sqllite_server.Db.Invariant.Counts.{lease-Inv, begin_close-Inv, drop-Inv}
use tinkiva_sqllite_server.Db.Invariant.Steps.{frame-Inv, count-Inv, bare}

module _ (settings : DatabaseSettings) (own : List Hold) where
  pub close_entry-Inv :
      (id : ℕ) (m : DatabaseManager) → Inv settings own m → Inv settings own (close_entry id m)
  unfolding close_entry
  close_entry-Inv id m inv = elim (Option-cases (get_elem? m.heap id)) [
    | inl missing ↦ rw (missing, close_entry) inv
    | inr (e, read) ↦ elim (Option-cases e.pools) [
      | inl shut ↦ rw (read, close_entry, shut) inv
      | inr (pools, there) ↦
          rw (read, close_entry, there) (frame-Inv settings own m.metrics m.spawned _ m inv)
    ]
  ]

  close_stale-Inv :
      (others : String → Others) (names : List String) (count : ℕ) (m : DatabaseManager)
      → ((name : String) → IsFair settings (others name))
      → Inv settings own m
      → Inv settings own (close_stale others names count m).1
  unfolding close_stale
  close_stale-Inv others [] count m fair inv = inv
  close_stale-Inv others (name ∷ names) count m fair inv = elim (take_entry_cases name m) [
    | inl (same, _) ↦ rw (same, close_stale, same) (close_stale-Inv others names count m fair inv)
    | inr (id, e, found, read, idle, took) ↦
        let gone = close_entry-Inv id _ (taken-Inv settings own name id e m read idle inv) in
        rw (took, close_stale, took)
          (close_stale-Inv others names (count + 1) _ fair (fair name own _ gone))
  ]

  -- Where the invariant holds and the other tasks keep it, so does closing the idle databases.
  pub cleanup_idle-Inv :
      (others : String → Others) (now : ℕ) (m : DatabaseManager)
      → ((name : String) → IsFair settings (others name))
      → Inv settings own m
      → Inv settings own (cleanup_idle others settings now m).1
  unfolding cleanup_idle
  cleanup_idle-Inv others now m fair inv =
      count-Inv settings own _ _ (close_stale-Inv others _ 0 m fair inv)

  checkpoint_entry-Inv :
      (round : Round) (id : ℕ) (m : DatabaseManager)
      → IsFair settings round.others
      → length own + 1 < many
      → Inv settings own m
      → Inv settings own (checkpoint_entry round id m).1
  unfolding checkpoint_entry drop_lease
  checkpoint_entry-Inv round id m fair few inv = elim (lease-Inv settings own id m few inv) [
    | inl same ↦ rw (same, checkpoint_entry) inv
    | inr (granted, leased) ↦
        let m' = (lease id m).1 in
        elim (Bool-cases (is_open id m')) [
          | inr shut ↦
              rw (granted, checkpoint_entry, shut)
                (drop-Inv settings own round.dropped_ms (bare id) m' leased)
          | inl there ↦
              rw (granted, checkpoint_entry, there)
                (drop-Inv settings own round.dropped_ms (bare id) _ (
                  fair (bare id ∷ own) _
                    (frame-Inv settings (bare id ∷ own) m'.metrics m'.spawned _ m' leased)))
        ]
  ]

  checkpoint_entries-Inv :
      (rounds : ℕ → Round) (visited : List ℕ) (checkpointed : ℕ) (m : DatabaseManager)
      → ((id : ℕ) → IsFair settings (rounds id).others)
      → length own + 1 < many
      → Inv settings own m
      → Inv settings own (checkpoint_entries rounds visited checkpointed m).1
  unfolding checkpoint_entries
  checkpoint_entries-Inv rounds [] checkpointed m fair few inv = inv
  checkpoint_entries-Inv rounds (id ∷ rest) checkpointed m fair few inv =
      checkpoint_entries-Inv rounds rest _ _ fair few
        (checkpoint_entry-Inv (rounds id) id m (fair id) few inv)

  -- Where the invariant holds, the other tasks keep it and the task has room for one more lease below
  -- 2 ^ 63, a checkpoint of every database keeps it for the same leases: each lease that it takes is
  -- given back, also for a database that is not open and for a statement that fails.
  pub checkpoint_wal-Inv :
      (rounds : ℕ → Round) (m : DatabaseManager)
      → ((id : ℕ) → IsFair settings (rounds id).others)
      → length own + 1 < many
      → Inv settings own m
      → Inv settings own (checkpoint_wal rounds m).1
  unfolding checkpoint_wal
  checkpoint_wal-Inv rounds m fair few inv =
      count-Inv settings own _ _ (checkpoint_entries-Inv rounds _ 0 m fair few inv)

  close_entries-Inv :
      (others : ℕ → Others) (visited : List ℕ) (m : DatabaseManager)
      → ((id : ℕ) → IsFair settings (others id))
      → Inv settings own m
      → Inv settings own (close_entries others visited m)
  unfolding close_entries
  close_entries-Inv others [] m fair inv = inv
  close_entries-Inv others (id ∷ rest) m fair inv =
      close_entries-Inv others rest _ fair
        (fair id own _ (close_entry-Inv id _ (begin_close-Inv settings own id m inv)))

  -- Where the invariant holds and the other tasks keep it, so does closing every database, also with
  -- leases still out.
  pub close_all-Inv :
      (others : ℕ → Others) (m : DatabaseManager)
      → ((id : ℕ) → IsFair settings (others id))
      → Inv settings own m
      → Inv settings own (close_all others m)
  unfolding close_all
  close_all-Inv others m fair inv =
      close_entries-Inv others (ids m.entries) (record m { entries = [] }) fair
        (record {
          capacity = omega arith;
          distinct = tt;
          linked = tt;
          own_allocated = inv.own_allocated;
          others_allocated = inv.others_allocated;
          accounts = inv.accounts;
          process = inv.process;
          own_few = inv.own_few;
          few = inv.few;
        })

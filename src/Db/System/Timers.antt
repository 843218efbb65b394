-- ===== src/Db/System/Timers.antt =====
-- `cleanup_idle`, `checkpoint_wal` and `close_all` of src/db.rs, among the other tasks, as steps of
-- the manager.
use tinkiva_sqllite_server.Prelude.{
  ℕ, String, ◌+◌, ◌<◌, List, [], ◌∷◌, arith, length, inl, inr, Bool-cases, Option-cases,
}
use tinkiva_sqllite_server.Config.{DatabaseSettings}
use tinkiva_sqllite_server.Metrics
use tinkiva_sqllite_server.Db.State.{
  DatabaseManager, begin_close, drop, drop_lease, count, modify, checkpoint_passive,
}
use tinkiva_sqllite_server.Db.State.Cases.{lease_cases}
use tinkiva_sqllite_server.Db.Evict.{take_entry, close_entry}
use tinkiva_sqllite_server.Db.Acquire.{Others}
use tinkiva_sqllite_server.Db.Invariant.Steps.{bare}
use tinkiva_sqllite_server.Db.Maintenance.{
  stale, cutoff, close_stale, cleanup_idle, Round, is_open, checkpoint_entry, checkpoint_entries,
  checkpoint_wal, ids, close_entries, close_all,
}
use tinkiva_sqllite_server.Db.System.{
  counted, taken, closed_entry, logged, begun_close, unlinked_all, Steps, done, before, Steps-trans,
  Steps-wider, others_room, IsScheduled, Led, Led-trans,
}
use tinkiva_sqllite_server.Db.System.Frame.{drop_leases}
use tinkiva_sqllite_server.Db.System.Beside.{Steps-adding, Steps-few, Still-few}
use tinkiva_sqllite_server.Db.System.Own.{drop_step}
use tinkiva_sqllite_server.Db.System.Acquire.Rounds.{lease_step}

module _ {settings : DatabaseSettings} where
  -- A task that takes no lease is as good as another.
  Steps-Led :
      {m m' : DatabaseManager}
      → Steps settings others_room m m'
      → length m.leases < others_room
      → Led settings m m'
  Steps-Led steps few = record {
    steps = Steps-wider (omega arith) steps;
    few = Steps-few steps few;
  }

  close_stale-Steps :
      {room : ℕ} (others : String → Others) (names : List String) (closed : ℕ) (m : DatabaseManager)
      → ((name : String) (m : DatabaseManager) → Steps settings room m (others name m))
      → Steps settings room m (close_stale others names closed m).1
  unfolding close_stale
  close_stale-Steps others [] closed m scheduled = done
  close_stale-Steps others (name ∷ names) closed m scheduled =
      let m' = (take_entry name m).1 in
      elim (Option-cases (take_entry name m).0) [
        | inl same ↦
            rw (same, close_stale)
              (before (taken name) (close_stale-Steps others names closed m' scheduled))
        | inr (id, took) ↦
            rw (took, close_stale)
              (before (taken name) (
                before (closed_entry id) (
                  Steps-trans (scheduled name (close_entry id m')) (
                    close_stale-Steps others names (closed + 1) (others name (close_entry id m'))
                      scheduled))))
      ]

  pub cleanup_idle-Led :
      (others : String → Others) (now : ℕ) (m : DatabaseManager)
      → ((name : String) → IsScheduled settings (others name))
      → length m.leases < others_room
      → Led settings m (cleanup_idle others settings now m).1
  unfolding cleanup_idle count
  cleanup_idle-Led others now m scheduled few =
      let names = stale (cutoff settings now) m.heap m.entries in
      Steps-Led
        (Steps-trans (close_stale-Steps others names 0 m scheduled)
          (before (counted (Metrics.record_idle_close (close_stale others names 0 m).0)) done))
        few

  close_entries-Steps :
      {room : ℕ} (others : ℕ → Others) (ids : List ℕ) (m : DatabaseManager)
      → ((id : ℕ) (m : DatabaseManager) → Steps settings room m (others id m))
      → Steps settings room m (close_entries others ids m)
  unfolding close_entries
  close_entries-Steps others [] m scheduled = done
  close_entries-Steps others (id ∷ rest) m scheduled =
      let m' = close_entry id (begin_close id m).1 in
      before (begun_close id) (
        before (closed_entry id) (
          Steps-trans (scheduled id m') (close_entries-Steps others rest (others id m') scheduled)))

  pub close_all-Led :
      (others : ℕ → Others) (m : DatabaseManager)
      → ((id : ℕ) → IsScheduled settings (others id))
      → length m.leases < others_room
      → Led settings m (close_all others m)
  unfolding close_all
  close_all-Led others m scheduled few =
      Steps-Led
        (before unlinked_all
          (close_entries-Steps others (ids m.entries) (record m { entries = [] }) scheduled))
        few

  -- A round of the loop of `checkpoint_wal`.
  checkpoint_entry-Led :
      (round : Round) (id : ℕ) (m : DatabaseManager)
      → IsScheduled settings round.others
      → length m.leases < others_room
      → Led settings m (checkpoint_entry round id m).1
  unfolding checkpoint_entry drop_lease
  checkpoint_entry-Led round id m scheduled few = elim (lease_cases id m) [
    | inl (shut, _) ↦ rw (shut, checkpoint_entry) (record { steps = done; few = few })
    | inr (e, read, _, granted) ↦
        let leased = modify id (λ _. record e { active_leases = e.active_leases + 1 }) m in
        let (step, same) = lease_step id m leased granted few in
        let few' : length leased.leases < others_room = rw same few in
        elim (Bool-cases (is_open id leased)) [
          | inr shut ↦
              rw (granted, checkpoint_entry, shut)
                (record {
                  steps = before step (before (drop_step round.dropped_ms (bare id) leased) done);
                  few =
                      Still-few others_room (drop round.dropped_ms (bare id)) leased
                        (drop_leases round.dropped_ms (bare id)) few';
                })
          | inl pools ↦
              let noted = record leased { events = checkpoint_passive id ∷ leased.events } in
              rw (granted, checkpoint_entry, pools)
                (record {
                  steps = before step (
                      before (logged (checkpoint_passive id)) (
                        Steps-trans (Steps-adding (bare id) (scheduled noted)) (
                          before (drop_step round.dropped_ms (bare id) (round.others noted))
                            done)));
                  few =
                      Still-few others_room (drop round.dropped_ms (bare id)) (round.others noted)
                        (drop_leases round.dropped_ms (bare id)) (Steps-few (scheduled noted) few');
                })
        ]
  ]

  checkpoint_entries-Led :
      (rounds : ℕ → Round) (ids : List ℕ) (checkpointed : ℕ) (m : DatabaseManager)
      → ((id : ℕ) → IsScheduled settings (rounds id).others)
      → length m.leases < others_room
      → Led settings m (checkpoint_entries rounds ids checkpointed m).1
  unfolding checkpoint_entries
  checkpoint_entries-Led rounds [] checkpointed m scheduled few = record { steps = done; few = few }
  checkpoint_entries-Led rounds (id ∷ rest) checkpointed m scheduled few =
      let round = checkpoint_entry-Led (rounds id) id m (scheduled id) few in
      Led-trans round (
        checkpoint_entries-Led rounds rest _ (checkpoint_entry (rounds id) id m).1 scheduled
          round.few)

  pub checkpoint_wal-Led :
      (rounds : ℕ → Round) (m : DatabaseManager)
      → ((id : ℕ) → IsScheduled settings (rounds id).others)
      → length m.leases < others_room
      → Led settings m (checkpoint_wal rounds m).1
  unfolding checkpoint_wal count
  checkpoint_wal-Led rounds m scheduled few =
      let all = checkpoint_entries-Led rounds (ids m.entries) 0 m scheduled few in
      let made = (checkpoint_entries rounds (ids m.entries) 0 m).0 in
      record {
        steps = Steps-trans all.steps (before (counted (Metrics.record_checkpoints made)) done);
        few = all.few;
      }

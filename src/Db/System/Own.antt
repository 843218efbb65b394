-- ===== src/Db/System/Own.antt =====
-- The steps of a task of src/db.rs while it acquires a database, beside its own lease.
use tinkiva_sqllite_server.Prelude.{ℕ, String, ◌<◌, ◌≡◌, sym, ap, ◌∙◌, ◌∷◌, ok, err, arith, length}
use mathlib.Core.Path.{subst}
use tinkiva_sqllite_server.Error.{AppError, overloaded}
use tinkiva_sqllite_server.Config.{DatabaseSettings}
use tinkiva_sqllite_server.Metrics
use tinkiva_sqllite_server.Db.State.{DatabaseManager, DatabaseLease, Hold, hold_of, count, drop}
use tinkiva_sqllite_server.Db.Acquire.{Turn, Outcome, remove_if, ensure_open}
use tinkiva_sqllite_server.Db.Invariant.{many}
use tinkiva_sqllite_server.Db.Tenancy.{IsNamed, Tenant, Tenancy, IsKept-IsNamed}
use tinkiva_sqllite_server.Db.System.{
  first, Step, opened, unlinked, counted, dropped, Steps, done, before, Steps-trans, others_room,
}
use tinkiva_sqllite_server.Db.System.Frame.{
  having, adding, drop_leases, ensure_open_leases, remove_if_leases,
}
use tinkiva_sqllite_server.Db.System.Beside.{from_blind, from_still, Steps-few, Still-few}
use tinkiva_sqllite_server.Db.System.Apart.{Steps-Tenant}

-- Steps lead from `start` to the end of `acquire`, with its lease among the others' if it gives one,
-- and the others have room again.
pub record Stepped (settings : DatabaseSettings) (start : DatabaseManager) (r : Outcome)
    : Type 0 where
  pub given : (l : DatabaseLease) → r.0 ≡ ok l → Steps settings many start (adding (hold_of l) r.1)
  pub refused : (e : AppError) → r.0 ≡ err e → Steps settings many start r.1
  pub few : length r.1.leases < others_room

-- What a task relies on at an `await`: the tenants are apart, its entry has the name that it looked
-- up, and the others have room.
pub record Ready (settings : DatabaseSettings) (name : String) (id : ℕ) (m : DatabaseManager)
    : Type 0 where
  pub tenancy : Tenancy settings m
  pub named : IsNamed m.heap name id
  pub few : length m.leases < others_room

module _ {settings : DatabaseSettings} where
  pub chain-Stepped :
      {start m : DatabaseManager} {r : Outcome}
      → Steps settings many start m
      → Stepped settings m r
      → Stepped settings start r
  chain-Stepped steps rest = record {
    given = λ l h. Steps-trans steps (rest.given l h);
    refused = λ e h. Steps-trans steps (rest.refused e h);
    few = rest.few;
  }

  pub before-Stepped :
      {start m : DatabaseManager} {r : Outcome}
      → Step settings many start m
      → Stepped settings m r
      → Stepped settings start r
  before-Stepped step rest = chain-Stepped (before step done) rest

  pub refused-Stepped :
      {start m : DatabaseManager} (error : AppError)
      → length m.leases < others_room
      → Steps settings many start m
      → Stepped settings start (err error, m)
  refused-Stepped error few steps = record {
    given = λ l h. absurd (ground arith);
    refused = λ e h. steps;
    few = few;
  }

  pub Ready-after :
      {name : String} {id : ℕ} {m m' : DatabaseManager}
      → Tenant settings m m'
      → length m'.leases < others_room
      → Ready settings name id m
      → Ready settings name id m'
  Ready-after {name} {id} {m} {m'} kept few ready = record {
    tenancy = kept.tenancy;
    named = IsKept-IsNamed m.heap m'.heap name id kept.kept ready.named;
    few = few;
  }

  -- The others' turn.
  pub Ready-others :
      {name : String} {id : ℕ} {m m' : DatabaseManager}
      → Steps settings others_room m m'
      → Ready settings name id m
      → Ready settings name id m'
  Ready-others steps ready =
      Ready-after (Steps-Tenant settings steps ready.tenancy) (Steps-few steps ready.few) ready

  -- The end of a lease that the manager has among the others'.
  pub drop_step :
      (now : ℕ) (h : Hold) (m : DatabaseManager) → Step settings many (adding h m) (drop now h m)
  drop_step now h m =
      subst (Step settings many (adding h m))
        (ap (having m.leases) (drop_leases now h m (h ∷ m.leases))
          ∙ sym (drop_leases now h m m.leases))
        (dropped now h first)

  pub open_step :
      (turn : Turn) (name : String) (id : ℕ) (h : Hold) (m : DatabaseManager)
      → IsNamed m.heap name id
      → Step settings many (adding h m) (adding h (ensure_open turn settings name id m).1)
  open_step turn name id h m (e, read, same) =
      from_blind h (ensure_open turn settings name id) m (ensure_open_leases turn settings name id)
        (subst
          (λ n. Step settings many (adding h m) (ensure_open turn settings n id (adding h m)).1)
          same (opened turn id e read))

  pub unlink_step :
      (name : String) (id : ℕ) (h : Hold) (m : DatabaseManager)
      → Step settings many (adding h m) (adding h (remove_if name id m))
  unlink_step name id h m =
      from_still h (remove_if name id) m (remove_if_leases name id) (unlinked name id)

  pub shed_step :
      (now : ℕ) (h : Hold) (m : DatabaseManager)
      → length m.leases < others_room
      → Stepped settings (adding h m) (err overloaded, drop now h (count Metrics.record_shed m))
  unfolding count
  shed_step now h m few = before-Stepped (counted Metrics.record_shed) (
      refused-Stepped overloaded
        (Still-few others_room (drop now h) (count Metrics.record_shed m) (drop_leases now h) few)
        (before (drop_step now h (count Metrics.record_shed m)) done))

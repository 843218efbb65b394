-- ===== src/Db/System/Beside.antt =====
-- The steps of the manager of src/db.rs beside one more lease.
use tinkiva_sqllite_server.Prelude.{ℕ, ◌+◌, ◌<◌, ◌≡◌, sym, ap, ◌∙◌, Bool, List, ◌∷◌, arith, length}
use mathlib.Core.Path.{subst}
use tinkiva_sqllite_server.Config.{DatabaseSettings}
use tinkiva_sqllite_server.Db.State.{DatabaseManager, Hold, modify, count, touch, begin_close}
use tinkiva_sqllite_server.Db.Evict.{slot_locked, take_entry, close_entry}
use tinkiva_sqllite_server.Db.Acquire.{remove_if, ensure_open}
use tinkiva_sqllite_server.Db.System.{
  Select, first, next, Step, slotted, leased, took_tenant, took_process, opened, unlinked, touched,
  counted, dropped, swapped, taken, closed_entry, logged, begun_close, unlinked_all, Steps, done,
  before,
}
use tinkiva_sqllite_server.Db.System.Frame.{
  having, adding, Blind, Still, drop_leases, lease_leases, begin_close_leases, take_entry_leases,
  slot_locked_leases, ensure_open_leases, remove_if_leases, close_entry_leases,
}

module _ (h : Hold) where
  -- What does not look at the leases leaves them.
  Still-adding :
      (f : DatabaseManager → DatabaseManager) (m : DatabaseManager)
      → Still f
      → f (adding h m) ≡ adding h (f m)
  Still-adding f m still =
      still m (h ∷ m.leases)
      ∙ ap (λ leases. having (h ∷ leases) (f m))
          (sym (ap (λ (m : DatabaseManager). m.leases) (still m m.leases)))

  Blind-adding :
      {A : Type 0} (f : DatabaseManager → A × DatabaseManager) (m : DatabaseManager)
      → Blind f
      → (f (adding h m)).1 ≡ adding h (f m).1
  Blind-adding f m blind =
      Still-adding (λ m. (f m).1) m (λ m leases. ap (λ r. r.1) (blind m leases))

module _ {settings : DatabaseSettings} (h : Hold) where
  pub from_blind :
      {A : Type 0} {room : ℕ} (f : DatabaseManager → A × DatabaseManager) (m : DatabaseManager)
      → Blind f
      → Step settings room (adding h m) (f (adding h m)).1
      → Step settings room (adding h m) (adding h (f m).1)
  from_blind f m blind step = subst (Step settings _ (adding h m)) (Blind-adding h f m blind) step

  pub from_still :
      {room : ℕ} (f : DatabaseManager → DatabaseManager) (m : DatabaseManager)
      → Still f
      → Step settings room (adding h m) (f (adding h m))
      → Step settings room (adding h m) (adding h (f m))
  from_still f m still step = subst (Step settings _ (adding h m)) (Still-adding h f m still) step

  -- A step goes the same way beside one more lease, with room for it.
  pub Step-adding :
      {room : ℕ} {m m' : DatabaseManager}
      → Step settings room m m'
      → Step settings (room + 1) (adding h m) (adding h m')
  unfolding touch modify count
  Step-adding {room} {m} (slotted now name) =
      from_blind (slot_locked settings now name) m (slot_locked_leases settings now name)
        (slotted now name)
  Step-adding {room} {m} (leased {after} id granted s few) =
      let same = lease_leases id m (h ∷ m.leases) in
      subst (Step settings (room + 1) (adding h m))
        (ap (λ (r : Bool × DatabaseManager). having (h ∷ after) r.1) same)
        (leased id (ap (λ (r : Bool × DatabaseManager). r.0) same ∙ granted) (next s)
          (omega (arith, few)))
  Step-adding (took_tenant id e s s' read left) = took_tenant id e (next s) (next s') read left
  Step-adding (took_process id s s' left) = took_process id (next s) (next s') left
  Step-adding {room} {m} (opened turn id e read) =
      from_blind (ensure_open turn settings e.name id) m
        (ensure_open_leases turn settings e.name id) (opened turn id e read)
  Step-adding {room} {m} (unlinked name id) =
      from_still (remove_if name id) m (remove_if_leases name id) (unlinked name id)
  Step-adding (touched id now) = touched id now
  Step-adding (counted f) = counted f
  Step-adding {room} {m} (dropped {rest} now k s) =
      subst (Step settings (room + 1) (adding h m))
        (ap (having (h ∷ rest)) (drop_leases now k m (h ∷ m.leases))) (dropped now k (next s))
  Step-adding (swapped s) = swapped s
  Step-adding {room} {m} (taken name) =
      from_blind (take_entry name) m (take_entry_leases name) (taken name)
  Step-adding {room} {m} (closed_entry id) =
      from_still (close_entry id) m (close_entry_leases id) (closed_entry id)
  Step-adding (logged event) = logged event
  Step-adding {room} {m} (begun_close id) =
      from_blind (begin_close id) m (begin_close_leases id) (begun_close id)
  Step-adding unlinked_all = unlinked_all

  pub Steps-adding :
      {room : ℕ} {m m' : DatabaseManager}
      → Steps settings room m m'
      → Steps settings (room + 1) (adding h m) (adding h m')
  Steps-adding done = done
  Steps-adding (before step steps) = before (Step-adding step) (Steps-adding steps)

Select-length : {h : Hold} {hs rest : List Hold} → Select h hs rest → length hs ≡ length rest + 1
Select-length first = omega arith
Select-length (next s) = ground (arith, Select-length s)

same_few :
    (room : ℕ) (m m' : DatabaseManager)
    → m'.leases ≡ m.leases
    → length m.leases < room
    → length m'.leases < room
same_few room m m' same few = rw same few

pub Still-few :
    (room : ℕ) (f : DatabaseManager → DatabaseManager) (m : DatabaseManager)
    → Still f
    → length m.leases < room
    → length (f m).leases < room
Still-few room f m still few = rw (ap (λ (m : DatabaseManager). m.leases) (still m m.leases)) few

pub Blind-few :
    {A : Type 0} (room : ℕ) (f : DatabaseManager → A × DatabaseManager) (m : DatabaseManager)
    → Blind f
    → length m.leases < room
    → length (f m).1.leases < room
Blind-few room f m blind few =
    Still-few room (λ m. (f m).1) m (λ m leases. ap (λ r. r.1) (blind m leases)) few

module _ {settings : DatabaseSettings} where
  Step-few :
      {room : ℕ} {m m' : DatabaseManager}
      → Step settings room m m'
      → length m.leases < room
      → length m'.leases < room
  unfolding touch modify count
  Step-few {room} {m} (slotted now name) few =
      Blind-few room (slot_locked settings now name) m (slot_locked_leases settings now name) few
  Step-few (leased id granted s room) few = omega (arith, Select-length s, room)
  Step-few (took_tenant id e s s' read left) few =
      omega (arith, Select-length s, Select-length s', few)
  Step-few (took_process id s s' left) few = omega (arith, Select-length s, Select-length s', few)
  Step-few {room} {m} (opened turn id e read) few =
      Blind-few room (ensure_open turn settings e.name id) m
        (ensure_open_leases turn settings e.name id) few
  Step-few {room} {m} (unlinked name id) few =
      Still-few room (remove_if name id) m (remove_if_leases name id) few
  Step-few (touched id now) few = few
  Step-few (counted f) few = few
  Step-few (dropped now h s) few = omega (arith, Select-length s, few)
  Step-few (swapped s) few = few
  Step-few {room} {m} (taken name) few =
      Blind-few room (take_entry name) m (take_entry_leases name) few
  Step-few {room} {m} (closed_entry id) few =
      Still-few room (close_entry id) m (close_entry_leases id) few
  Step-few (logged event) few = few
  Step-few {room} {m} (begun_close id) few =
      Blind-few room (begin_close id) m (begin_close_leases id) few
  Step-few unlinked_all few = few

  pub Steps-few :
      {room : ℕ} {m m' : DatabaseManager}
      → Steps settings room m m'
      → length m.leases < room
      → length m'.leases < room
  Steps-few done few = few
  Steps-few (before step steps) few = Steps-few steps (Step-few step few)

-- ===== src/Db/System.antt =====
-- The manager of src/db.rs under all of its tasks at once: a step is what one task does from one
-- `await` to the next, or a part of that. `leases` has the leases of every task.
use tinkiva_sqllite_server.Prelude.{
  ℕ, String, ◌+◌, ◌-◌, ◌<◌, ◌≤◌, ◌≡◌, ◌≢◌, true, Option, none, some, List, [], ◌∷◌, length,
  get_elem?, arith,
}
use tinkiva_sqllite_server.Config.{DatabaseSettings}
use tinkiva_sqllite_server.Metrics.{Metrics}
use tinkiva_sqllite_server.Db.Entry.{DatabaseEntry}
use tinkiva_sqllite_server.Db.Registry.{Entries}
use tinkiva_sqllite_server.Db.State.{
  DatabaseManager, PoolEvent, Hold, new, modify, count, lease, begin_close, touch, drop,
}
use tinkiva_sqllite_server.Db.Evict.{take_entry, close_entry, slot_locked}
use tinkiva_sqllite_server.Db.Acquire.{Others, Turn, remove_if, ensure_open}
use tinkiva_sqllite_server.Db.Invariant.{many}
use tinkiva_sqllite_server.Db.Invariant.Steps.{bare, queued, admitted}
pub mod Order
pub mod Sound
pub mod Apart
pub mod Frame
pub mod Beside
pub mod Own
pub mod Acquire
pub mod Timers
pub mod Timed
pub mod Stats
pub mod Given
mod Tests

-- `Select h whole rest`: `whole` is `rest` with `h` put in somewhere.
pub data Select (h : Hold) : List Hold → List Hold → Type 0 where
  first : {hs : List Hold} → Select h (h ∷ hs) hs
  next : {x : Hold} {hs rest : List Hold} → Select h hs rest → Select h (x ∷ hs) (x ∷ rest)

-- Two neighbours change places.
pub data Swapped : Entries → Entries → Type 0 where
  here :
      {name other : String} {id id' : ℕ} {es : Entries}
      → Swapped ((name, id) ∷ (other, id') ∷ es) ((other, id') ∷ (name, id) ∷ es)
  later :
      {name : String} {id : ℕ} {es es' : Entries}
      → Swapped es es'
      → Swapped ((name, id) ∷ es) ((name, id) ∷ es')

-- A step while there are fewer leases than `room`. `slotted` is a task at the admission lock,
-- `leased` one that counts itself on an entry, `took_tenant` and `took_process` are the ends of the
-- two waits, `opened` is `ensure_open` under the name of the entry. `dropped` is the end of a lease
-- at any stage: the answer of a request, an error, or a future that a timeout drops. The last five
-- are `cleanup_idle`, `checkpoint_wal` and `close_all`. `swapped` is no code: it gives
-- the map another order, since the one in which `iter` visits it is not fixed.
pub data Step (settings : DatabaseSettings) (room : ℕ)
    : DatabaseManager → DatabaseManager → Type 0 where
  slotted :
      {m : DatabaseManager} (now : ℕ) (name : String)
      → Step settings room m (slot_locked settings now name m).1
  leased :
      {m : DatabaseManager} {after : List Hold} (id : ℕ)
      → (lease id m).0 ≡ true
      → Select (bare id) after m.leases
      → length m.leases + 1 < room
      → Step settings room m (record (lease id m).1 { leases = after })
  took_tenant :
      {m : DatabaseManager} {rest after : List Hold} (id : ℕ) (e : DatabaseEntry)
      → Select (bare id) m.leases rest
      → Select (queued id) after rest
      → get_elem? m.heap id ≡ some e
      → e.slots ≢ 0
      → Step settings room m
          (record (modify id (λ e. record e { slots = e.slots - 1 }) m) { leases = after })
  took_process :
      {m : DatabaseManager} {rest after : List Hold} (id : ℕ)
      → Select (queued id) m.leases rest
      → Select (admitted id) after rest
      → m.slots ≢ 0
      → Step settings room m (record m { slots = m.slots - 1; leases = after })
  opened :
      {m : DatabaseManager} (turn : Turn) (id : ℕ) (e : DatabaseEntry)
      → get_elem? m.heap id ≡ some e
      → Step settings room m (ensure_open turn settings e.name id m).1
  unlinked :
      {m : DatabaseManager} (name : String) (id : ℕ) → Step settings room m (remove_if name id m)
  touched : {m : DatabaseManager} (id now : ℕ) → Step settings room m (touch id now m)
  counted : {m : DatabaseManager} (f : Metrics → Metrics) → Step settings room m (count f m)
  dropped :
      {m : DatabaseManager} {rest : List Hold} (now : ℕ) (h : Hold)
      → Select h m.leases rest
      → Step settings room m (record (drop now h m) { leases = rest })
  swapped :
      {m : DatabaseManager} {entries : Entries}
      → Swapped m.entries entries
      → Step settings room m (record m { entries = entries })
  taken : {m : DatabaseManager} (name : String) → Step settings room m (take_entry name m).1
  closed_entry : {m : DatabaseManager} (id : ℕ) → Step settings room m (close_entry id m)
  logged :
      {m : DatabaseManager} (event : PoolEvent)
      → Step settings room m (record m { events = event ∷ m.events })
  begun_close : {m : DatabaseManager} (id : ℕ) → Step settings room m (begin_close id m).1
  unlinked_all : {m : DatabaseManager} → Step settings room m (record m { entries = [] })

pub data Steps (settings : DatabaseSettings) (room : ℕ)
    : DatabaseManager → DatabaseManager → Type 0 where
  done : {m : DatabaseManager} → Steps settings room m m
  before :
      {m m' m'' : DatabaseManager}
      → Step settings room m m'
      → Steps settings room m' m''
      → Steps settings room m m''

pub Steps-trans :
    {settings : DatabaseSettings} {room : ℕ} {m m' m'' : DatabaseManager}
    → Steps settings room m m'
    → Steps settings room m' m''
    → Steps settings room m m''
Steps-trans done second = second
Steps-trans (before step steps) second = before step (Steps-trans steps second)

Step-wider :
    {settings : DatabaseSettings} {room room' : ℕ} {m m' : DatabaseManager}
    → room ≤ room'
    → Step settings room m m'
    → Step settings room' m m'
Step-wider wider (slotted now name) = slotted now name
Step-wider wider (leased id granted s few) = leased id granted s (omega (arith, few, wider))
Step-wider wider (took_tenant id e s s' read left) = took_tenant id e s s' read left
Step-wider wider (took_process id s s' left) = took_process id s s' left
Step-wider wider (opened turn id e read) = opened turn id e read
Step-wider wider (unlinked name id) = unlinked name id
Step-wider wider (touched id now) = touched id now
Step-wider wider (counted f) = counted f
Step-wider wider (dropped now h s) = dropped now h s
Step-wider wider (swapped s) = swapped s
Step-wider wider (taken name) = taken name
Step-wider wider (closed_entry id) = closed_entry id
Step-wider wider (logged event) = logged event
Step-wider wider (begun_close id) = begun_close id
Step-wider wider unlinked_all = unlinked_all

pub Steps-wider :
    {settings : DatabaseSettings} {room room' : ℕ} {m m' : DatabaseManager}
    → room ≤ room'
    → Steps settings room m m'
    → Steps settings room' m m'
Steps-wider wider done = done
Steps-wider wider (before step steps) = before (Step-wider wider step) (Steps-wider wider steps)

-- The states that any interleaving of the tasks leads to.
abbrev pub Reach : DatabaseSettings → DatabaseManager → Type 0
Reach settings m = Steps settings many (new settings) m

-- The others leave room for one lease of the task that waits.
abbrev pub others_room : ℕ
others_room = 9_223_372_036_854_775_807

-- Other tasks that do nothing but such steps.
abbrev pub IsScheduled : DatabaseSettings → Others → Type 0
IsScheduled settings others = (m : DatabaseManager) → Steps settings others_room m (others m)

pub record Scheduled (settings : DatabaseSettings) (turn : Turn) : Type 0 where
  pub at_lock : IsScheduled settings turn.at_lock
  pub at_yield : IsScheduled settings turn.at_yield
  pub at_tenant : IsScheduled settings turn.at_tenant
  pub at_process : IsScheduled settings turn.at_process
  pub at_open : IsScheduled settings turn.at_open

-- A task that has led from `m` to `m'` with no lease of its own left, and room among the others.
pub record Led (settings : DatabaseSettings) (m m' : DatabaseManager) : Type 0 where
  pub steps : Steps settings many m m'
  pub few : length m'.leases < others_room

pub Led-trans :
    {settings : DatabaseSettings} {m m' m'' : DatabaseManager}
    → Led settings m m'
    → Led settings m' m''
    → Led settings m m''
Led-trans one two = record { steps = Steps-trans one.steps two.steps; few = two.few }

-- ===== src/Lib.antt =====
-- Tinkiva SQLite server: one process that serves many SQLite databases, one file per tenant.
--
-- The program and its model
-- - `src/db.rs` keeps the databases that are open. `Db/Names` is the check of a database name and
--   the file that it stands for, `Db/Pools` what `open_pools` asks of the SQLite pools, `Db/Entry`
--   an entry of the manager: its lease counter, its cell of pools and its semaphore. `Db/Registry`
--   is the map from names to entries, `Db/State` the manager. `Db/Evict` has `slot` with the
--   eviction that makes room in it, `Db/Acquire` has `acquire`, with `Db/Acquire/Timed` for a
--   request whose future is dropped meanwhile, and `Db/Maintenance` what runs on timers and at
--   shutdown. `Db/Invariant` is what holds of the counts whenever a task runs,
--   `Db/Tenancy` what holds of the files behind the entries. `Db/System` puts the parts of all
--   tasks together in one relation of steps, in which the map of entries may take another order at
--   any time.
-- - `src/config.rs` is `Config`: defaults, the environment, the checks.
-- - `src/metrics.rs` is `Metrics`: the counters and histograms that the manager and the API record,
--   and in `Metrics/Render` the text of them.
-- - `src/error.rs` is `Error`: the errors and their HTTP responses.
-- - `src/api.rs` is `Api`, which has the check of the token itself. `Api/Json` are JSON values,
--   `Api/Bind` is a request up to its bound parameters, `Api/Rows` the conversion of rows and the
--   loop of `query`, `Api/Serialize` the JSON of the responses, `Api/Batch` the transaction of
--   `batch`, and `Api/Handlers` the three handlers with `observe` and `authorize` around them,
--   in `Api/Handlers/Timed` with the timeout of `router` too;
--   `Api/Admin` has those that only read.
-- - `src/main.rs` is `Server`: the start, the requests and timers while it runs, and the shutdown
--   that closes the databases.
-- - `Prelude` has what these share: numbers and their tests, lists, results, the bytes of a text.
-- A handler takes a lease from the manager, works on its pools, and gives it back. The manager
-- records metrics, reads the settings, and answers with errors of `src/error.rs`.
--
-- How code becomes definitions
-- - A struct is a record, an enum a data type, and an operation a function from the state to its
--   result and the next state. An entry behind an `Arc` is an address in `heap`; two names, or a
--   name and a lease, share an entry if they have the same address.
-- - A task runs from one `await` to the next as one step. What the other tasks do at an `await` is
--   an argument, a function on the state (`Others`); the theorems ask of it that it keeps the
--   invariant that they are about. `Db/System` has the steps of all tasks. The only finer step is
--   the compare-and-exchange loop of `DatabaseEntry::lease`, in `Db/Entry`.
-- - Times are numbers: a clock reading in milliseconds, a duration in nanoseconds. Numbers of a
--   machine width wrap where the source wraps; products of settings wrap, as in a release build.
-- - SQLite, the file system, the environment and the parsers are parameters: `connect` says how
--   opening a pool ends, `succeeds` how a checkpoint does, `var`, `parse`, `read` and `from_toml`
--   what the settings are read from. `Service` and `Engine` are what sqlx answers on the pools of a
--   lease and in a transaction, `encode` is base64, `seconds` the text of a float, `to_text` the
--   text of a JSON value, and `as_f64` the float nearest to an integer, which only integers out of
--   both 64-bit ranges would need.
--
-- Bounds
-- - The digits of a number are counted on one more step of fuel than the number has, which is more than
--   its digits.
-- - `acquire` makes at most 16 rounds and `slot` at most 16 evictions, as in the source; the rounds
--   are counted down, so no fuel is added. Under a timeout a budget counts the awaits that end in
--   time: two in each round, two more in the last, and one for the statements.
-- - A semaphore holds at most `max_permits`, 2 ^ 61 - 1, permits, above which `Semaphore::new` panics.
--   `main` has that panic for the limit of the process. For that of a database it is left out: a
--   theorem that a request is answered or gets a lease asks that both limits are no more.
-- - `Db/Invariant` bounds the leases of a task, and those of the others, by 2 ^ 63: together they
--   stay below `closed`, the greatest number of 64 bits. A step of `Db/System` takes a lease only
--   if fewer than `room` are out after it; the other tasks of a request leave room for its own one.
--
-- Not modelled: the parsing of bodies and paths, the other layers of the router that axum and
-- tower bring, the signals and the clocks of the timers of `src/main.rs`, logging, and what SQLite does
-- with a statement.
pub mod Prelude
pub mod Error
pub mod Metrics
pub mod Server
pub mod Config
pub mod Api
pub mod Db

-- ===== src/Db/Maintenance/Shutdown.antt =====
-- `close_all` of src/db.rs on a manager that no request uses any more.
use tinkiva_sqllite_server.Prelude.{
  ℕ, ◌<◌, ◌≡◌, ◌⊎◌, inl, inr, refl, ap, sym, ◌∙◌, none, some, List, [], ◌∷◌, arith, ◌==◌, length,
  get_elem?, All, ◌++◌, Bool-cases, Option-cases, length-le_of_none,
}
use mathlib.Core.Path.{subst}
use mathlib.Core.List.{append_assoc}
use tinkiva_sqllite_server.Db.Entry.{DatabaseEntry, closed}
use tinkiva_sqllite_server.Db.Registry.{Entries, length-update, get_elem?-update, update_cases}
use tinkiva_sqllite_server.Db.State.{
  PoolEvent, close_readers, optimize, checkpoint_truncate, DatabaseManager, close_writer, modify,
  begin_close,
}
use tinkiva_sqllite_server.Db.State.Cases.{begin_close_cases}
use tinkiva_sqllite_server.Db.Evict.{close_entry}
use tinkiva_sqllite_server.Db.Acquire.{Others}
use tinkiva_sqllite_server.Db.Maintenance.{ids, close_entries, close_all}

-- No lease counts on any entry.
abbrev pub IsIdle : DatabaseManager → Type 0
IsIdle m =
    (id : ℕ) (e : DatabaseEntry)
    → get_elem? m.heap id ≡ some e
    → (e.active_leases ≡ 0) ⊎ (e.active_leases ≡ closed)

-- The entry at `id` grants no lease any more.
abbrev IsMarked : DatabaseManager → ℕ → Type 0
IsMarked m id = (e : DatabaseEntry) × (get_elem? m.heap id ≡ some e) × (e.active_leases ≡ closed)

-- The pools at `id` were closed, as the events tell, of which the last one is the first: the
-- readers, then `optimize`, then the checkpoint, then the writer.
abbrev pub AreClosed : ℕ → List PoolEvent → Type 0
AreClosed id events =
    (since before : List PoolEvent) × (events
      ≡ since
        ++ (close_writer id ∷ checkpoint_truncate id ∷ optimize id ∷ close_readers id ∷ before))

-- It is marked, and its pools were closed if there were any.
abbrev pub IsShut : DatabaseManager → ℕ → Type 0
IsShut m id =
    (e : DatabaseEntry) × (get_elem? m.heap id ≡ some e)
    × (e.active_leases ≡ closed)
    × ((e.pools ≡ none) ⊎ AreClosed id m.events)

-- What `begin_close` does to an idle manager.
record Begun (id : ℕ) (m m' : DatabaseManager) : Type 0 where
  idle : IsIdle m'
  marked : IsMarked m' id
  shut : (other : ℕ) → IsShut m other → IsShut m' other
  size : length m'.heap ≡ length m.heap
  entries : m'.entries ≡ m.entries

modify-Begun :
    (id : ℕ) (e : DatabaseEntry) (m : DatabaseManager)
    → IsIdle m
    → get_elem? m.heap id ≡ some e
    → Begun id m (modify id (λ _. record e { active_leases = closed }) m)
unfolding modify
modify-Begun id e m idle read =
    let shut_entry : DatabaseEntry = record e { active_leases = closed } in
    record {
      idle = λ other e' read'. elim (update_cases id other (λ _. shut_entry) m.heap e' read') [
        | inl (old, hit, before, written) ↦
            inr (sym (ap (λ (e : DatabaseEntry). e.active_leases) written))
        | inr (miss, before) ↦ idle other e' before
      ];
      marked = (shut_entry, ground (arith, get_elem?-update id id (λ _. shut_entry) m.heap), refl);
      shut = λ other (e', read', marked, pools). elim (Bool-cases (id == other)) [
        | inr miss ↦
            (e', ground (arith, get_elem?-update id other (λ _. shut_entry) m.heap), marked, pools)
        | inl hit ↦
            let same : e ≡ e' = ground arith in
            (
              shut_entry,
              ground (arith, get_elem?-update id other (λ _. shut_entry) m.heap),
              refl,
              subst (λ (e : DatabaseEntry). (e.pools ≡ none) ⊎ AreClosed other m.events) (sym same)
                  pools,
            )
      ];
      size = length-update id (λ _. shut_entry) m.heap;
      entries = refl;
    }

begin_close-Begun :
    (id : ℕ) (m : DatabaseManager) → IsIdle m → id < length m.heap → Begun id m (begin_close id m).1
begin_close-Begun id m idle allocated = elim (begin_close_cases id m) [
  | inr (e, read, unused, begun) ↦ rw begun (modify-Begun id e m idle read)
  | inl (same, busy) ↦ rw same (record {
    idle = idle;
    marked = elim (Option-cases (get_elem? m.heap id)) [
      | inl missing ↦ absurd (ground (arith, length-le_of_none m.heap id missing))
      | inr (e, read) ↦ (
        e,
        read,
        elim (idle id e read) [ inl unused ↦ absurd (busy e read unused) | inr shut ↦ shut ],
      )
    ];
    shut = λ other h. h;
    size = refl;
    entries = refl;
  })
]

-- What `close_entry` does to an entry that is marked.
record Closed (id : ℕ) (m m' : DatabaseManager) : Type 0 where
  heap : m'.heap ≡ m.heap
  entries : m'.entries ≡ m.entries
  entry : IsMarked m id → IsShut m' id
  shut : (other : ℕ) → IsShut m other → IsShut m' other

close_entry-Closed : (id : ℕ) (m : DatabaseManager) → Closed id m (close_entry id m)
unfolding close_entry
close_entry-Closed id m = elim (Option-cases (get_elem? m.heap id)) [
  | inl missing ↦
      rw (missing, close_entry)
        (record {
          heap = refl;
          entries = refl;
          entry = λ (e, read, marked). absurd (ground arith);
          shut = λ other h. h;
        })
  | inr (e, read) ↦ elim (Option-cases e.pools) [
    | inl none_open ↦
        rw (read, close_entry, none_open)
          (record {
            heap = refl;
            entries = refl;
            entry = λ (e', read', marked). (e, read, ground arith, inl none_open);
            shut = λ other h. h;
          })
    | inr (pools, there) ↦
        rw (read, close_entry, there)
          (record {
            heap = refl;
            entries = refl;
            entry = λ (e', read', marked). (e', read', marked, inr ([], m.events, refl));
            shut = λ other (e', read', marked, pools). (
              e',
              read',
              marked,
              elim pools [
                | inl none_open ↦ inl none_open
                | inr (since, before, same) ↦ inr (
                  close_writer id ∷ checkpoint_truncate id ∷ optimize id ∷ close_readers id ∷ since,
                  before,
                  rw same refl,
                )
              ],
            );
          })
  ]
]

-- One round of the loop.
record Pass (id : ℕ) (m m' : DatabaseManager) : Type 0 where
  idle : IsIdle m'
  entry : IsShut m' id
  shut : (other : ℕ) → IsShut m other → IsShut m' other
  size : length m'.heap ≡ length m.heap
  entries : m'.entries ≡ m.entries

passed-Pass :
    (id : ℕ) (m : DatabaseManager)
    → IsIdle m
    → id < length m.heap
    → Pass id m (close_entry id (begin_close id m).1)
passed-Pass id m idle allocated =
    let begun = begin_close-Begun id m idle allocated in
    let gone = close_entry-Closed id (begin_close id m).1 in
    record {
      idle = λ other e read. begun.idle other e (rw (sym gone.heap) read);
      entry = gone.entry begun.marked;
      shut = λ other h. gone.shut other (begun.shut other h);
      size = ap length gone.heap ∙ begun.size;
      entries = gone.entries ∙ begun.entries;
    }

-- What still runs leaves the entries and the map of them, and the pool events so far.
pub record Calm (others : Others) : Type 0 where
  pub heap : (m : DatabaseManager) → (others m).heap ≡ m.heap
  pub entries : (m : DatabaseManager) → (others m).entries ≡ m.entries
  pub events :
      (m : DatabaseManager) → (new : List PoolEvent) × ((others m).events ≡ new ++ m.events)

-- The closes of evicted databases are calm.
pub close_entry-Calm : (id : ℕ) → Calm (close_entry id)
unfolding close_entry
close_entry-Calm id = record {
  heap = λ m. (close_entry-Closed id m).heap;
  entries = λ m. (close_entry-Closed id m).entries;
  events = λ m. elim (Option-cases (get_elem? m.heap id)) [
    | inl missing ↦ rw (missing, close_entry) ([], refl)
    | inr (e, read) ↦ elim (Option-cases e.pools) [
      | inl none_open ↦ rw (read, close_entry, none_open) ([], refl)
      | inr (pools, there) ↦
          rw (read, close_entry, there)
            (close_writer id ∷ checkpoint_truncate id ∷ optimize id ∷ close_readers id ∷ [], refl)
    ]
  ];
}

Calm-IsShut :
    (others : Others) (m : DatabaseManager) (id : ℕ)
    → Calm others
    → IsShut m id
    → IsShut (others m) id
Calm-IsShut others m id calm (e, read, marked, pools) = (
  e,
  rw (calm.heap m) read,
  marked,
  elim pools [
    | inl none_open ↦ inl none_open
    | inr (since, before, same) ↦
        let (new, more) = calm.events m in
        inr (
          new ++ since,
          before,
          more ∙ ap (λ events. new ++ events) same ∙ sym (append_assoc new since _),
        )
  ],
)

Calm-Pass :
    (others : Others) (id : ℕ) (m m' : DatabaseManager)
    → Calm others
    → Pass id m m'
    → Pass id m (others m')
Calm-Pass others id m m' calm pass = record {
  idle = λ other e read. pass.idle other e (rw (sym (calm.heap m')) read);
  entry = Calm-IsShut others m' id calm pass.entry;
  shut = λ other h. Calm-IsShut others m' other calm (pass.shut other h);
  size = ap length (calm.heap m') ∙ pass.size;
  entries = calm.entries m' ∙ pass.entries;
}

module _ (others : ℕ → Others) (calm : (id : ℕ) → Calm (others id)) where
  close_entries-IsShut :
      (visited : List ℕ) (m : DatabaseManager)
      → IsIdle m
      → All (λ id. id < length m.heap) visited
      → All (IsShut (close_entries others visited m)) visited
        × ((other : ℕ) → IsShut m other → IsShut (close_entries others visited m) other)
        × ((close_entries others visited m).entries ≡ m.entries)
  unfolding close_entries
  close_entries-IsShut [] m idle allocated = (tt, (λ other h. h), refl)
  close_entries-IsShut (id ∷ rest) m idle (here, there) =
      let m' = close_entry id (begin_close id m).1 in
      let pass = Calm-Pass (others id) id m m' (calm id) (passed-Pass id m idle here) in
      let (shut, kept, same) =
        close_entries-IsShut rest (others id m') pass.idle (rw pass.size there) in
      ((kept id pass.entry, shut), (λ other h. kept other (pass.shut other h)), same ∙ pass.entries)

ids-All : (n : ℕ) (es : Entries) → All (λ entry. entry.1 < n) es → All (λ id. id < n) (ids es)
ids-All n [] h = tt
ids-All n (entry ∷ es) (h, hs) = (h, ids-All n es hs)

-- Where no lease counts on an entry and what still runs is calm, `close_all` unlinks every database,
-- lets none of those that were linked be leased again, and closes their pools in order.
pub close_all-IsShut :
    (others : ℕ → Others) (m : DatabaseManager)
    → ((id : ℕ) → Calm (others id))
    → IsIdle m
    → All (λ entry. entry.1 < length m.heap) m.entries
    → ((close_all others m).entries ≡ []) × All (IsShut (close_all others m)) (ids m.entries)
unfolding close_all
close_all-IsShut others m calm idle linked =
    let (shut, _, unlinked) =
      close_entries-IsShut others calm (ids m.entries) (record m { entries = [] }) idle
        (ids-All (length m.heap) m.entries linked) in
    (unlinked, shut)

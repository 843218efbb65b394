-- ===== src/Db/Maintenance/Cleanup.antt =====
-- Which databases `cleanup_idle` of src/db.rs closes.
use tinkiva_sqllite_server.Prelude.{
  mem, NoRepeats, ℕ, String, ◌+◌, ◌-◌, ◌*◌, ◌≤◌, wrap64, ◌≡◌, ◌≢◌, inl, inr, refl, sym, ap, ◌∙◌,
  Bool, true, false, none, some, List, [], ◌∷◌, arith, str_eq, eq_iff, if◌then◌else◌, length,
  get_elem?, All, Bool-cases, Option-cases,
}
use mathlib.Core.Path.{subst}
use tinkiva_sqllite_server.Config.{DatabaseSettings}
use tinkiva_sqllite_server.Db.Entry.{DatabaseEntry, closed}
use tinkiva_sqllite_server.Db.Registry.{
  Entries, Distinct, lookup, remove, get_elem?-update, lookup-remove_ne, lookup-remove_self,
  length-remove_found, remove-Distinct, lookup-All,
}
use tinkiva_sqllite_server.Db.State.{DatabaseManager, count}
use tinkiva_sqllite_server.Db.Evict.{close_entry}
use tinkiva_sqllite_server.Db.Evict.Take.{taken, take_entry_cases}
use tinkiva_sqllite_server.Db.Maintenance.{cutoff, is_stale, stale, close_stale, cleanup_idle}
use tinkiva_sqllite_server.Db.Tenancy.{IsNamed, Tenancy}
use tinkiva_sqllite_server.Db.Tenancy.Slot.{taken-Tenant}

-- Whether the name is linked to an entry without a lease that was last used by `limit`.
abbrev pub is_stale_name : ℕ → List DatabaseEntry → Entries → String → Bool
is_stale_name limit heap es name = elim (lookup name es) [
  | none ↦ false
  | some id ↦ elim (get_elem? heap id) [ none ↦ false | some e ↦ is_stale limit e ]
]

mem-stale :
    (limit : ℕ) (heap : List DatabaseEntry) (es : Entries) (name : String)
    → Distinct es
    → mem name (stale limit heap es) ≡ is_stale_name limit heap es name
unfolding stale lookup
mem-stale limit heap [] name distinct = refl
mem-stale limit heap ((key, id) ∷ es) name distinct =
    let rest = mem-stale limit heap es name distinct.1 in ground (arith, eq_iff key name, rest)

stale-NoRepeats :
    (limit : ℕ) (heap : List DatabaseEntry) (es : Entries)
    → Distinct es
    → NoRepeats (stale limit heap es)
unfolding stale
stale-NoRepeats limit heap [] distinct = tt
stale-NoRepeats limit heap ((key, id) ∷ es) distinct =
    let rest = stale-NoRepeats limit heap es distinct.1 in
    let fresh : mem key (stale limit heap es) ≡ false =
      mem-stale limit heap es key distinct.1 ∙ rw (distinct.0, is_stale_name) refl in
    ground (arith, rest, fresh)

close_entry_same :
    (id : ℕ) (m : DatabaseManager)
    → ((close_entry id m).entries ≡ m.entries) × ((close_entry id m).heap ≡ m.heap)
unfolding close_entry
close_entry_same id m = elim (Option-cases (get_elem? m.heap id)) [
  | inl missing ↦ rw (missing, close_entry) (refl, refl)
  | inr (e, read) ↦ elim (Option-cases e.pools) [
    | inl shut ↦ rw (read, close_entry, shut) (refl, refl)
    | inr (pools, there) ↦ rw (read, close_entry, there) (refl, refl)
  ]
]

stale_found :
    (limit : ℕ) (heap : List DatabaseEntry) (es : Entries) (name : String)
    → is_stale_name limit heap es name ≡ true
    → (id : ℕ) × (e : DatabaseEntry) × (lookup name es ≡ some id)
      × (get_elem? heap id ≡ some e)
      × (is_stale limit e ≡ true)
stale_found limit heap es name h = elim (Option-cases (lookup name es)) [
  | inl missing ↦ absurd (ground arith)
  | inr (id, found) ↦ elim (Option-cases (get_elem? heap id)) [
    | inl missing ↦ absurd (ground arith)
    | inr (e, read) ↦ (id, e, found, read, ground arith)
  ]
]

-- Closing one database leaves another one as stale as it was: it has an entry of its own.
taken_stale :
    (settings : DatabaseSettings) (limit : ℕ) (name other : String) (id : ℕ) (e : DatabaseEntry)
    (m : DatabaseManager)
    → Tenancy settings m
    → lookup name m.entries ≡ some id
    → get_elem? m.heap id ≡ some e
    → name ≢ other
    → is_stale_name limit m.heap m.entries other ≡ true
    → is_stale_name limit (taken name id e m).heap (taken name id e m).entries other ≡ true
taken_stale settings limit name other id e m h found read differ before =
    let (id', e', found', read', old) = stale_found limit m.heap m.entries other before in
    let (x, read_x, name_x) =
      lookup-All (λ entry. IsNamed m.heap entry.0 entry.1) name m.entries id h.linked found in
    let (y, read_y, name_y) =
      lookup-All (λ entry. IsNamed m.heap entry.0 entry.1) other m.entries id' h.linked found' in
    let apart : id ≢ id' = λ same.
      let same_entry : x ≡ y = ground arith in
      differ (sym name_x ∙ ap (λ (e : DatabaseEntry). e.name) same_entry ∙ name_y) in
    rw (lookup-remove_ne name other m.entries differ, found', is_stale_name)
      (ground (arith, get_elem?-update id id' (λ _. record e { active_leases = closed }) m.heap))

each_taken_stale :
    (settings : DatabaseSettings) (limit : ℕ) (name : String) (names : List String) (id : ℕ)
    (e : DatabaseEntry) (m : DatabaseManager)
    → Tenancy settings m
    → lookup name m.entries ≡ some id
    → get_elem? m.heap id ≡ some e
    → mem name names ≡ false
    → All (λ other. is_stale_name limit m.heap m.entries other ≡ true) names
    → All
        (λ other.
          is_stale_name limit (taken name id e m).heap (taken name id e m).entries other ≡ true)
        names
each_taken_stale settings limit name [] id e m h found read absent before = tt
each_taken_stale settings limit name (x ∷ names) id e m h found read absent before = (
  taken_stale settings limit name x id e m h found read (λ same. ground (arith, eq_iff x name))
      before.0,
  each_taken_stale settings limit name names id e m h found read (ground arith) before.1,
)

close_entry-Tenancy :
    (settings : DatabaseSettings) (id : ℕ) (m : DatabaseManager)
    → Tenancy settings m
    → Tenancy settings (close_entry id m)
close_entry-Tenancy settings id m h =
    let (entries, heap) = close_entry_same id m in
    record { linked = rw (entries, heap) h.linked; filed = rw heap h.filed }

look_removed :
    (name other : String) (names : List String) (es : Entries)
    → Distinct es
    → (if mem other names then none else lookup other (remove name es))
      ≡ (if mem other (name ∷ names) then none else lookup other es)
look_removed name other names es distinct = elim (Bool-cases (str_eq name other)) [
  | inl hit ↦
      let gone =
        subst (λ o. lookup o (remove name es) ≡ none) ((eq_iff name other).0 hit)
          (lookup-remove_self name es distinct) in
      ground (arith, gone)
  | inr miss ↦ ground (arith, eq_iff name other, lookup-remove_ne name other es)
]

stale_idle : (limit : ℕ) (e : DatabaseEntry) → is_stale limit e ≡ true → e.active_leases ≡ 0
unfolding is_stale
stale_idle limit e h = ground arith

-- No other task runs.
abbrev pub alone : String → DatabaseManager → DatabaseManager
alone name m = m

is_stale_name_found :
    (limit : ℕ) (m : DatabaseManager) (name : String) (id : ℕ) (e : DatabaseEntry)
    → lookup name m.entries ≡ some id
    → get_elem? m.heap id ≡ some e
    → is_stale_name limit m.heap m.entries name ≡ is_stale limit e
is_stale_name_found limit m name id e found read = rw (found, is_stale_name, read) refl

close_stale-lookup :
    (settings : DatabaseSettings) (limit : ℕ) (names : List String) (closed_before : ℕ)
    (m : DatabaseManager)
    → All (λ name. is_stale_name limit m.heap m.entries name ≡ true) names
    → NoRepeats names
    → Distinct m.entries
    → Tenancy settings m
    → ((close_stale alone names closed_before m).0
          + length (close_stale alone names closed_before m).1.entries
        ≡ closed_before + length m.entries)
      × ((other : String)
          → lookup other (close_stale alone names closed_before m).1.entries
            ≡ (if mem other names then none else lookup other m.entries))
unfolding close_stale
close_stale-lookup settings limit [] c m old once distinct h = (refl, λ other. refl)
close_stale-lookup settings limit (name ∷ names) c m old once distinct h =
    let (id₀, e₀, found₀, read₀, stale₀) = stale_found limit m.heap m.entries name old.0 in
    elim (take_entry_cases name m) [
      | inl (_, busy) ↦ absurd (busy id₀ e₀ found₀ read₀ (stale_idle limit e₀ stale₀))
      | inr (id, e, found, read, idle, took) ↦
          let next = taken name id e m in
          let (entries, heap) = close_entry_same id next in
          let (closes, looks) =
            close_stale-lookup settings limit names (c + 1) (close_entry id next)
              (rw (entries, heap)
                (each_taken_stale settings limit name names id e m h found read once.0 old.1))
              once.1 (rw entries (remove-Distinct name m.entries distinct))
              (close_entry-Tenancy settings id next
                (taken-Tenant settings name id e m read h).tenancy) in
          rw (took, close_stale, took)
            (
              (let shorter = length-remove_found name m.entries id found in
                  let same : length (close_entry id next).entries ≡ length (remove name m.entries) =
                    ap length entries in
                  omega (arith, closes, shorter, same)),
              λ other. looks other ∙ rw entries (look_removed name other names m.entries distinct),
            )
    ]

each_stale :
    (limit : ℕ) (heap : List DatabaseEntry) (es : Entries) (names : List String)
    → ((name : String) → mem name names ≡ true → is_stale_name limit heap es name ≡ true)
    → All (λ name. is_stale_name limit heap es name ≡ true) names
each_stale limit heap es [] h = tt
each_stale limit heap es (name ∷ names) h = (
  h name (ground (arith, eq_iff name name)),
  each_stale limit heap es names λ other later. h other (ground arith),
)

cleanup_idle_names :
    (settings : DatabaseSettings) (now : ℕ) (m : DatabaseManager)
    → Distinct m.entries
    → Tenancy settings m
    → ((name : String)
        → lookup name (cleanup_idle alone settings now m).1.entries ≡ (
            if is_stale_name (cutoff settings now) m.heap m.entries name
            then none
            else lookup name m.entries))
      × ((cleanup_idle alone settings now m).0
            + length (cleanup_idle alone settings now m).1.entries
          ≡ length m.entries)
unfolding cleanup_idle count
cleanup_idle_names settings now m distinct h =
    let limit = cutoff settings now in
    let names = stale limit m.heap m.entries in
    let (closes, looks) =
      close_stale-lookup settings limit names 0 m
        (each_stale limit m.heap m.entries names
          λ name is_in. sym (mem-stale limit m.heap m.entries name distinct) ∙ is_in)
        (stale-NoRepeats limit m.heap m.entries distinct) distinct h in
    (
      λ name. rw⁻¹ (mem-stale limit m.heap m.entries name distinct) (looks name),
      omega (arith, closes),
    )

-- Without a lease, and last used `idle_timeout_seconds` ago or earlier.
abbrev pub IsIdleFor : DatabaseSettings → ℕ → DatabaseEntry → Type 0
IsIdleFor settings now e =
    (e.active_leases ≡ 0) × (e.last_used_ms ≤ now - wrap64 (settings.idle_timeout_seconds * 1000))

-- Where each name is linked once, and under the name of its entry, and no other task runs while the
-- databases close, `cleanup_idle` unlinks a database that has no lease and was last used
-- `idle_timeout_seconds` ago or earlier (at time 0 if the clock shows less), keeps every other one
-- linked to the same entry, links nothing, and returns how many it unlinked.
pub cleanup_idle-lookup :
    (settings : DatabaseSettings) (now : ℕ) (m : DatabaseManager)
    → Distinct m.entries
    → Tenancy settings m
    → ((name : String) (id : ℕ) (e : DatabaseEntry)
        → lookup name m.entries ≡ some id
        → get_elem? m.heap id ≡ some e
        → (IsIdleFor settings now e
            → lookup name (cleanup_idle alone settings now m).1.entries ≡ none)
          × ((IsIdleFor settings now e → ⊥)
              → lookup name (cleanup_idle alone settings now m).1.entries ≡ some id))
      × ((name : String)
          → lookup name m.entries ≡ none
          → lookup name (cleanup_idle alone settings now m).1.entries ≡ none)
      × ((cleanup_idle alone settings now m).0
            + length (cleanup_idle alone settings now m).1.entries
          ≡ length m.entries)
unfolding cutoff is_stale
cleanup_idle-lookup settings now m distinct h =
    let (looks, closes) = cleanup_idle_names settings now m distinct h in
    (
      λ name id e found read. (
        λ (unused, old).
            looks name
            ∙ rw (is_stale_name_found (cutoff settings now) m name id e found read)
                (ground (arith, unused, old)),
        λ other.
            looks name
            ∙ rw (is_stale_name_found (cutoff settings now) m name id e found read)
                (ground (arith, other, found)),
      ),
      λ name free. looks name ∙ rw (free, is_stale_name) refl,
      closes,
    )

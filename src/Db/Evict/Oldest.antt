-- ===== src/Db/Evict/Oldest.antt =====
-- Which entry src/db.rs evicts: the least recently used of the idle ones.
use tinkiva_sqllite_server.Prelude.{
  ℕ, String, ◌≤◌, ◌≡◌, ◌≢◌, ◌⊎◌, inl, inr, refl, sym, ◌∙◌, true, false, Option, none, some, List,
  [], ◌∷◌, arith, ◌==◌, ltb, eq_iff, get_elem?, All, Any, Bool-cases, Option-cases,
}
use mathlib.Core.Path.{subst}
use tinkiva_sqllite_server.Metrics
use tinkiva_sqllite_server.Db.Entry.{DatabaseEntry}
use tinkiva_sqllite_server.Db.Registry.{Entries, Distinct, lookup}
use tinkiva_sqllite_server.Db.State.{DatabaseManager, count}
use tinkiva_sqllite_server.Db.Evict.{consider, oldest_idle, evict_oldest_idle}
use tinkiva_sqllite_server.Db.Evict.Take.{taken, take_entry_cases}

-- The entry at `id` is idle and was last used at `used`.
abbrev pub IdleSince : List DatabaseEntry → ℕ → ℕ → Type 0
IdleSince heap id used =
    (e : DatabaseEntry) × (get_elem? heap id ≡ some e)
    × (e.active_leases ≡ 0)
    × (e.last_used_ms ≡ used)

-- If the entry at `id` is idle, it was last used at `used` or later.
abbrev pub NotBefore : List DatabaseEntry → ℕ → ℕ → Type 0
NotBefore heap used id =
    (e : DatabaseEntry) → get_elem? heap id ≡ some e → e.active_leases ≡ 0 → used ≤ e.last_used_ms

abbrev pub IsBusy : List DatabaseEntry → ℕ → Type 0
IsBusy heap id = (e : DatabaseEntry) → get_elem? heap id ≡ some e → e.active_leases ≢ 0

-- What is known of a candidate once the entries `es` have been seen.
abbrev Found : List DatabaseEntry → Entries → Option (String × ℕ) → Option (String × ℕ) → Type 0
Found heap es before none = (before ≡ none) × All (λ entry. IsBusy heap entry.1) es
Found heap es before (some (name, used)) =
    (Any (λ entry. (entry.0 ≡ name) × IdleSince heap entry.1 used) es
      ⊎ (before ≡ some (name, used)))
    × All (λ entry. NotBefore heap used entry.1) es
    × ((other : String) (oldest : ℕ) → before ≡ some (other, oldest) → used ≤ oldest)

-- What a round makes of the candidate: it stays, at a busy entry or one used no earlier, or the
-- entry takes its place, being idle and used before it.
abbrev Round : List DatabaseEntry → String → ℕ → Option (String × ℕ) → Type 0
Round heap name id candidate =
    ((consider heap (name, id) candidate ≡ candidate)
      × (IsBusy heap id
          ⊎ ((who : String) × (old : ℕ) × (candidate ≡ some (who, old)) × NotBefore heap old id)))
    ⊎ ((used : ℕ) × (consider heap (name, id) candidate ≡ some (name, used))
        × IdleSince heap id used
        × ((other : String) (oldest : ℕ) → candidate ≡ some (other, oldest) → used ≤ oldest))

idle-Round :
    (heap : List DatabaseEntry) (name : String) (id : ℕ) (e : DatabaseEntry)
    (candidate : Option (String × ℕ))
    → get_elem? heap id ≡ some e
    → (e.active_leases == 0) ≡ true
    → Round heap name id candidate
unfolding consider
idle-Round heap name id e none read idle =
    inr (
      e.last_used_ms,
      rw (read, consider, idle),
      (e, read, ground arith, refl),
      λ other oldest h. cc,
    )
idle-Round heap name id e (some (who, old)) read idle = elim (Bool-cases (ltb e.last_used_ms old)) [
  | inl older ↦ inr (
    e.last_used_ms,
    rw (read, consider, idle, older),
    (e, read, ground arith, refl),
    λ other oldest h. ground arith,
  )
  | inr newer ↦
      inl (rw (read, consider, idle, newer), inr (who, old, refl, λ e' read' free. ground arith))
]

consider-Round :
    (heap : List DatabaseEntry) (name : String) (id : ℕ) (candidate : Option (String × ℕ))
    → Round heap name id candidate
unfolding consider
consider-Round heap name id candidate = elim (Option-cases (get_elem? heap id)) [
  | inl missing ↦ inl (rw (missing, consider), inl (λ e read. absurd (ground arith)))
  | inr (e, read) ↦ elim (Bool-cases (e.active_leases == 0)) [
    | inr busy ↦ inl (rw (read, consider, busy), inl (λ e' read'. ground arith))
    | inl idle ↦ idle-Round heap name id e candidate read idle
  ]
]

-- The candidate after a round stays the candidate, or gives way to an older one.
Found-cons :
    (heap : List DatabaseEntry) (name : String) (id : ℕ) (rest : Entries)
    (before result : Option (String × ℕ))
    → Round heap name id before
    → Found heap rest (consider heap (name, id) before) result
    → Found heap ((name, id) ∷ rest) before result
Found-cons heap name id rest before none (inl (same, inl busy)) f = (sym same ∙ f.0, (busy, f.1))
Found-cons heap name id rest before none (inl (same, inr (who, old, e, later))) f =
    absurd (ground (arith, f.0))
Found-cons heap name id rest before none (inr (used, taken, since, older)) f =
    absurd (ground (arith, f.0))
Found-cons heap name id rest before (some (w, u)) (inl (same, inl busy)) f = (
  elim f.0 [ inl any ↦ inl (inr any) | inr e ↦ inr (sym same ∙ e) ],
  (λ e read idle. absurd (busy e read idle), f.1),
  λ other oldest h. f.2 other oldest (same ∙ h),
)
Found-cons heap name id rest before (some (w, u)) (inl (same, inr (who, old, e, later))) f = (
  elim f.0 [ inl any ↦ inl (inr any) | inr e' ↦ inr (sym same ∙ e') ],
  (λ x read idle. omega (arith, later x read idle, f.2 who old (same ∙ e)), f.1),
  λ other oldest h. f.2 other oldest (same ∙ h),
)
Found-cons heap name id rest before (some (w, u)) (inr (used, taken, since, older)) f = (
  elim f.0 [
    | inl any ↦ inl (inr any)
    | inr e ↦
        let same_name : name ≡ w = ground arith in
        let same_time : used ≡ u = ground arith in
        inl (inl (same_name, subst (IdleSince heap id) same_time since))
  ],
  (λ x read idle. ground (arith, f.2 name used taken, since), f.1),
  λ other oldest h. omega (arith, f.2 name used taken, older other oldest h),
)

oldest_idle-Found :
    (heap : List DatabaseEntry) (es : Entries) (before : Option (String × ℕ))
    → Found heap es before (oldest_idle heap es before)
unfolding oldest_idle
oldest_idle-Found heap [] none = (refl, tt)
oldest_idle-Found heap [] (some (name, used)) = (inr refl, tt, λ other oldest h. ground arith)
oldest_idle-Found heap ((name, id) ∷ rest) before =
    Found-cons heap name id rest before _ (consider-Round heap name id before)
      (oldest_idle-Found heap rest (consider heap (name, id) before))

Any-lookup :
    (Q : ℕ → Type 0) (name : String) (es : Entries)
    → Distinct es
    → Any (λ entry. (entry.0 ≡ name) × Q entry.1) es
    → (id : ℕ) × (lookup name es ≡ some id) × Q id
unfolding lookup
Any-lookup Q name [] distinct h = absurd h
Any-lookup Q name ((key, id) ∷ es) distinct (inl (same, q)) =
    (id, ground (arith, eq_iff key name), q)
Any-lookup Q name ((key, id) ∷ es) distinct (inr later) =
    let (found, read, q) = Any-lookup Q name es distinct.1 later in
    (found, ground (arith, eq_iff key name), q)

-- An eviction takes the least recently used of the idle entries: it is marked closed, unlinked,
-- counted, and handed to a background task, and nothing else changes. There is none exactly when
-- every entry is in use, and then nothing changes at all.
pub evict_oldest_idle-lru :
    (m : DatabaseManager)
    → Distinct m.entries
    → ((name : String) × (id : ℕ) × (e : DatabaseEntry) × (lookup name m.entries ≡ some id)
        × (get_elem? m.heap id ≡ some e)
        × (e.active_leases ≡ 0)
        × All (λ entry. NotBefore m.heap e.last_used_ms entry.1) m.entries
        × (evict_oldest_idle m ≡ (
          true,
          record (taken name id e m) {
            metrics = Metrics.record_eviction m.metrics;
            spawned = id ∷ m.spawned;
          },
        )))
      ⊎ (All (λ entry. IsBusy m.heap entry.1) m.entries × (evict_oldest_idle m ≡ (false, m)))
unfolding evict_oldest_idle count
evict_oldest_idle-lru m distinct = elim (Option-cases (oldest_idle m.heap m.entries none)) [
  | inl e ↦
      let found = subst (Found m.heap m.entries none) e (oldest_idle-Found m.heap m.entries none) in
      inr (found.1, rw (e, evict_oldest_idle))
  | inr ((name, used), e) ↦
      let found = subst (Found m.heap m.entries none) e (oldest_idle-Found m.heap m.entries none) in
      elim found.0 [
        | inr h ↦ absurd (ground arith)
        | inl any ↦
            let (id, look, (x, read, idle, time)) = Any-lookup _ name m.entries distinct any in
            elim (take_entry_cases name m) [
              | inl (same, busy) ↦ absurd (busy id x look read idle)
              | inr (id', e', look', read', idle', took) ↦
                  let same_id : id ≡ id' = ground arith in
                  let same_entry : e' ≡ x = ground arith in
                  let since : e'.last_used_ms ≡ used = ground arith in
                  inl (
                    name,
                    id',
                    e',
                    look',
                    read',
                    idle',
                    rw since found.1,
                    rw (e, evict_oldest_idle, took, took),
                  )
            ]
      ]
]

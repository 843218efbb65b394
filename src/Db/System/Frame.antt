-- ===== src/Db/System/Frame.antt =====
-- No operation of the manager of src/db.rs looks at the leases of its tasks, so each does the same
-- with another lease there.
use tinkiva_sqllite_server.Prelude.{
  ℕ, zero, suc, String, ◌≡◌, refl, none, List, ◌∷◌, ltb, length, get_elem?, ◌==◌, inl, inr,
  Bool-cases, Option-cases,
}
use tinkiva_sqllite_server.Config.{DatabaseSettings}
use tinkiva_sqllite_server.Db.Entry.{DatabaseEntry}
use tinkiva_sqllite_server.Db.Entry
use tinkiva_sqllite_server.Db.Registry.{lookup}
use tinkiva_sqllite_server.Db.State.{DatabaseManager, Hold, modify, count, drop, lease, begin_close}
use tinkiva_sqllite_server.Db.Evict.{
  oldest_idle, evict_oldest_idle, make_room, admit, slot_locked, max_attempts, take_entry,
  close_entry,
}
use tinkiva_sqllite_server.Db.Acquire.{Turn, remove_if, ensure_open}

-- The manager with these leases of all tasks, and with one more.
abbrev pub having : List Hold → DatabaseManager → DatabaseManager
having leases m = record m { leases = leases }

abbrev pub adding : Hold → DatabaseManager → DatabaseManager
adding h m = having (h ∷ m.leases) m

-- What does not look at the leases: an operation, and one that gives a result.
abbrev pub Still : (DatabaseManager → DatabaseManager) → Type 0
Still f = (m : DatabaseManager) (leases : List Hold) → f (having leases m) ≡ having leases (f m)

abbrev pub Blind {ℓ} : {A : Type ℓ} → (DatabaseManager → A × DatabaseManager) → Type ℓ
Blind f =
    (m : DatabaseManager) (leases : List Hold)
    → f (having leases m) ≡ ((f m).0, having leases (f m).1)

pub drop_leases :
    (now : ℕ) (h : Hold) (m : DatabaseManager) (leases : List Hold)
    → drop now h (having leases m) ≡ having leases (drop now h m)
unfolding drop modify
drop_leases now h m leases = elim (Bool-cases h.process) [
  | inl p ↦ rw (p, drop) refl
  | inr p ↦ rw (p, drop) refl
]

pub lease_leases : (id : ℕ) → Blind (lease id)
unfolding lease modify
lease_leases id m leases = elim (Option-cases (get_elem? m.heap id)) [
  | inl missing ↦ rw (missing, lease) refl
  | inr (e, read) ↦ elim (Bool-cases (Entry.lease e).1) [
    | inl granted ↦ rw (read, lease, granted) refl
    | inr refused ↦ rw (read, lease, refused) refl
  ]
]

pub begin_close_leases : (id : ℕ) → Blind (begin_close id)
unfolding begin_close modify
begin_close_leases id m leases = elim (Option-cases (get_elem? m.heap id)) [
  | inl missing ↦ rw (missing, begin_close) refl
  | inr (e, read) ↦ elim (Bool-cases (Entry.begin_close e).1) [
    | inl begun ↦ rw (read, begin_close, begun) refl
    | inr refused ↦ rw (read, begin_close, refused) refl
  ]
]

pub take_entry_leases : (name : String) → Blind (take_entry name)
unfolding take_entry
take_entry_leases name m leases = elim (Option-cases (lookup name m.entries)) [
  | inl missing ↦ rw (missing, take_entry) refl
  | inr (id, found) ↦ elim (Bool-cases (begin_close id m).0) [
    | inl begun ↦ rw (found, take_entry, begin_close_leases id m leases, begun) refl
    | inr refused ↦ rw (found, take_entry, begin_close_leases id m leases, refused) refl
  ]
]

evict_oldest_idle_leases : Blind evict_oldest_idle
unfolding evict_oldest_idle count
evict_oldest_idle_leases m leases = elim (Option-cases (oldest_idle m.heap m.entries none)) [
  | inl busy ↦ rw (busy, evict_oldest_idle) refl
  | inr ((name, last_used), found) ↦ elim (Option-cases (take_entry name m).0) [
    | inl same ↦
        rw
          (
            found,
            evict_oldest_idle,
            take_entry_leases name m leases,
            same,
            take_entry_leases name m leases,
          )
          refl
    | inr (id, took) ↦
        rw
          (
            found,
            evict_oldest_idle,
            take_entry_leases name m leases,
            took,
            take_entry_leases name m leases,
          )
          refl
  ]
]

make_room_leases :
    (settings : DatabaseSettings) (attempts : ℕ) → Blind (make_room settings attempts)
unfolding make_room
make_room_leases settings zero m leases = refl
make_room_leases settings (suc attempts) m leases =
    elim (Bool-cases (ltb (length m.entries) settings.max_open_databases)) [
      | inl room ↦ rw (room, make_room) refl
      | inr full ↦ elim (Bool-cases (evict_oldest_idle m).0) [
        | inl gone ↦
            rw (full, make_room, evict_oldest_idle_leases m leases, gone)
              (make_room_leases settings attempts (evict_oldest_idle m).1 leases)
        | inr stuck ↦ rw (full, make_room, evict_oldest_idle_leases m leases, stuck) refl
      ]
    ]

pub slot_locked_leases :
    (settings : DatabaseSettings) (now : ℕ) (name : String) → Blind (slot_locked settings now name)
unfolding slot_locked admit count
slot_locked_leases settings now name m leases = elim (Option-cases (lookup name m.entries)) [
  | inr (id, found) ↦ rw (found, slot_locked) refl
  | inl free ↦ elim (Bool-cases (make_room settings max_attempts m).0) [
    | inl room ↦ rw (free, slot_locked, make_room_leases settings max_attempts m leases, room) refl
    | inr no_room ↦
        rw (free, slot_locked, make_room_leases settings max_attempts m leases, no_room) refl
  ]
]

pub ensure_open_leases :
    (turn : Turn) (settings : DatabaseSettings) (name : String) (id : ℕ)
    → Blind (ensure_open turn settings name id)
unfolding ensure_open modify
ensure_open_leases turn settings name id m leases = elim (Option-cases (get_elem? m.heap id)) [
  | inl missing ↦ rw (missing, ensure_open) refl
  | inr (e, read) ↦ rw (read, ensure_open) refl
]

pub remove_if_leases :
    (name : String) (id : ℕ) (m : DatabaseManager) (leases : List Hold)
    → remove_if name id (having leases m) ≡ having leases (remove_if name id m)
unfolding remove_if
remove_if_leases name id m leases = elim (Option-cases (lookup name m.entries)) [
  | inl missing ↦ rw (missing, remove_if) refl
  | inr (found, there) ↦ elim (Bool-cases (found == id)) [
    | inl same ↦ rw (there, remove_if, same) refl
    | inr other ↦ rw (there, remove_if, other) refl
  ]
]

pub close_entry_leases :
    (id : ℕ) (m : DatabaseManager) (leases : List Hold)
    → close_entry id (having leases m) ≡ having leases (close_entry id m)
unfolding close_entry
close_entry_leases id m leases = elim (Option-cases (get_elem? m.heap id)) [
  | inl missing ↦ rw (missing, close_entry) refl
  | inr (e, read) ↦ elim (Option-cases e.pools) [
    | inl shut ↦ rw (read, close_entry, shut) refl
    | inr (pools, there) ↦ rw (read, close_entry, there) refl
  ]
]

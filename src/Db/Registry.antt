-- ===== src/Db/Registry.antt =====
-- `DashMap<String, Arc<DatabaseEntry>>` of src/db.rs as an association list in the order that
-- `iter` visits, and the entries that the `Arc`s point to, by their address in a heap.
use tinkiva_sqllite_server.Prelude.{
  ℕ, zero, suc, String, ◌≤◌, ◌≡◌, ◌≢◌, refl, ap, sym, ◌++◌, inl, inr, Bool-cases, Option-cases, ◌⊎◌,
  Option, none, some, List, [], ◌∷◌, arith, eq_iff, str_eq, ◌==◌, if◌then◌else◌, length, get_elem?,
  All,
}
use mathlib.Core.Path.{subst}
use mathlib.Core.Option

abbrev pub Entries : Type 0
Entries = List (String × ℕ)

unfoldable pub lookup : String → Entries → Option ℕ
lookup name [] = none
lookup name ((key, id) ∷ rest) = if str_eq key name then some id else lookup name rest

unfoldable pub insert : String → ℕ → Entries → Entries
insert name id [] = (name, id) ∷ []
insert name id ((key, old) ∷ rest) =
    if str_eq key name then (key, id) ∷ rest else (key, old) ∷ insert name id rest

unfoldable pub remove : String → Entries → Entries
remove name [] = []
remove name ((key, id) ∷ rest) = if str_eq key name then rest else (key, id) ∷ remove name rest

-- Each name once.
abbrev pub Distinct : Entries → Type 0
Distinct [] = Unit {0}
Distinct ((key, id) ∷ rest) = (lookup key rest ≡ none) × Distinct rest

pub lookup-insert :
    (name other : String) (id : ℕ) (m : Entries)
    → lookup other (insert name id m) ≡ (if str_eq name other then some id else lookup other m)
unfolding lookup insert
lookup-insert name other id [] = refl
lookup-insert name other id ((key, old) ∷ m) =
    ground
      (arith, eq_iff name other, eq_iff key name, eq_iff key other, lookup-insert name other id m)

pub lookup-remove_ne :
    (name other : String) (m : Entries)
    → name ≢ other
    → lookup other (remove name m) ≡ lookup other m
unfolding lookup remove
lookup-remove_ne name other [] h = refl
lookup-remove_ne name other ((key, id) ∷ m) h =
    ground (arith, eq_iff key name, eq_iff key other, lookup-remove_ne name other m h)

pub lookup-remove_self :
    (name : String) (m : Entries) → Distinct m → lookup name (remove name m) ≡ none
unfolding lookup remove
lookup-remove_self name [] h = refl
lookup-remove_self name ((key, id) ∷ m) h =
    ground (arith, eq_iff key name, lookup-remove_self name m h.1)

pub insert-Distinct :
    (name : String) (id : ℕ) (m : Entries) → Distinct m → Distinct (insert name id m)
unfolding lookup insert
insert-Distinct name id [] h = (refl, tt)
insert-Distinct name id ((key, old) ∷ m) h = ground (
  arith,
  eq_iff key name,
  eq_iff name key,
  lookup-insert name key id m,
  insert-Distinct name id m h.1,
)

pub lookup-remove-none :
    (name other : String) (m : Entries)
    → lookup other m ≡ none
    → lookup other (remove name m) ≡ none
unfolding lookup remove
lookup-remove-none name other [] h = refl
lookup-remove-none name other ((key, id) ∷ m) h =
    ground (arith, eq_iff key name, eq_iff key other, lookup-remove-none name other m)

pub remove-Distinct : (name : String) (m : Entries) → Distinct m → Distinct (remove name m)
unfolding remove
remove-Distinct name [] h = tt
remove-Distinct name ((key, id) ∷ m) h =
    ground (arith, remove-Distinct name m h.1, lookup-remove-none name key m h.0)

pub length-insert_new :
    (name : String) (id : ℕ) (m : Entries)
    → lookup name m ≡ none
    → length (insert name id m) ≡ suc (length m)
unfolding lookup insert
length-insert_new name id [] h = refl
length-insert_new name id ((key, old) ∷ m) h = ground (arith, length-insert_new name id m)

pub length-remove-le : (name : String) (m : Entries) → length (remove name m) ≤ length m
unfolding remove
length-remove-le name [] = omega arith
length-remove-le name ((key, id) ∷ m) = ground (arith, length-remove-le name m)

pub length-remove_found :
    (name : String) (m : Entries) (id : ℕ)
    → lookup name m ≡ some id
    → suc (length (remove name m)) ≡ length m
unfolding lookup remove
length-remove_found name [] id h = cc
length-remove_found name ((key, old) ∷ m) id h = ground (arith, length-remove_found name m id)

module _ (P : String × ℕ → Type 0) where
  pub insert-All :
      (name : String) (id : ℕ) (m : Entries) → All P m → P (name, id) → All P (insert name id m)
  unfolding insert
  insert-All name id [] h p = (p, tt)
  insert-All name id ((key, old) ∷ m) h p = elim (Bool-cases (str_eq key name)) [
    | inl e ↦ rw e (subst (λ k. P (k, id)) (sym ((eq_iff key name).0 e)) p, h.1)
    | inr e ↦ rw e (h.0, insert-All name id m h.1 p)
  ]

  pub remove-All : (name : String) (m : Entries) → All P m → All P (remove name m)
  unfolding remove
  remove-All name [] h = tt
  remove-All name ((key, id) ∷ m) h = elim (Bool-cases (str_eq key name)) [
    | inl e ↦ rw e h.1
    | inr e ↦ rw e (h.0, remove-All name m h.1)
  ]

  pub lookup-All :
      (name : String) (m : Entries) (id : ℕ) → All P m → lookup name m ≡ some id → P (name, id)
  unfolding lookup
  lookup-All name [] id h e = absurd (ground arith)
  lookup-All name ((key, old) ∷ m) id h e = elim (Bool-cases (str_eq key name)) [
    | inl t ↦
        let same_key : key ≡ name = (eq_iff key name).0 t in
        let same_id : old ≡ id = ground arith in
        subst (λ n. P (n, id)) same_key (subst (λ i. P (key, i)) same_id h.0)
    | inr f ↦ lookup-All name m id h.1 (ground arith)
  ]

module _ {ℓ} {A : Type ℓ} where
  -- A write through a pointer.
  unfoldable pub update : ℕ → (A → A) → List A → List A
  update i f [] = []
  update zero f (x ∷ xs) = f x ∷ xs
  update (suc i) f (x ∷ xs) = x ∷ update i f xs

  pub length-update : (i : ℕ) (f : A → A) (xs : List A) → length (update i f xs) ≡ length xs
  unfolding update
  length-update i f [] = refl
  length-update zero f (x ∷ xs) = refl
  length-update (suc i) f (x ∷ xs) = ap suc (length-update i f xs)

  pub get_elem?-update :
      (i j : ℕ) (f : A → A) (xs : List A)
      → get_elem? (update i f xs) j
        ≡ (if i == j then Option.map f (get_elem? xs j) else get_elem? xs j)
  unfolding update
  get_elem?-update i j f [] = ground arith
  get_elem?-update zero zero f (x ∷ xs) = ground arith
  get_elem?-update zero (suc j) f (x ∷ xs) = ground arith
  get_elem?-update (suc i) zero f (x ∷ xs) = ground arith
  get_elem?-update (suc i) (suc j) f (x ∷ xs) = ground (arith, get_elem?-update i j f xs)

  -- What is read after a write was written, or was there before.
  pub update_cases :
      (id other : ℕ) (f : A → A) (xs : List A) (a : A)
      → get_elem? (update id f xs) other ≡ some a
      → ((old : A) × (id ≡ other) × (get_elem? xs other ≡ some old) × (f old ≡ a))
        ⊎ ((id ≢ other) × (get_elem? xs other ≡ some a))
  update_cases id other f xs a h = elim (Option-cases (get_elem? xs other)) [
    | inl e ↦ absurd (ground (arith, get_elem?-update id other f xs))
    | inr (old, e) ↦ elim (Bool-cases (id == other)) [
      | inl hit ↦ inl (old, ground arith, e, ground (arith, get_elem?-update id other f xs))
      | inr miss ↦ inr (ground arith, ground (arith, get_elem?-update id other f xs))
    ]
  ]

  -- `Arc::new`: the next address.
  pub get_elem?-push :
      (xs : List A) (a : A) (j : ℕ)
      → get_elem? (xs ++ a ∷ []) j ≡ (if j == length xs then some a else get_elem? xs j)
  get_elem?-push [] a zero = ground arith
  get_elem?-push [] a (suc j) = ground arith
  get_elem?-push (x ∷ xs) a zero = ground arith
  get_elem?-push (x ∷ xs) a (suc j) = ground (arith, get_elem?-push xs a j)

-- ===== src/Db/Entry/Counter.antt =====
-- The lease counter of src/db.rs under contention.
use tinkiva_sqllite_server.Prelude.{
  ℕ, ◌+◌, ◌≡◌, ◌≢◌, ◌⊎◌, false, none, some, List, [], ◌∷◌, ◌++◌, arith,
}
use tinkiva_sqllite_server.Db.Entry.{Exchange, closed, lease_loop}

-- One of the exchanges succeeds, in a loop that expects `current` at first and then what the
-- exchange before it found: the value in memory is the one expected, it is not `closed`, and the
-- exchange does not fail spuriously. It writes `v`, one more than that value, and all before it fail.
abbrev pub Wins : ℕ → List Exchange → ℕ → Type 0
Wins current [] v = ⊥
Wins current (x ∷ xs) v =
    ((x.actual ≡ current) × (x.spurious ≡ false) × (current ≢ closed) × (v ≡ current + 1))
    ⊎ (((x.actual ≡ current) × (x.spurious ≡ false) → ⊥) × Wins x.actual xs v)

-- The entry is seen closed, at the first load or at an exchange that fails, and no exchange before
-- that succeeds.
abbrev pub Refuses : ℕ → List Exchange → Type 0
Refuses current [] = current ≡ closed
Refuses current (x ∷ xs) =
    (current ≡ closed) ⊎ (((x.actual ≡ current) × (x.spurious ≡ false) → ⊥) × Refuses x.actual xs)

-- A lease is granted only by an exchange that succeeds and finds the entry open: it writes one more
-- than the value in memory. It is refused only if the entry was seen closed, at the first load or at a
-- failed exchange.
pub lease_loop-linearizes :
    (current : ℕ) (xs : List Exchange)
    → ((v : ℕ) → lease_loop current xs ≡ some (some v) → Wins current xs v)
      × (lease_loop current xs ≡ some none → Refuses current xs)
unfolding lease_loop
lease_loop-linearizes current [] = (λ v h. ground arith, λ h. ground arith)
lease_loop-linearizes current (x ∷ xs) =
    let (granted, refused) = lease_loop-linearizes x.actual xs in
    (λ v h. ground (arith, granted v), λ h. ground (arith, refused))

-- However many exchanges have failed before, the loop ends once the value in memory stays the
-- same over two exchanges of which the second does not fail spuriously.
pub lease_loop-ends :
    (current : ℕ) (before after : List Exchange) (first second : Exchange)
    → second.actual ≡ first.actual
    → second.spurious ≡ false
    → lease_loop current (before ++ first ∷ second ∷ after) ≢ none
unfolding lease_loop
lease_loop-ends current [] after first second same certain = ground arith
lease_loop-ends current (x ∷ before) after first second same certain =
    ground (arith, lease_loop-ends x.actual before after first second same certain)

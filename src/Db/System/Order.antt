-- ===== src/Db/System/Order.antt =====
-- The order in which the map of src/db.rs is visited.
use tinkiva_sqllite_server.Prelude.{ℕ, String, ◌≡◌, none, arith, eq_iff, length, All, refl}
use tinkiva_sqllite_server.Db.Registry.{Entries, Distinct, lookup}
use tinkiva_sqllite_server.Db.System.{Swapped, here, later}

pub Swapped-All :
    (P : String × ℕ → Type 0) {es es' : Entries} → Swapped es es' → All P es → All P es'
Swapped-All P here (a, (b, rest)) = (b, (a, rest))
Swapped-All P (later s) (a, rest) = (a, Swapped-All P s rest)

pub Swapped-length : {es es' : Entries} → Swapped es es' → length es' ≡ length es
Swapped-length here = refl
Swapped-length (later s) = ground (arith, Swapped-length s)

Swapped-lookup :
    (name : String) {es es' : Entries}
    → Swapped es es'
    → lookup name es ≡ none
    → lookup name es' ≡ none
unfolding lookup
Swapped-lookup name here free = ground (arith, free)
Swapped-lookup name (later s) free = ground (arith, free, Swapped-lookup name s)

pub Swapped-Distinct : {es es' : Entries} → Swapped es es' → Distinct es → Distinct es'
unfolding lookup
Swapped-Distinct (here {name} {other}) (free, (free', rest)) = (
  ground (arith, free, free', eq_iff name other, eq_iff other name),
  (ground (arith, free), rest),
)
Swapped-Distinct (later {name} s) (free, rest) =
    (Swapped-lookup name s free, Swapped-Distinct s rest)

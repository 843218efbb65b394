-- ===== src/Api/Json.antt =====
-- The JSON values that src/api.rs takes and gives: `serde_json::Value`. A float is the 64 bits of an
-- `f64`; an integer of a value that was parsed is one of an `i64` or of a `u64`.
use tinkiva_sqllite_server.Prelude.{
  ℕ, String, ◌/◌, ◌%◌, Bool, not, List, [], ◌∷◌, ◌==◌, if◌then◌else◌, ℤ,
}

pub data Number : Type 0 where
  integer : ℤ → Number
  float : (bits : ℕ) → Number

mutual
  pub data Value : Type 0 where
    null : Value
    bool : Bool → Value
    number : Number → Value
    string : String → Value
    array : Elements → Value
    object : Members → Value

  pub data Elements : Type 0 where
    no_elements : Elements
    element : Value → Elements → Elements

  pub data Members : Type 0 where
    no_members : Members
    member : String → Value → Members → Members

-- The exponent of an infinity and of a NaN has all its eleven bits set.
abbrev pub is_finite : ℕ → Bool
is_finite bits = not (bits / 4_503_599_627_370_496 % 2048 == 2047)

-- `Value::from(f64)`
unfoldable pub from_f64 : ℕ → Value
from_f64 bits = if is_finite bits then number (float bits) else null

abbrev pub elements : List Value → Elements
elements [] = no_elements
elements (v ∷ vs) = element v (elements vs)

abbrev pub members : List (String × Value) → Members
members [] = no_members
members ((key, v) ∷ rest) = member key v (members rest)

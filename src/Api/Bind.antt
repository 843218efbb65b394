-- ===== src/Api/Bind.antt =====
-- src/api.rs: `SqlRequest`, `validate_sql` and `bind_query`. `to_text` is `Value::to_string`.
use tinkiva_sqllite_server.Prelude.{
  ℕ, String, Bool, true, false, ◌&&◌, ◌||◌, List, [], ◌∷◌, Result, ok, err, ◌>>=◌, ◌==◌, leb,
  if◌then◌else◌, codes, ℤ, fits_i64, fits_u64,
}
use tinkiva_sqllite_server.Error.{AppError, invalid_request}
use tinkiva_sqllite_server.Api.Json.{
  Number, integer, float, Value, null, bool, number, string, array, object,
}
pub mod Numbers

pub data RowFormat : Type 0 where
  objects arrays : RowFormat

pub record SqlRequest : Type 0 where
  pub sql : String
  pub params : List Value
  pub format : RowFormat

-- `char::is_whitespace`
abbrev pub is_whitespace : ℕ → Bool
is_whitespace c =
    (leb 9 c && leb c 13)
    || c == 32
    || c == 0x85
    || c == 0xa0
    || c == 0x1680
    || (leb 0x2000 c && leb c 0x200a)
    || c == 0x2028
    || c == 0x2029
    || c == 0x202f
    || c == 0x205f
    || c == 0x3000

abbrev pub trim_start : List ℕ → List ℕ
trim_start [] = []
trim_start (c ∷ cs) = if is_whitespace c then trim_start cs else c ∷ cs

abbrev pub is_empty : List ℕ → Bool
is_empty [] = true
is_empty (c ∷ cs) = false

-- Trimming the end of a text that starts with another character leaves that character, so the text
-- is empty after `trim` exactly when it is after `trim_start`.
unfoldable pub validate_sql : String → Result AppError (Unit {0})
validate_sql sql =
    if is_empty (trim_start (codes sql))
    then err (invalid_request "sql must not be empty")
    else ok tt

-- What `query.bind` is given.
pub data Argument : Type 0 where
  no_text : Argument
  truth : Bool → Argument
  int64 : ℤ → Argument
  double : (bits : ℕ) → Argument
  text : String → Argument

-- The guards of the two integer cases are `is_i64` and `is_u64`; `i64::try_from` fails on what is no
-- `i64`. A number that is neither is a float; `as_f64` is used for the integer that cannot be.
unfoldable pub bind_number : (ℤ → ℕ) → Number → Result AppError Argument
bind_number as_f64 (integer z) =
    if fits_i64 z
    then ok (int64 z)
    else if fits_u64 z
    then err (invalid_request "unsigned parameter is larger than SQLite INTEGER")
    else ok (double (as_f64 z))
bind_number as_f64 (float bits) = ok (double bits)

module _ (as_f64 : ℤ → ℕ) (to_text : Value → String) where
  unfoldable pub bind_value : Value → Result AppError Argument
  bind_value null = ok no_text
  bind_value (bool b) = ok (truth b)
  bind_value (number n) = bind_number as_f64 n
  bind_value (string s) = ok (text s)
  bind_value (array vs) = ok (text (to_text (array vs)))
  bind_value (object ms) = ok (text (to_text (object ms)))

  -- The arguments in the order in which they are bound.
  unfoldable pub bind_query : List Value → Result AppError (List Argument)
  bind_query [] = ok []
  bind_query (value ∷ values) = do
    argument ← bind_value value
    arguments ← bind_query values
    ok (argument ∷ arguments)

-- ===== src/Api/Serialize/Decode.antt =====
-- What a client reads from the responses of src/api.rs.
use tinkiva_sqllite_server.Prelude.{
  String, Bool, Option, none, some, List, [], ◌∷◌, str_eq, if◌then◌else◌,
}
use tinkiva_sqllite_server.Api.Json.{
  Value, Elements, Members, bool, string, array, object, no_elements, element, no_members, member,
}
use tinkiva_sqllite_server.Api.Bind.{RowFormat, objects, arrays}
use tinkiva_sqllite_server.Api.Rows.{QueryResponse}

infixl 5 ◌>>=◌
abbrev ◌>>=◌ {ℓ κ} : {A : Type ℓ} {B : Type κ} → Option A → (A → Option B) → Option B
none >>= rest = none
some a >>= rest = rest a

-- A parser keeps the last of the members with one name.
abbrev pub member_of : String → Members → Option Value
member_of name no_members = none
member_of name (member key value rest) = elim (member_of name rest) [
  | some later ↦ some later
  | none ↦ if str_eq key name then some value else none
]

-- The members of the columns, in their order.
abbrev pub read_columns : List String → Members → Option (List Value)
read_columns [] ms = some []
read_columns (column ∷ columns) ms = do
  value ← member_of column ms
  values ← read_columns columns ms
  some (value ∷ values)

abbrev pub list_of : Elements → List Value
list_of no_elements = []
list_of (element v vs) = v ∷ list_of vs

abbrev pub read_row : RowFormat → List String → Value → Option (List Value)
read_row arrays columns (array vs) = some (list_of vs)
read_row objects columns (object ms) = read_columns columns ms
read_row format columns v = none

abbrev pub read_string : Value → Option String
read_string (string s) = some s
read_string v = none

abbrev pub read_bool : Value → Option Bool
read_bool (bool b) = some b
read_bool v = none

abbrev pub read_all {ℓ} : {A : Type ℓ} → (Value → Option A) → List Value → Option (List A)
read_all read [] = some []
read_all read (v ∷ vs) = do a ← read v; rest ← read_all read vs; some (a ∷ rest)

abbrev pub read_array {ℓ} : {A : Type ℓ} → (Value → Option A) → Value → Option (List A)
read_array read (array vs) = read_all read (list_of vs)
read_array read v = none

-- The response that a client which asked for the format reads.
abbrev pub read_response : RowFormat → Value → Option QueryResponse
read_response format (object ms) = do
  columns ← member_of "columns" ms >>= read_array read_string
  rows ← member_of "rows" ms >>= read_array (read_row format columns)
  truncated ← member_of "truncated" ms >>= read_bool
  some (record { columns = columns; rows = rows; format = format; truncated = truncated })
read_response format v = none

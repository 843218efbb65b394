-- ===== src/Api/Tests.antt =====
-- Requests against the token of src/api.rs, those of its test among them.
use tinkiva_sqllite_server.Prelude.{
  ℕ, ℤ, pos, String, ◌≡◌, ◌↔◌, refl, arith, Bool, true, none, some, List, [], ◌∷◌, map, ok, err,
  bytes, inl, if◌then◌else◌,
}
use tinkiva_sqllite_server.Error.{unauthorized, failure}
use tinkiva_sqllite_server.Api.Json.{Value, null, bool, number, string, array, integer, no_elements}
use tinkiva_sqllite_server.Api.Bind.{
  Argument, no_text, truth, int64, double, text, bind_number, bind_value, bind_query,
}
use tinkiva_sqllite_server.Api.Rows.{Cell, row_values}
use tinkiva_sqllite_server.Api.Rows.Echo.{Echoes, row_values-bind_query}
use tinkiva_sqllite_server.Config.{Settings, default}
use tinkiva_sqllite_server.Api.{provided, authorize}
use tinkiva_sqllite_server.Api.Token.{IsBearer, authorize-IsBearer}

abbrev with_token : Settings
with_token = record default { server = record default.server { auth_token = some "secret" } }

abbrev any_text : List ℕ → Bool
any_text value = true

denied : authorize any_text with_token none ≡ err unauthorized
unfolding authorize provided
denied = refl

allowed : authorize any_text with_token (some (bytes "Bearer secret")) ≡ ok tt
unfolding authorize provided
allowed = refl

authorize-IsBearer_example :
    (authorize any_text with_token (some (bytes "Bearer secret")) ≡ ok tt)
    ↔ IsBearer any_text (some (bytes "Bearer secret")) (bytes "secret")
authorize-IsBearer_example =
    authorize-IsBearer any_text with_token "secret" (some (bytes "Bearer secret")) refl
      λ h. ground (arith, h)

abbrev empty_token : Settings
empty_token = record default { server = record default.server { auth_token = some "" } }

-- An empty token in the file lets a request without a header through.
unguarded : authorize any_text empty_token none ≡ ok tt
unfolding authorize provided
unguarded = refl

-- A connection that gives back what is bound.
abbrev nothing : Cell
nothing = record {
  column = "?";
  raw = ok none;
  as_i64 = err (failure "no INTEGER");
  as_f64 = err (failure "no REAL");
  as_bytes = err (failure "no BLOB");
  as_string = err (failure "no TEXT");
}

abbrev echo : Argument → Cell
echo no_text = nothing
echo (truth b) = record nothing {
  raw = ok (some "INTEGER");
  as_i64 = ok (pos (if b then 1 else 0));
}
echo (int64 z) = record nothing { raw = ok (some "INTEGER"); as_i64 = ok z }
echo (double bits) = record nothing { raw = ok (some "REAL"); as_f64 = ok bits }
echo (text s) = record nothing { raw = ok (some "TEXT"); as_string = ok s }

echo-Echoes : Echoes echo
echo-Echoes = record {
  absent = refl;
  boolean_type = λ b. refl;
  boolean = λ b. refl;
  integer_type = λ z fits. refl;
  an_integer = λ z fits. refl;
  real_type = λ bits finite. refl;
  real = λ bits finite. refl;
  text_type = λ s. refl;
  a_text = λ s. refl;
}

abbrev as_f64 : ℤ → ℕ
as_f64 z = 0

abbrev to_text : Value → String
to_text v = "[]"

abbrev encode : List ℕ → String
encode bs = "AA=="

abbrev params : List Value
params = null ∷ bool true ∷ number (integer (pos 7)) ∷ string "x" ∷ array no_elements ∷ []

params_bound :
    bind_query as_f64 to_text params
    ≡ ok (no_text ∷ truth true ∷ int64 (pos 7) ∷ text "x" ∷ text "[]" ∷ [])
unfolding bind_query bind_value bind_number
params_bound = refl

row_values-bind_query_example :
    row_values encode (map echo (no_text ∷ truth true ∷ int64 (pos 7) ∷ text "x" ∷ text "[]" ∷ []))
    ≡ ok
        (null ∷ number (integer (pos 1)) ∷ number (integer (pos 7)) ∷ string "x" ∷ string "[]" ∷ [])
row_values-bind_query_example =
    row_values-bind_query as_f64 to_text encode echo echo-Echoes params
      (no_text ∷ truth true ∷ int64 (pos 7) ∷ text "x" ∷ text "[]" ∷ [])
      (tt, (tt, (inl refl, (tt, (tt, tt))))) params_bound

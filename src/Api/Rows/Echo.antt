-- ===== src/Api/Rows/Echo.antt =====
-- The parameters of a request to src/api.rs that a statement selects again: `bind_query` against
-- `row_values`.
use tinkiva_sqllite_server.Prelude.{
  ℕ, ℤ, pos, String, ◌≡◌, refl, sym, ◌∙◌, Bool, true, none, some, List, [], ◌∷◌, map, Result, ok,
  arith, inl, inr, All, Bool-cases, Result-cases, ok-injective, if◌then◌else◌, fits_i64, fits_u64,
}
use mathlib.Core.Path.{subst}
use tinkiva_sqllite_server.Error.{AppError}
use tinkiva_sqllite_server.Api.Json.{
  integer, float, Value, null, bool, number, string, array, object, is_finite, from_f64,
}
use tinkiva_sqllite_server.Api.Bind.{
  Argument, no_text, truth, int64, double, text, bind_number, bind_value, bind_query,
}
use tinkiva_sqllite_server.Api.Bind.Numbers.{IsParsed}
use tinkiva_sqllite_server.Api.Rows.{Cell, typed_value, cell_value, row_values}

-- What SQLite and sqlx document of the result of an expression `?`: NULL for an absent value, an
-- INTEGER for an integer and, as 0 or 1, for a boolean, a REAL for a finite number, and a TEXT.
pub record Echoes (echo : Argument → Cell) : Type 0 where
  pub absent : (echo no_text).raw ≡ ok none
  pub boolean_type : (b : Bool) → (echo (truth b)).raw ≡ ok (some "INTEGER")
  pub boolean : (b : Bool) → (echo (truth b)).as_i64 ≡ ok (pos (if b then 1 else 0))
  pub integer_type : (z : ℤ) → fits_i64 z ≡ true → (echo (int64 z)).raw ≡ ok (some "INTEGER")
  pub an_integer : (z : ℤ) → fits_i64 z ≡ true → (echo (int64 z)).as_i64 ≡ ok z
  pub real_type : (bits : ℕ) → is_finite bits ≡ true → (echo (double bits)).raw ≡ ok (some "REAL")
  pub real : (bits : ℕ) → is_finite bits ≡ true → (echo (double bits)).as_f64 ≡ ok bits
  pub text_type : (s : String) → (echo (text s)).raw ≡ ok (some "TEXT")
  pub a_text : (s : String) → (echo (text s)).as_string ≡ ok s

-- A parameter that was parsed has finite numbers.
abbrev pub IsSent : Value → Type 0
IsSent (number (float bits)) = is_finite bits ≡ true
IsSent v = IsParsed v

-- What becomes of a parameter on the way: SQLite has no booleans, and JSON is stored as its text.
abbrev pub stored : (Value → String) → Value → Value
stored to_text (bool b) = number (integer (pos (if b then 1 else 0)))
stored to_text (array vs) = string (to_text (array vs))
stored to_text (object ms) = string (to_text (object ms))
stored to_text v = v

module _ (as_f64 : ℤ → ℕ) (to_text : Value → String) (encode : List ℕ → String)
    (echo : Argument → Cell) (echoes : Echoes echo) where
  reads :
      (v : Value) (r : Result AppError Argument) (a b : Argument)
      → r ≡ ok a
      → r ≡ ok b
      → cell_value encode (echo a) ≡ ok v
      → cell_value encode (echo b) ≡ ok v
  reads v r a b made bound read =
      subst (λ a. cell_value encode (echo a) ≡ ok v)
        (ok-injective {E = AppError} a b (sym made ∙ bound)) read

  text_cell : (s : String) → cell_value encode (echo (text s)) ≡ ok (string s)
  unfolding cell_value typed_value
  text_cell s = rw (echoes.text_type s, cell_value, echoes.a_text s) refl

  cell_value-bind_value :
      (v : Value) (a : Argument)
      → IsSent v
      → bind_value as_f64 to_text v ≡ ok a
      → cell_value encode (echo a) ≡ ok (stored to_text v)
  unfolding bind_value bind_number cell_value typed_value from_f64
  cell_value-bind_value null a sent bound =
      reads null _ no_text a refl bound (rw (echoes.absent, cell_value) refl)
  cell_value-bind_value (bool b) a sent bound =
      reads (stored to_text (bool b)) _ (truth b) a refl bound
        (rw (echoes.boolean_type b, cell_value, echoes.boolean b) refl)
  cell_value-bind_value (number (integer z)) a sent bound = elim (Bool-cases (fits_i64 z)) [
    | inl fits ↦
        reads (number (integer z)) _ (int64 z) a (rw (fits, bind_number) refl) bound
          (rw (echoes.integer_type z fits, cell_value, echoes.an_integer z fits) refl)
    | inr large ↦ elim (Bool-cases (fits_u64 z)) [
      | inl unsigned ↦ absurd (ground (arith, bound, large, unsigned))
      | inr neither ↦ absurd (elim sent [
        | inl fits ↦ ground (arith, large, fits)
        | inr unsigned ↦ ground (arith, neither, unsigned)
      ])
    ]
  ]
  cell_value-bind_value (number (float bits)) a sent bound =
      reads (number (float bits)) _ (double bits) a refl bound
        (rw (echoes.real_type bits sent, cell_value, echoes.real bits sent, sent) refl)
  cell_value-bind_value (string s) a sent bound =
      reads (string s) _ (text s) a refl bound (text_cell s)
  cell_value-bind_value (array vs) a sent bound =
      reads (stored to_text (array vs)) _ (text (to_text (array vs))) a refl bound
        (text_cell (to_text (array vs)))
  cell_value-bind_value (object ms) a sent bound =
      reads (stored to_text (object ms)) _ (text (to_text (object ms))) a refl bound
        (text_cell (to_text (object ms)))

  -- Where SQLite gives back what was bound, a row of the bound parameters has as its values the
  -- parameters as they were sent, if they are what a parser gives, but for booleans, which come back
  -- as 0 or 1, and arrays and objects, which come back as their text.
  pub row_values-bind_query :
      (params : List Value) (arguments : List Argument)
      → All IsSent params
      → bind_query as_f64 to_text params ≡ ok arguments
      → row_values encode (map echo arguments) ≡ ok (map (stored to_text) params)
  unfolding row_values bind_query
  row_values-bind_query [] arguments sent bound =
      subst (λ arguments. row_values encode (map echo arguments) ≡ ok [])
        (ok-injective {E = AppError} [] arguments bound) refl
  row_values-bind_query (v ∷ vs) arguments (sent, all_sent) bound =
      elim (Result-cases (bind_value as_f64 to_text v)) [
        | inr (e, failed) ↦ absurd (ground (arith, bound, failed))
        | inl (a, one) ↦ elim (Result-cases (bind_query as_f64 to_text vs)) [
          | inr (e, failed) ↦ absurd (ground (arith, bound, one, failed))
          | inl (rest, found) ↦
              let same : a ∷ rest ≡ arguments =
                ok-injective {E = AppError} (a ∷ rest) arguments
                  (sym (rw (one, found) refl) ∙ bound) in
              subst
                (λ arguments.
                  row_values encode (map echo arguments) ≡ ok (map (stored to_text) (v ∷ vs)))
                same
                (rw
                  (
                    row_values,
                    cell_value-bind_value v a sent one,
                    row_values-bind_query vs rest all_sent found,
                  )
                  refl)
        ]
      ]

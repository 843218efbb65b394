-- ===== src/Api/Bind/Numbers.antt =====
-- Which requests `validate_sql` and `bind_query` of src/api.rs refuse.
use tinkiva_sqllite_server.Prelude.{
  ℕ, String, ◌≤◌, ◌≡◌, ◌≢◌, ◌↔◌, ◌⊎◌, inl, inr, refl, true, List, [], ◌∷◌, Result, ok, err, arith,
  codes, ℤ, pos, negsuc, All, Any, Bool-cases, Result-cases, ok-injective, i64_bound, fits_i64,
  fits_u64,
}
use mathlib.Core.Path.{subst}
use tinkiva_sqllite_server.Error.{AppError, invalid_request}
use tinkiva_sqllite_server.Api.Json.{
  integer, float, Value, null, bool, number, string, array, object,
}
use tinkiva_sqllite_server.Api.Bind.{
  Argument, int64, no_text, truth, double, text, is_whitespace, trim_start, is_empty, validate_sql,
  bind_number, bind_value, bind_query,
}

trim_start_blank :
    (cs : List ℕ) → (is_empty (trim_start cs) ≡ true) ↔ All (λ c. is_whitespace c ≡ true) cs
trim_start_blank [] = (λ h. tt, λ h. refl)
trim_start_blank (c ∷ cs) =
    let (blank, back) = trim_start_blank cs in
    elim (Bool-cases (is_whitespace c)) [
      | inl space ↦ rw (space, trim_start) (λ h. (refl, blank h), λ h. back h.1)
      | inr other ↦
          rw (other, trim_start) (λ h. absurd (ground arith), λ h. absurd (ground (arith, h.0)))
    ]

-- A statement is refused exactly when it has no character but white space.
pub validate_sql-All :
    (sql : String) → (validate_sql sql ≢ ok tt) ↔ All (λ c. is_whitespace c ≡ true) (codes sql)
unfolding validate_sql
validate_sql-All sql =
    let (blank, back) = trim_start_blank (codes sql) in
    elim (Bool-cases (is_empty (trim_start (codes sql)))) [
      | inl h ↦ rw (h, validate_sql) (λ _. blank h, λ _ e. ground arith)
      | inr h ↦
          rw (h, validate_sql)
            (λ refused. absurd (refused refl), λ all. absurd (ground (arith, back all)))
    ]

-- An integer that was parsed is one of an `i64` or of a `u64`.
abbrev pub IsParsed : Value → Type 0
IsParsed (number (integer z)) = (fits_i64 z ≡ true) ⊎ (fits_u64 z ≡ true)
IsParsed v = Unit

abbrev pub IsTooLarge : Value → Type 0
IsTooLarge (number (integer (pos n))) = i64_bound ≤ n
IsTooLarge v = ⊥

-- The argument is what the value is bound as: an integer is an `i64`, a float a double, and an
-- array or an object its text.
abbrev pub IsBoundAs : (Value → String) → Value → Argument → Type 0
IsBoundAs to_text null a = a ≡ no_text
IsBoundAs to_text (bool b) a = a ≡ truth b
IsBoundAs to_text (number (integer z)) a = (a ≡ int64 z) × (fits_i64 z ≡ true)
IsBoundAs to_text (number (float bits)) a = a ≡ double bits
IsBoundAs to_text (string s) a = a ≡ text s
IsBoundAs to_text (array vs) a = a ≡ text (to_text (array vs))
IsBoundAs to_text (object ms) a = a ≡ text (to_text (object ms))

abbrev pub too_large : AppError
too_large = invalid_request "unsigned parameter is larger than SQLite INTEGER"

-- How one value is bound.
record Bound (to_text : Value → String) (v : Value) (r : Result AppError Argument) : Type 0 where
  good : (a : Argument) → r ≡ ok a → IsBoundAs to_text v a × (IsTooLarge v → ⊥)
  bad : (e : AppError) → r ≡ err e → (e ≡ too_large) × IsTooLarge v

Bound-ok :
    (to_text : Value → String) (v : Value) (a : Argument)
    → IsBoundAs to_text v a
    → (IsTooLarge v → ⊥)
    → Bound to_text v (ok a)
Bound-ok to_text v a inside small = record {
  good = λ b h. (subst (IsBoundAs to_text v) (ok-injective {E = AppError} a b h) inside, small);
  bad = λ e h. absurd (ground arith);
}

-- Each argument is what the parameter at its place is bound as, and there are no others.
abbrev pub AreBoundAs : (Value → String) → List Value → List Argument → Type 0
AreBoundAs to_text [] [] = Unit {0}
AreBoundAs to_text [] (a ∷ rest) = ⊥
AreBoundAs to_text (v ∷ vs) [] = ⊥
AreBoundAs to_text (v ∷ vs) (a ∷ rest) = IsBoundAs to_text v a × AreBoundAs to_text vs rest

-- An argument for each parameter, what it is bound as, and no parameter too large.
abbrev pub Answers : (Value → String) → List Value → List Argument → Type 0
Answers to_text params arguments = AreBoundAs to_text params arguments × (Any IsTooLarge params → ⊥)

module _ (as_f64 : ℤ → ℕ) (to_text : Value → String) where
  bind_value-Bound : (v : Value) → IsParsed v → Bound to_text v (bind_value as_f64 to_text v)
  unfolding bind_value bind_number
  bind_value-Bound (number (integer (pos n))) h = elim (Bool-cases (fits_i64 (pos n))) [
    | inl fits ↦ rw fits (
        Bound-ok to_text (number (integer (pos n))) (int64 (pos n)) (refl, fits)
          (λ big. ground arith))
    | inr large ↦ elim (Bool-cases (fits_u64 (pos n))) [
      | inl unsigned ↦
          rw (large, unsigned)
            (record {
              good = λ a e. absurd (ground arith);
              bad = λ e same. (ground arith, ground arith);
            })
      | inr neither ↦ absurd (ground arith)
    ]
  ]
  bind_value-Bound (number (integer (negsuc n))) h = elim (Bool-cases (fits_i64 (negsuc n))) [
    | inl fits ↦ rw fits (
        Bound-ok to_text (number (integer (negsuc n))) (int64 (negsuc n)) (refl, fits) (λ big. big))
    | inr outside ↦ absurd (ground arith)
  ]
  bind_value-Bound null h = Bound-ok to_text null no_text refl (λ big. big)
  bind_value-Bound (number (float bits)) h =
      Bound-ok to_text (number (float bits)) (double bits) refl (λ big. big)
  bind_value-Bound (bool b) h = Bound-ok to_text (bool b) (truth b) refl (λ big. big)
  bind_value-Bound (string s) h = Bound-ok to_text (string s) (text s) refl (λ big. big)
  bind_value-Bound (array vs) h =
      Bound-ok to_text (array vs) (text (to_text (array vs))) refl (λ big. big)
  bind_value-Bound (object ms) h =
      Bound-ok to_text (object ms) (text (to_text (object ms))) refl (λ big. big)

  -- For parameters that were parsed: if `bind_query` succeeds, each is bound in its place, an integer
  -- as that integer in an `i64`, a float as a double, and so on for the other kinds, and no
  -- parameter is an unsigned number above an `i64`; if it fails, one is, and the error says so.
  pub bind_query_bounds :
      (params : List Value)
      → All IsParsed params
      → ((arguments : List Argument)
          → bind_query as_f64 to_text params ≡ ok arguments
          → Answers to_text params arguments)
        × ((e : AppError)
            → bind_query as_f64 to_text params ≡ err e
            → (e ≡ too_large) × Any IsTooLarge params)
  unfolding bind_query
  bind_query_bounds [] h = (
    λ arguments e.
        subst (Answers to_text []) (ok-injective {E = AppError} [] arguments e) (tt, λ none. none),
    λ e same. absurd (ground arith),
  )
  bind_query_bounds (v ∷ vs) h =
      let one = bind_value-Bound v h.0 in
      let (good, bad) = bind_query_bounds vs h.1 in
      elim (Result-cases (bind_value as_f64 to_text v)) [
        | inr (e, failed) ↦
            let (same, large) = one.bad e failed in
            rw (failed, bind_query)
              (λ arguments h. absurd (ground arith), λ e' h. (ground arith, inl large))
        | inl (a, bound) ↦
            let (inside, small) = one.good a bound in
            elim (Result-cases (bind_query as_f64 to_text vs)) [
              | inr (e, failed) ↦
                  let (same, large) = bad e failed in
                  rw (bound, bind_query, failed)
                    (λ arguments h. absurd (ground arith), λ e' h. (ground arith, inr large))
              | inl (found, rest) ↦
                  let (insides, smalls) = good found rest in
                  rw (bound, bind_query, rest)
                    (
                      λ arguments h.
                          subst (Answers to_text (v ∷ vs))
                            (ok-injective {E = AppError} (a ∷ found) arguments h)
                            (
                              (inside, insides),
                              λ some. elim some [ inl big ↦ small big | inr later ↦ smalls later ],
                            ),
                      λ e' h. absurd (ground arith),
                    )
            ]
      ]

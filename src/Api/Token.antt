-- ===== src/Api/Token.antt =====
-- Which requests `authorize` of src/api.rs lets through.
use tinkiva_sqllite_server.Prelude.{
  ℕ, String, ◌≡◌, ◌≢◌, ◌↔◌, inl, inr, refl, sym, ap, ◌∙◌, Bool, true, Option, none, some, List, [],
  ◌∷◌, ◌++◌, ok, arith, length, bytes, Bool-cases, Option-cases,
}
use tinkiva_sqllite_server.Config.{Settings}
use tinkiva_sqllite_server.Api.{eq_bytes, strip_prefix, provided, authorize}

eq_bytes_sound : (bs cs : List ℕ) → eq_bytes bs cs ≡ true → bs ≡ cs
eq_bytes_sound [] [] h = refl
eq_bytes_sound [] (c ∷ cs) h = absurd (ground arith)
eq_bytes_sound (b ∷ bs) [] h = absurd (ground arith)
eq_bytes_sound (b ∷ bs) (c ∷ cs) h = ground (arith, eq_bytes_sound bs cs)

eq_bytes_refl : (bs : List ℕ) → eq_bytes bs bs ≡ true
eq_bytes_refl [] = refl
eq_bytes_refl (b ∷ bs) = ground (arith, eq_bytes_refl bs)

strip_prefix-some :
    (prefix bs rest : List ℕ) → (strip_prefix prefix bs ≡ some rest) ↔ (bs ≡ prefix ++ rest)
strip_prefix-some [] bs rest = (λ h. ground arith, λ h. ground arith)
strip_prefix-some (p ∷ ps) [] rest = (λ h. absurd (ground arith), λ h. absurd (ground arith))
strip_prefix-some (p ∷ ps) (b ∷ bs) rest =
    let ih = strip_prefix-some ps bs rest in (λ h. ground (arith, ih.0), λ h. ground (arith, ih.1))

-- With a token configured, a request passes exactly when what it provides is the token.
authorize-provided :
    (to_str : List ℕ → Bool) (settings : Settings) (token : String) (header : Option (List ℕ))
    → settings.server.auth_token ≡ some token
    → (authorize to_str settings header ≡ ok tt) ↔ (provided to_str header ≡ bytes token)
unfolding authorize
authorize-provided to_str settings token header h =
    elim (Bool-cases (eq_bytes (provided to_str header) (bytes token))) [
      | inl same ↦
          let e = eq_bytes_sound (provided to_str header) (bytes token) same in
          (λ _. e, λ _. rw (h, authorize, same) (ground (arith, ap length e)))
      | inr other ↦ (
        λ passes. absurd (ground arith),
        λ e. absurd (ground (arith, ap (eq_bytes (bytes token)) e, eq_bytes_refl (bytes token))),
      )
    ]

abbrev pub IsBearer : (List ℕ → Bool) → Option (List ℕ) → List ℕ → Type 0
IsBearer to_str header token =
    (value : List ℕ) × (header ≡ some value)
    × (to_str value ≡ true)
    × (value ≡ bytes "Bearer " ++ token)

IsBearer-provided :
    (to_str : List ℕ → Bool) (header : Option (List ℕ)) (token : List ℕ)
    → IsBearer to_str header token
    → provided to_str header ≡ token
unfolding provided
IsBearer-provided to_str header token (value, given, text, shape) =
    rw (given, provided, text, (strip_prefix-some (bytes "Bearer ") value token).1 shape) refl

provided-IsBearer :
    (to_str : List ℕ → Bool) (header : Option (List ℕ)) (token : List ℕ)
    → token ≢ []
    → provided to_str header ≡ token
    → IsBearer to_str header token
unfolding provided
provided-IsBearer to_str none token there h = absurd (there (sym h))
provided-IsBearer to_str (some value) token there h = elim (Bool-cases (to_str value)) [
  | inr binary ↦ absurd (ground arith)
  | inl text ↦ elim (Option-cases (strip_prefix (bytes "Bearer ") value)) [
    | inl other ↦ absurd (ground arith)
    | inr (rest, stripped) ↦
        let same : rest ≡ token = ground arith in
        (
          value,
          refl,
          text,
          (strip_prefix-some (bytes "Bearer ") value rest).0 stripped
              ∙ ap (λ r. bytes "Bearer " ++ r) same,
        )
  ]
]

-- With a token configured that is not empty, a request passes exactly when its header is a text and
-- is `Bearer ` with the token behind it; without a header none passes.
pub authorize-IsBearer :
    (to_str : List ℕ → Bool) (settings : Settings) (token : String) (header : Option (List ℕ))
    → settings.server.auth_token ≡ some token
    → bytes token ≢ []
    → (authorize to_str settings header ≡ ok tt) ↔ IsBearer to_str header (bytes token)
authorize-IsBearer to_str settings token header h there =
    let (passes, holds) = authorize-provided to_str settings token header h in
    (
      λ good. provided-IsBearer to_str header (bytes token) there (passes good),
      λ bearer. holds (IsBearer-provided to_str header (bytes token) bearer),
    )

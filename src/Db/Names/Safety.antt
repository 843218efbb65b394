-- ===== src/Db/Names/Safety.antt =====
-- What the names that src/db.rs accepts look like, and where their files lie.
use tinkiva_sqllite_server.Prelude.{
  ℕ, String, ◌≤◌, ◌<◌, ◌≡◌, ◌≢◌, ◌↔◌, ◌⊎◌, inl, inr, refl, ap, sym, ◌∙◌, true, List, [], ◌∷◌, ◌++◌,
  ok, if◌then◌else◌, length, codes, bytes, utf8, utf8_all, codes_injective, All, arith, Bool-cases,
}
use mathlib.Core.List.{append_assoc, append_cancel_left, append_cancel_right}
use tinkiva_sqllite_server.Config.{DatabaseSettings}
use tinkiva_sqllite_server.Db.Names.{
  all_name_bytes, is_valid_name, validate_database_name, ends_with_slash, join, database_path,
}

-- An ASCII letter or digit.
abbrev pub IsAlnum : ℕ → Type 0
IsAlnum c = ((b'0' ≤ c) × (c ≤ b'9')) ⊎ ((b'A' ≤ c) × (c ≤ b'Z')) ⊎ ((b'a' ≤ c) × (c ≤ b'z'))

abbrev pub IsNameChar : ℕ → Type 0
IsNameChar c = IsAlnum c ⊎ (c ≡ b'-') ⊎ (c ≡ b'_')

-- The rule of the README: 1 to 64 ASCII letters, digits, `-` and `_`, a letter or digit first.
abbrev pub IsName : List ℕ → Type 0
IsName [] = ⊥
IsName (c ∷ cs) = (length (c ∷ cs) ≤ 64) × IsAlnum c × All IsNameChar (c ∷ cs)

-- The bytes of a code point that is no name character hold one that is no name byte.
utf8_name :
    (c : ℕ) (rest : List ℕ)
    → all_name_bytes (utf8 c ++ rest) ≡ true
    → IsNameChar c × (utf8 c ≡ c ∷ []) × (all_name_bytes rest ≡ true)
utf8_name c rest h = ground arith

utf8_all_names :
    (cs : List ℕ) → all_name_bytes (utf8_all cs) ≡ true → All IsNameChar cs × (utf8_all cs ≡ cs)
utf8_all_names [] h = (tt, refl)
utf8_all_names (c ∷ cs) h =
    let (char, single, rest) = utf8_name c (utf8_all cs) h in
    let (chars, same) = utf8_all_names cs rest in
    ((char, chars), ap (λ l. l ++ utf8_all cs) single ∙ ap (λ l. c ∷ l) same)

utf8_ascii : (c : ℕ) → c < 0x80 → utf8 c ≡ c ∷ []
utf8_ascii c h = ground arith

names_utf8_all : (cs : List ℕ) → All IsNameChar cs → (all_name_bytes cs ≡ true) × (utf8_all cs ≡ cs)
names_utf8_all [] h = (refl, refl)
names_utf8_all (c ∷ cs) h =
    let (valid, same) = names_utf8_all cs h.1 in
    (ground arith, ap (λ l. l ++ utf8_all cs) (utf8_ascii c (ground arith)) ∙ ap (λ l. c ∷ l) same)

is_valid_name_parts : (bs : List ℕ) → is_valid_name bs ≡ true → all_name_bytes bs ≡ true
unfolding is_valid_name
is_valid_name_parts [] h = cc
is_valid_name_parts (b ∷ bs) h = ground arith

is_valid_name-IsName : (cs : List ℕ) → All IsNameChar cs → is_valid_name cs ≡ true → IsName cs
unfolding is_valid_name
is_valid_name-IsName [] chars h = cc
is_valid_name-IsName (c ∷ cs) chars h = (ground arith, ground arith, chars)

IsName-is_valid_name :
    (cs : List ℕ) → all_name_bytes cs ≡ true → IsName cs → is_valid_name cs ≡ true
unfolding is_valid_name
IsName-is_valid_name [] valid h = absurd h
IsName-is_valid_name (c ∷ cs) valid h = ground arith

IsName-chars : (cs : List ℕ) → IsName cs → All IsNameChar cs
IsName-chars [] h = absurd h
IsName-chars (c ∷ cs) h = h.2

validate-ok :
    (name : String) → validate_database_name name ≡ ok tt → is_valid_name (bytes name) ≡ true
unfolding validate_database_name
validate-ok name h = ground arith

validate_of_valid :
    (name : String) → is_valid_name (bytes name) ≡ true → validate_database_name name ≡ ok tt
unfolding validate_database_name
validate_of_valid name h = rw h

-- A name is accepted exactly when it has 1 to 64 characters, all of them ASCII letters, digits,
-- `-` or `_`, and the first a letter or a digit.
pub validate_database_name-IsName :
    (name : String) → (validate_database_name name ≡ ok tt) ↔ IsName (codes name)
validate_database_name-IsName name = (
  (λ h.
      let valid = validate-ok name h in
      let (chars, same) = utf8_all_names (codes name) (is_valid_name_parts _ valid) in
      is_valid_name-IsName (codes name) chars (rw (← same) valid)),
  (λ h.
      let (valid, same) = names_utf8_all (codes name) (IsName-chars (codes name) h) in
      validate_of_valid name (rw same (IsName-is_valid_name (codes name) valid h))),
)

-- The database directory with the separator that `join` puts behind it.
abbrev pub directory_prefix : List ℕ → List ℕ
directory_prefix [] = []
directory_prefix (p ∷ path) =
    if ends_with_slash (p ∷ path) then p ∷ path else (p ∷ path) ++ b'/' ∷ []

join-prefix :
    (path : List ℕ) (c : ℕ) (cs : List ℕ)
    → c ≢ b'/'
    → join path (c ∷ cs) ≡ directory_prefix path ++ c ∷ cs
unfolding join
join-prefix [] c cs h = refl
join-prefix (p ∷ path) c cs h = elim (Bool-cases (ends_with_slash (p ∷ path))) [
  | inl e ↦ ground arith
  | inr e ↦ ground (arith, append_assoc (p ∷ path) (b'/' ∷ []) (c ∷ cs))
]

IsNameChar-ne_slash : (c : ℕ) → IsNameChar c → c ≢ b'/'
IsNameChar-ne_slash c h = ground arith

no_slash : (cs : List ℕ) → All IsNameChar cs → All (λ c. c ≢ b'/') (cs ++ codes ".db")
no_slash [] h = ground arith
no_slash (c ∷ cs) h = (IsNameChar-ne_slash c h.0, no_slash cs h.1)

path-split :
    (directory cs rest : List ℕ)
    → IsName cs
    → join directory (cs ++ rest) ≡ directory_prefix directory ++ (cs ++ rest)
path-split directory [] rest h = absurd h
path-split directory (c ∷ cs) rest h =
    join-prefix directory c (cs ++ rest) (IsNameChar-ne_slash c h.2.0)

-- The file of an accepted name is one component of the database directory: its path is the
-- directory, a separator, and `<name>.db` with no separator in it.
pub database_path-in_directory :
    (settings : DatabaseSettings) (name : String)
    → validate_database_name name ≡ ok tt
    → (database_path settings name
        ≡ directory_prefix (codes settings.directory) ++ (codes name ++ codes ".db"))
      × All (λ c. c ≢ b'/') (codes name ++ codes ".db")
unfolding database_path
database_path-in_directory settings name h =
    let valid = (validate_database_name-IsName name).0 h in
    (
      path-split (codes settings.directory) (codes name) (codes ".db") valid,
      no_slash (codes name) (IsName-chars (codes name) valid),
    )

-- Two accepted names that have the same file are the same name: no two tenants share a file.
pub database_path_injective :
    (settings : DatabaseSettings) (a b : String)
    → validate_database_name a ≡ ok tt
    → validate_database_name b ≡ ok tt
    → database_path settings a ≡ database_path settings b
    → a ≡ b
database_path_injective settings a b ha hb e = codes_injective a b (
    append_cancel_right (codes a) (codes b) (codes ".db") (
      append_cancel_left (directory_prefix (codes settings.directory)) _ _ (
        sym (database_path-in_directory settings a ha).0
        ∙ e
        ∙ (database_path-in_directory settings b hb).0)))

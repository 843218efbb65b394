-- ===== src/Db/Names.antt =====
-- src/db.rs: `validate_database_name` and `database_path`. Paths are lists of code points.
use tinkiva_sqllite_server.Prelude.{
  ℕ, String, Bool, true, false, ◌&&◌, ◌||◌, not, List, [], ◌∷◌, ◌++◌, Result, ok, err, leb, ◌==◌,
  if◌then◌else◌, length, codes, bytes,
}
use tinkiva_sqllite_server.Error.{AppError, invalid_database_name}
use tinkiva_sqllite_server.Config.{DatabaseSettings}
pub mod Safety
mod Tests

-- `u8::is_ascii_alphanumeric`
abbrev pub is_ascii_alphanumeric : ℕ → Bool
is_ascii_alphanumeric b =
    (leb b'0' b && leb b b'9') || (leb b'A' b && leb b b'Z') || (leb b'a' b && leb b b'z')

abbrev pub is_name_byte : ℕ → Bool
is_name_byte b = is_ascii_alphanumeric b || b == b'-' || b == b'_'

abbrev all_name_bytes : List ℕ → Bool
all_name_bytes [] = true
all_name_bytes (b ∷ bs) = is_name_byte b && all_name_bytes bs

-- The four tests of `valid`. The first byte is read only when there is one.
pub is_valid_name : List ℕ → Bool
is_valid_name [] = false
is_valid_name (b ∷ bs) =
    leb (length (b ∷ bs)) 64 && is_ascii_alphanumeric b && all_name_bytes (b ∷ bs)

unfoldable pub validate_database_name : String → Result AppError (Unit {0})
unfolding is_valid_name
validate_database_name name =
    if is_valid_name (bytes name) then ok tt else err invalid_database_name

abbrev ends_with_slash : List ℕ → Bool
ends_with_slash [] = false
ends_with_slash (c ∷ []) = c == b'/'
ends_with_slash (c ∷ d ∷ cs) = ends_with_slash (d ∷ cs)

-- `PathBuf::join` on Unix: an absolute component replaces the path, and a separator is put in
-- unless the path is empty or ends in one.
pub join : List ℕ → List ℕ → List ℕ
join path [] = if ends_with_slash path then path else path ++ b'/' ∷ []
join [] (c ∷ cs) = c ∷ cs
join (p ∷ path) (c ∷ cs) =
    if c == b'/'
    then c ∷ cs
    else if ends_with_slash (p ∷ path)
    then (p ∷ path) ++ c ∷ cs
    else (p ∷ path) ++ b'/' ∷ c ∷ cs

-- `self.settings.directory.join(format!("{name}.db"))`
unfoldable pub database_path : DatabaseSettings → String → List ℕ
unfolding join
database_path settings name = join (codes settings.directory) (codes name ++ codes ".db")

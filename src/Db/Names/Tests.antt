-- ===== src/Db/Names/Tests.antt =====
-- Names of src/db.rs, those of its unit test among them.
use tinkiva_sqllite_server.Prelude.{String, ◌≡◌, ◌≢◌, ◌↔◌, refl, ok, err, ◌++◌, codes, All}
use tinkiva_sqllite_server.Error.{invalid_database_name}
use tinkiva_sqllite_server.Config.{default}
use tinkiva_sqllite_server.Db.Names.{validate_database_name, database_path}
use tinkiva_sqllite_server.Db.Names.Safety.{
  IsName, directory_prefix, validate_database_name-IsName, database_path-in_directory,
  database_path_injective,
}

abbrev tenant : String
tenant = "tenant-01_ok"

tenant_valid : validate_database_name tenant ≡ ok tt
unfolding validate_database_name
tenant_valid = refl

escape_invalid : validate_database_name "../escape" ≡ err invalid_database_name
unfolding validate_database_name
escape_invalid = refl

space_invalid : validate_database_name "with space" ≡ err invalid_database_name
unfolding validate_database_name
space_invalid = refl

empty_invalid : validate_database_name "" ≡ err invalid_database_name
unfolding validate_database_name
empty_invalid = refl

accent_invalid : validate_database_name "café" ≡ err invalid_database_name
unfolding validate_database_name
accent_invalid = refl

tenant_path : database_path default.database "acme" ≡ codes "./data/databases/acme.db"
unfolding database_path
tenant_path = refl

validate_database_name-IsName_example :
    (validate_database_name tenant ≡ ok tt) ↔ IsName (codes tenant)
validate_database_name-IsName_example = validate_database_name-IsName tenant

database_path-in_directory_example :
    (database_path default.database tenant
      ≡ directory_prefix (codes default.database.directory) ++ (codes tenant ++ codes ".db"))
    × All (λ c. c ≢ b'/') (codes tenant ++ codes ".db")
database_path-in_directory_example = database_path-in_directory default.database tenant tenant_valid

database_path_injective_example : tenant ≡ tenant
database_path_injective_example =
    database_path_injective default.database tenant tenant tenant_valid tenant_valid refl

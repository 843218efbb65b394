-- ===== src/Db/Tenancy/Isolation.antt =====
-- No two tenants of src/db.rs share a file.
use tinkiva_sqllite_server.Prelude.{
  ℕ, String, ◌≡◌, ◌≢◌, inl, inr, sym, ap, ◌∙◌, some, ok, arith, Result-cases,
}
use tinkiva_sqllite_server.Config.{DatabaseSettings}
use tinkiva_sqllite_server.Db.Names.{validate_database_name, database_path}
use tinkiva_sqllite_server.Db.Names.Safety.{database_path_injective}
use tinkiva_sqllite_server.Db.Pools.{Pools}
use tinkiva_sqllite_server.Db.State.{DatabaseManager, DatabaseLease, lease_pools}
use tinkiva_sqllite_server.Db.Acquire.{Turn, acquire}
use tinkiva_sqllite_server.Db.Tenancy.{Tenancy, IsOnFile}
use tinkiva_sqllite_server.Db.Tenancy.Leases.{Peaceful, IsServing, some_injective}
use tinkiva_sqllite_server.Db.Tenancy.Acquire.{acquire-Served}

acquired_name_valid :
    (settings : DatabaseSettings) (turns : ℕ → Turn) (name : String) (m : DatabaseManager)
    (l : DatabaseLease)
    → (acquire turns settings name m).0 ≡ ok l
    → validate_database_name name ≡ ok tt
unfolding acquire
acquired_name_valid settings turns name m l h = elim (Result-cases (validate_database_name name)) [
  | inl (_, valid) ↦ valid
  | inr (error, bad) ↦ absurd (ground arith)
]

serving_pools :
    (settings : DatabaseSettings) (name : String) (l : DatabaseLease) (m : DatabaseManager)
    → IsServing settings name l.entry m
    → (pools : Pools) × (lease_pools l m ≡ some pools)
      × IsOnFile (database_path settings name) pools
unfolding lease_pools
serving_pools settings name l m (e, pools, read, _, there, on_file) =
    (pools, rw (read, lease_pools) there, on_file)

module _ (settings : DatabaseSettings) where
  -- Where entries are linked under their own names with pools on their own files, and the other
  -- tasks keep that, the pools of a lease that `acquire` gives are there, and both are on the file of
  -- the name that was asked for.
  pub lease_pools-acquire :
      (turns : ℕ → Turn) (name : String) (m : DatabaseManager) (l : DatabaseLease)
      → ((n : ℕ) → Peaceful settings (turns n))
      → Tenancy settings m
      → (acquire turns settings name m).0 ≡ ok l
      → (pools : Pools) × (lease_pools l (acquire turns settings name m).1 ≡ some pools)
        × IsOnFile (database_path settings name) pools
  lease_pools-acquire turns name m l peaceful h given =
      serving_pools settings name l (acquire turns settings name m).1
        ((acquire-Served settings name turns m peaceful h).serving l given)

  -- Under the same conditions, the leases that two names are given, each in a state of its own, are
  -- on two files, unless the names are the same.
  pub acquire_isolated :
      (turns turns' : ℕ → Turn) (name name' : String) (m m' : DatabaseManager)
      (l l' : DatabaseLease) (pools pools' : Pools)
      → ((n : ℕ) → Peaceful settings (turns n))
      → ((n : ℕ) → Peaceful settings (turns' n))
      → Tenancy settings m
      → Tenancy settings m'
      → name ≢ name'
      → (acquire turns settings name m).0 ≡ ok l
      → (acquire turns' settings name' m').0 ≡ ok l'
      → lease_pools l (acquire turns settings name m).1 ≡ some pools
      → lease_pools l' (acquire turns' settings name' m').1 ≡ some pools'
      → pools.writer.options.filename ≢ pools'.writer.options.filename
  acquire_isolated turns turns' name name' m m' l l' pools pools' peaceful peaceful' h h' differ
        given given' read read' shared =
      let (found, there, on_file) = lease_pools-acquire turns name m l peaceful h given in
      let (found', there', on_file') = lease_pools-acquire turns' name' m' l' peaceful' h' given' in
      let same : found ≡ pools = some_injective found pools (sym there ∙ read) in
      let same' : found' ≡ pools' = some_injective found' pools' (sym there' ∙ read') in
      differ (
        database_path_injective settings name name'
          (acquired_name_valid settings turns name m l given)
          (acquired_name_valid settings turns' name' m' l' given')
          (sym on_file.0
            ∙ ap (λ (pools : Pools). pools.writer.options.filename) same
            ∙ shared
            ∙ sym (ap (λ (pools : Pools). pools.writer.options.filename) same')
            ∙ on_file'.0))

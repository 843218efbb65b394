-- ===== src/Db/Tenancy/Leases.antt =====
-- Opening a leased entry of src/db.rs, in a round of `acquire`, and the file of the name.
use tinkiva_sqllite_server.Prelude.{
  ℕ, String, ◌≡◌, inl, inr, refl, sym, ap, ◌∙◌, true, Option, some, List, ok, err, arith, ◌==◌,
  get_elem?, Bool-cases, Option-cases, Result-cases, ok-injective,
}
use mathlib.Core.Path.{subst}
use tinkiva_sqllite_server.Error.{SqlxError, AppError, database}
use tinkiva_sqllite_server.Config.{DatabaseSettings}
use tinkiva_sqllite_server.Metrics
use tinkiva_sqllite_server.Db.Names.{database_path}
use tinkiva_sqllite_server.Db.Pools.{Pools, PoolOptions, pools_of, open_pools}
use tinkiva_sqllite_server.Db.Entry.{DatabaseEntry}
use tinkiva_sqllite_server.Db.Entry
use tinkiva_sqllite_server.Db.Registry.{lookup, get_elem?-update}
use tinkiva_sqllite_server.Db.State.{
  DatabaseManager, DatabaseLease, modify, count, touch, drop_lease,
}
use tinkiva_sqllite_server.Db.Acquire.{Others, Turn, remove_if, ensure_open, Outcome, open_leased}
use tinkiva_sqllite_server.Db.Tenancy.{
  IsNamed, IsFiled, IsOnFile, IsKept, IsKept-IsNamed, Tenancy, Tenant, Tenant-refl, Tenant-trans,
  modify-Tenant,
}
use tinkiva_sqllite_server.Db.Tenancy.Steps.{touch-Tenant, drop-Tenant, frame-Tenant, remove-Tenant}

-- Other tasks that keep the tenants apart.
abbrev pub IsPeaceful : DatabaseSettings → Others → Type 0
IsPeaceful settings others =
    (m : DatabaseManager) → Tenancy settings m → Tenant settings m (others m)

pub record Peaceful (settings : DatabaseSettings) (turn : Turn) : Type 0 where
  pub at_lock : IsPeaceful settings turn.at_lock
  pub at_yield : IsPeaceful settings turn.at_yield
  pub at_tenant : IsPeaceful settings turn.at_tenant
  pub at_process : IsPeaceful settings turn.at_process
  pub at_open : IsPeaceful settings turn.at_open

-- The entry at `id` has the name, and open pools on its file.
abbrev pub IsServing : DatabaseSettings → String → ℕ → DatabaseManager → Type 0
IsServing settings name id m =
    (e : DatabaseEntry) × (pools : Pools) × (get_elem? m.heap id ≡ some e)
    × (e.name ≡ name)
    × (e.pools ≡ some pools)
    × IsOnFile (database_path settings name) pools

-- What a round leaves: the tenants apart, and on success a lease on the name's own file.
pub record Served (settings : DatabaseSettings) (name : String) (m : DatabaseManager) (r : Outcome)
    : Type 0 where
  pub kept : Tenant settings m r.1
  pub serving : (l : DatabaseLease) → r.0 ≡ ok l → IsServing settings name l.entry r.1

open_pools-IsOnFile :
    (connect : PoolOptions → Option SqlxError) (settings : DatabaseSettings) (path : List ℕ)
    (pools : Pools)
    → open_pools connect settings path ≡ ok pools
    → IsOnFile path pools
unfolding open_pools pools_of
open_pools-IsOnFile connect settings path pools h =
    elim (Option-cases (connect (pools_of settings path).writer)) [
      | inl e ↦
          subst (IsOnFile path)
            (ok-injective {E = SqlxError} (pools_of settings path) pools (ground arith))
            (refl, refl)
      | inr (x, e) ↦ absurd (ground arith)
    ]

pub some_injective : (a b : Pools) → some a ≡ some b → a ≡ b
some_injective a b h = cc

-- Opening the entry of a name puts its pools on the name's file, if there are none yet.
entry_opened :
    (connect : PoolOptions → Option SqlxError) (settings : DatabaseSettings) (name : String)
    (e : DatabaseEntry)
    → e.name ≡ name
    → IsFiled settings e
    → let r = Entry.ensure_open connect settings (database_path settings name) e in
      (r.0.name ≡ e.name)
      × ((pools : Pools) → e.pools ≡ some pools → r.0.pools ≡ some pools)
      × IsFiled settings r.0
      × (r.1 ≡ ok tt → (pools : Pools) × (r.0.pools ≡ some pools))
unfolding Entry.ensure_open
entry_opened connect settings name e same filed = elim (Option-cases e.pools) [
  | inr (pools, there) ↦
      rw (there, Entry.ensure_open) (refl, (λ p q. there ∙ q), filed, λ h. (pools, there))
  | inl shut ↦ elim (Result-cases (open_pools connect settings (database_path settings name))) [
    | inl (pools, opened) ↦
        rw (shut, Entry.ensure_open, opened)
          (
            refl,
            (λ p q. absurd (ground arith)),
            (λ p q.
                subst (λ n. IsOnFile (database_path settings n) p) (sym same)
                  (subst (IsOnFile (database_path settings name)) (some_injective pools p q) (
                    open_pools-IsOnFile connect settings (database_path settings name) pools
                      opened))),
            λ h. (pools, refl),
          )
    | inr (error, failed) ↦
        rw (shut, Entry.ensure_open, failed)
          (
            refl,
            (λ p q. absurd (ground arith)),
            (λ p q. absurd (ground arith)),
            λ h. absurd (ground arith),
          )
  ]
]

read_modified :
    (id : ℕ) (f : DatabaseEntry → DatabaseEntry) (m : DatabaseManager) (e : DatabaseEntry)
    → get_elem? m.heap id ≡ some e
    → get_elem? (modify id f m).heap id ≡ some (f e)
unfolding modify
read_modified id f m e read = ground (arith, get_elem?-update id id f m.heap)

module _ (settings : DatabaseSettings) (name : String) where
  pub refused-Served :
      (error : AppError) (m m' : DatabaseManager)
      → Tenant settings m m'
      → Served settings name m (err error, m')
  refused-Served error m m' kept = record { kept = kept; serving = λ l h. absurd (ground arith) }

  -- A round after a step that keeps the tenants apart.
  pub after-Served :
      (m m' : DatabaseManager) (r : Outcome)
      → Tenant settings m m'
      → Served settings name m' r
      → Served settings name m r
  after-Served m m' r first rest = record {
    kept = Tenant-trans settings m m' r.1 first λ _. rest.kept;
    serving = rest.serving;
  }

  pub count-Tenant :
      (f : Metrics.Metrics → Metrics.Metrics) (m : DatabaseManager)
      → Tenancy settings m
      → Tenant settings m (count f m)
  unfolding count
  count-Tenant f m h = frame-Tenant settings m.slots (f m.metrics) m.spawned m.events m h

  pub remove_if-Tenant :
      (id : ℕ) (m : DatabaseManager) → Tenancy settings m → Tenant settings m (remove_if name id m)
  unfolding remove_if
  remove_if-Tenant id m h = elim (Option-cases (lookup name m.entries)) [
    | inl missing ↦ rw (missing, remove_if) (Tenant-refl settings m h)
    | inr (found, e) ↦ elim (Bool-cases (found == id)) [
      | inl same ↦ rw (e, remove_if, same) (remove-Tenant settings name m h)
      | inr other ↦ rw (e, remove_if, other) (Tenant-refl settings m h)
    ]
  ]

  pub ensure_open-Tenant :
      (turn : Turn) (id : ℕ) (m : DatabaseManager)
      → IsNamed m.heap name id
      → Tenancy settings m
      → Tenant settings m (ensure_open turn settings name id m).1
        × ((ensure_open turn settings name id m).0 ≡ ok tt
            → IsServing settings name id (ensure_open turn settings name id m).1)
  unfolding ensure_open
  ensure_open-Tenant turn id m (e, read, same) h =
      let after = (Entry.ensure_open turn.connect settings (database_path settings name) e).0 in
      let (kept_name, kept_pools, filed, opened) =
        entry_opened turn.connect settings name e same (h.filed id e read) in
      rw (read, ensure_open)
        (
          modify-Tenant settings id (λ _. after) m
              (λ e' read'.
                let same_entry : e ≡ e' = ground arith in
                (
                  kept_name ∙ ap (λ (e : DatabaseEntry). e.name) same_entry,
                  (λ pools there.
                      kept_pools pools (ap (λ (e : DatabaseEntry). e.pools) same_entry ∙ there)),
                  filed,
                ))
              h,
          λ good.
              let (pools, there) = opened good in
              (
                after,
                pools,
                read_modified id (λ _. after) m e read,
                kept_name ∙ same,
                there,
                subst (λ n. IsOnFile (database_path settings n) pools) (kept_name ∙ same)
                    (filed pools there),
              ),
        )

  -- A read or an access of another kind keeps what is served.
  served_kept :
      (id : ℕ) (m m' : DatabaseManager)
      → IsKept m.heap m'.heap
      → IsServing settings name id m
      → IsServing settings name id m'
  served_kept id m m' kept (e, pools, read, same, there, on_file) =
      let (e', read', name', pools') = kept id e read in
      (e', pools, read', name' ∙ same, pools' pools there, on_file)

  pub open_leased-Served :
      (turn : Turn) (id : ℕ) (m : DatabaseManager)
      → Peaceful settings turn
      → IsNamed m.heap name id
      → Tenancy settings m
      → Served settings name m (open_leased turn settings name id m)
  unfolding open_leased drop_lease
  open_leased-Served turn id m peaceful named h =
      let before = peaceful.at_open m h in
      let named' = IsKept-IsNamed m.heap (turn.at_open m).heap name id before.kept named in
      let (opened, serving) = ensure_open-Tenant turn id (turn.at_open m) named' before.tenancy in
      let m' = (ensure_open turn settings name id (turn.at_open m)).1 in
      after-Served m (turn.at_open m) _ before
        (elim (Result-cases (ensure_open turn settings name id (turn.at_open m)).0) [
          | inl (_, good) ↦
              let touched = touch-Tenant settings id turn.touched_ms m' opened.tenancy in
              rw (good, open_leased)
                (record {
                  kept = Tenant-trans settings (turn.at_open m) m' _ opened λ _. touched;
                  serving = λ l e.
                      subst
                        (λ (l : DatabaseLease).
                          IsServing settings name l.entry (touch id turn.touched_ms m'))
                        (ok-injective {E = AppError} (record { entry = id; slots = true }) l e)
                        (served_kept id m' (touch id turn.touched_ms m') touched.kept
                          (serving good));
                })
          | inr (error, failed) ↦
              rw (failed, open_leased)
                (refused-Served (database error) (turn.at_open m) _ (
                  Tenant-trans settings (turn.at_open m) m' _ opened λ h'.
                    Tenant-trans settings m' (remove_if name id m') _ (remove_if-Tenant id m' h') (
                      drop-Tenant settings turn.dropped_ms
                        (record { entry = id; tenant = true; process = true })
                        (remove_if name id m'))))
        ])

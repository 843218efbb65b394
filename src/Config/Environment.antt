-- ===== src/Config/Environment.antt =====
-- How the environment overrides the settings in src/config.rs.
use tinkiva_sqllite_server.Prelude.{
  ℕ, String, ◌≡◌, refl, sym, ◌⊎◌, inl, inr, Option, none, some, Result, ok, on_ok, ok-injective,
  arith, Option-cases, Result-cases, Bool-cases, str_eq, eq_iff, ◌≢◌, ◌∙◌, ap,
}
use mathlib.Core.Path.{subst, fun_ext}
use tinkiva_sqllite_server.Config.{
  Settings, Width, u32, u64, set_string, set_optional_string, set_number, set_cache_size,
  apply_environment,
}

module _ (var : String → Option String) (parse : Width → String → Result String ℕ) where
  -- A variable that is not set leaves the setting; one that is set has parsed to the new value.
  abbrev pub Overridden : Width → String → ℕ → ℕ → Type 0
  Overridden width key before after =
      ((var key ≡ none) × (after ≡ before))
      ⊎ ((value : String) × (var key ≡ some value) × (parse width value ≡ ok after))

  set_number-Overridden :
      (width : Width) (key : String) (before after : ℕ)
      → set_number var parse width key before ≡ ok after
      → Overridden width key before after
  unfolding set_number
  set_number-Overridden width key before after h = elim (Option-cases (var key)) [
    | inl e ↦ inl (e, ground arith)
    | inr (value, e) ↦ inr (value, e, ground arith)
  ]

  abbrev pub OverriddenCache : Option ℕ → Option ℕ → Type 0
  OverriddenCache before after =
      ((var "TINKIVA_CACHE_SIZE_KB" ≡ none) × (after ≡ before))
      ⊎ ((value : String) × (n : ℕ) × (var "TINKIVA_CACHE_SIZE_KB" ≡ some value)
          × (parse u32 value ≡ ok n)
          × (after ≡ some n))

  set_cache_size-OverriddenCache :
      (before after : Option ℕ)
      → set_cache_size var parse before ≡ ok after
      → OverriddenCache before after
  unfolding set_cache_size
  set_cache_size-OverriddenCache before after h =
      elim (Option-cases (var "TINKIVA_CACHE_SIZE_KB")) [
        | inl e ↦ inl (e, ground arith)
        | inr (value, e) ↦ elim (Result-cases (parse u32 value)) [
          | inl (n, p) ↦ inr (value, n, e, p, ground arith)
          | inr (why, p) ↦ absurd (ground arith)
        ]
      ]

  abbrev pub OverriddenText : String → String → String → Type 0
  OverriddenText key before after =
      ((var key ≡ none) × (after ≡ before))
      ⊎ ((value : String) × (var key ≡ some value) × (after ≡ value))

  set_string-OverriddenText :
      (key before : String) → OverriddenText key before (set_string var parse key before)
  unfolding set_string
  set_string-OverriddenText key before = elim (Option-cases (var key)) [
    | inl e ↦ inl (e, rw (set_string, e) refl)
    | inr (value, e) ↦ inr (value, e, rw (set_string, e) refl)
  ]

  -- An empty text takes the token away.
  abbrev pub OverriddenToken : Option String → Option String → Type 0
  OverriddenToken before after =
      ((var "TINKIVA_AUTH_TOKEN" ≡ none) × (after ≡ before))
      ⊎ ((var "TINKIVA_AUTH_TOKEN" ≡ some "") × (after ≡ none))
      ⊎ ((value : String) × (var "TINKIVA_AUTH_TOKEN" ≡ some value)
          × (value ≢ "")
          × (after ≡ some value))

  set_optional_string-OverriddenToken :
      (before : Option String)
      → OverriddenToken before (set_optional_string var parse "TINKIVA_AUTH_TOKEN" before)
  unfolding set_optional_string
  set_optional_string-OverriddenToken before = elim (Option-cases (var "TINKIVA_AUTH_TOKEN")) [
    | inl e ↦ inl (e, rw (set_optional_string, e) refl)
    | inr (value, e) ↦ elim (Bool-cases (str_eq value "")) [
      | inl empty ↦
          inr
            (inl (e ∙ ap some ((eq_iff value "").0 empty), rw (set_optional_string, e, empty) refl))
      | inr other ↦ inr (
          inr (
            value,
            e,
            (λ same. ground (arith, eq_iff value "")),
            rw (set_optional_string, e, other) refl,
          ))
    ]
  ]

  -- The settings `t` are `s` with the variables of the environment in place.
  pub record IsOverridden (s t : Settings) : Type 0 where
    pub max_open_databases :
        Overridden u64 "TINKIVA_MAX_OPEN_DATABASES" s.database.max_open_databases
          t.database.max_open_databases
    pub idle_timeout_seconds :
        Overridden u64 "TINKIVA_IDLE_TIMEOUT_SECONDS" s.database.idle_timeout_seconds
          t.database.idle_timeout_seconds
    pub cleanup_interval_seconds :
        Overridden u64 "TINKIVA_CLEANUP_INTERVAL_SECONDS" s.database.cleanup_interval_seconds
          t.database.cleanup_interval_seconds
    pub checkpoint_interval_seconds :
        Overridden u64 "TINKIVA_CHECKPOINT_INTERVAL_SECONDS" s.database.checkpoint_interval_seconds
          t.database.checkpoint_interval_seconds
    pub reader_connections :
        Overridden u32 "TINKIVA_READER_CONNECTIONS" s.database.reader_connections
          t.database.reader_connections
    pub busy_timeout_ms :
        Overridden u64 "TINKIVA_BUSY_TIMEOUT_MS" s.database.busy_timeout_ms
          t.database.busy_timeout_ms
    pub acquire_timeout_seconds :
        Overridden u64 "TINKIVA_ACQUIRE_TIMEOUT_SECONDS" s.database.acquire_timeout_seconds
          t.database.acquire_timeout_seconds
    pub max_result_rows :
        Overridden u64 "TINKIVA_MAX_RESULT_ROWS" s.database.max_result_rows
          t.database.max_result_rows
    pub writer_cache_size_kb :
        Overridden u32 "TINKIVA_WRITER_CACHE_SIZE_KB" s.database.writer_cache_size_kb
          t.database.writer_cache_size_kb
    pub reader_cache_size_kb :
        Overridden u32 "TINKIVA_READER_CACHE_SIZE_KB" s.database.reader_cache_size_kb
          t.database.reader_cache_size_kb
    pub statement_cache_capacity :
        Overridden u64 "TINKIVA_STATEMENT_CACHE_CAPACITY" s.database.statement_cache_capacity
          t.database.statement_cache_capacity
    pub max_concurrent_requests :
        Overridden u64 "TINKIVA_MAX_CONCURRENT_REQUESTS" s.database.max_concurrent_requests
          t.database.max_concurrent_requests
    pub max_concurrent_requests_per_database :
        Overridden u64 "TINKIVA_MAX_CONCURRENT_REQUESTS_PER_DATABASE"
          s.database.max_concurrent_requests_per_database
          t.database.max_concurrent_requests_per_database
    pub admission_timeout_ms :
        Overridden u64 "TINKIVA_ADMISSION_TIMEOUT_MS" s.database.admission_timeout_ms
          t.database.admission_timeout_ms
    pub mmap_size_mb :
        Overridden u64 "TINKIVA_MMAP_SIZE_MB" s.database.mmap_size_mb t.database.mmap_size_mb
    pub wal_size_limit_mb :
        Overridden u64 "TINKIVA_WAL_SIZE_LIMIT_MB" s.database.wal_size_limit_mb
          t.database.wal_size_limit_mb
    pub cache_size_kb : OverriddenCache s.database.cache_size_kb t.database.cache_size_kb
    pub bind : OverriddenText "TINKIVA_BIND" s.server.bind t.server.bind
    pub directory : OverriddenText "TINKIVA_DATABASE_DIR" s.database.directory t.database.directory
    pub auth_token : OverriddenToken s.server.auth_token t.server.auth_token
    pub body_limit_bytes : t.server.body_limit_bytes ≡ s.server.body_limit_bytes
    pub request_timeout_seconds :
        t.server.request_timeout_seconds ≡ s.server.request_timeout_seconds

  -- When the environment is applied, each of the sixteen numeric variables, and that of the shared
  -- cache size, leaves its setting if it is not set and has parsed to the new value if it is; the
  -- address and the directory likewise become the text of their variables; the token does too, but
  -- an empty text takes it away; the body limit and the request timeout stay.
  pub apply_environment-IsOverridden :
      (s t : Settings) → apply_environment var parse s ≡ ok t → IsOverridden s t
  unfolding apply_environment
  apply_environment-IsOverridden s t h =
      on_ok _ _
        (λ a0 e0 h0.
          on_ok _ _
            (λ a1 e1 h1.
              on_ok _ _
                (λ a2 e2 h2.
                  on_ok _ _
                    (λ a3 e3 h3.
                      on_ok _ _
                        (λ a4 e4 h4.
                          on_ok _ _
                            (λ a5 e5 h5.
                              on_ok _ _
                                (λ a6 e6 h6.
                                  on_ok _ _
                                    (λ a7 e7 h7.
                                      on_ok (set_cache_size var parse s.database.cache_size_kb) _
                                        (λ a8 e8 h8.
                                          on_ok _ _
                                            (λ a9 e9 h9.
                                              on_ok _ _
                                                (λ a10 e10 h10.
                                                  on_ok _ _
                                                    (λ a11 e11 h11.
                                                      on_ok _ _
                                                        (λ a12 e12 h12.
                                                          on_ok _ _
                                                            (λ a13 e13 h13.
                                                            on_ok _ _
                                                            (λ a14 e14 h14.
                                                            on_ok _ _
                                                            (λ a15 e15 h15.
                                                            on_ok _ _
                                                            (λ a16 e16 h16.
                                                            subst (IsOverridden s)
                                                            (ok-injective _ _ h16)
                                                            (record {
                                                            max_open_databases =
                                                            set_number-Overridden u64 _ _ _ e0;
                                                            idle_timeout_seconds =
                                                            set_number-Overridden u64 _ _ _ e1;
                                                            cleanup_interval_seconds =
                                                            set_number-Overridden u64 _ _ _ e2;
                                                            checkpoint_interval_seconds =
                                                            set_number-Overridden u64 _ _ _ e3;
                                                            reader_connections =
                                                            set_number-Overridden u32 _ _ _ e4;
                                                            busy_timeout_ms =
                                                            set_number-Overridden u64 _ _ _ e5;
                                                            acquire_timeout_seconds =
                                                            set_number-Overridden u64 _ _ _ e6;
                                                            max_result_rows =
                                                            set_number-Overridden u64 _ _ _ e7;
                                                            writer_cache_size_kb =
                                                            set_number-Overridden u32 _ _ _ e9;
                                                            reader_cache_size_kb =
                                                            set_number-Overridden u32 _ _ _ e10;
                                                            statement_cache_capacity =
                                                            set_number-Overridden u64 _ _ _ e11;
                                                            max_concurrent_requests =
                                                            set_number-Overridden u64 _ _ _ e12;
                                                            max_concurrent_requests_per_database =
                                                            set_number-Overridden u64 _ _ _ e13;
                                                            admission_timeout_ms =
                                                            set_number-Overridden u64 _ _ _ e14;
                                                            mmap_size_mb =
                                                            set_number-Overridden u64 _ _ _ e15;
                                                            wal_size_limit_mb =
                                                            set_number-Overridden u64 _ _ _ e16;
                                                            cache_size_kb =
                                                            set_cache_size-OverriddenCache _ _ e8;
                                                            bind = set_string-OverriddenText _ _;
                                                            directory =
                                                            set_string-OverriddenText _ _;
                                                            auth_token =
                                                            set_optional_string-OverriddenToken _;
                                                            body_limit_bytes = refl;
                                                            request_timeout_seconds = refl;
                                                            }))
                                                            h15)
                                                            h14)
                                                            h13)
                                                            h12)
                                                        h11)
                                                    h10)
                                                h9)
                                            h8)
                                        h7)
                                    h6)
                                h5)
                            h4)
                        h3)
                    h2)
                h1)
            h0)
        h

  -- An environment in which no variable is set leaves the settings as they were.
  pub apply_environment_unset :
      (s : Settings) → ((key : String) → var key ≡ none) → apply_environment var parse s ≡ ok s
  unfolding apply_environment
  apply_environment_unset s unset =
      subst (λ v. apply_environment v parse s ≡ ok s) (sym (fun_ext unset)) refl

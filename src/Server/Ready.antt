-- ===== src/Server/Ready.antt =====
-- What the database holds when the server starts to listen.
use tempcdn.Prelude.{
  ◌≡◌, ◌≢◌, refl, ap, ◌∙◌, sym, true, Option, some, none, [], any, arith, inl, inr, Bool-cases,
}
use tempcdn.Text.{Text}
use tempcdn.Action.{Result, ok, err, Action, pure, wrap, ◌>>=◌}
use tempcdn.Action.Keeps.{bind-eq-ok, bind_of_ok, wrap-eq-ok}
use tempcdn.Config.{Config, ConfigError, load}
use tempcdn.Metadata.Model.{Time, UploadSettings, legal_doc_terms, legal_doc_privacy}
use tempcdn.Metadata.Tables.{AdminDb, AdminTables}
use tempcdn.Metadata.Settings.{get_upload_settings}
use tempcdn.Metadata.Legal.{has_type}
use tempcdn.Admin.Bootstrap.{
  BootstrapConfig, UploadSettingsDefaults, bootstrap, seed_upload_settings, seed_legal_documents,
}
use tempcdn.Metadata.Conn.{Conn}
use tempcdn.Metadata.Migrate.{Schema, MigrateError, migrate}
use tempcdn.NodeStatus.{resolve_node_id}
use tempcdn.Server.Seeds.{
  IsSeeded, bootstrap-eq-ok, seed_upload_settings-eq-ok, get_upload_settings-eq-ok,
  seed_legal_documents-eq-ok,
}
use tempcdn.RateLimit.{ConcurrencyLimiter, new_concurrency_limiter}
use tempcdn.Metadata.Connect.{is_postgres_dsn}
use tempcdn.Server.{
  invalid_dsn, no_pool, no_storage, no_hostname, no_node_id, limiter_panics, with_limiter,
  with_hostname, with_node_id, prepare, start, start_with, World, Started, Surroundings, StartError,
  bootstrapping, seeding_settings, seeding_documents, loading_settings, rules_of_settings,
  after_load, after_migrate, after_prepare, build,
}

-- What the database of the administration holds, for the upload settings that were read.
pub record IsPrepared (u : UploadSettings) (t : AdminTables) : Type 0 where
  pub admins : t.admins ≢ []
  pub settings : t.upload_settings ≡ some u
  pub terms : any (has_type legal_doc_terms) t.legal_documents ≡ true
  pub privacy : any (has_type legal_doc_privacy) t.legal_documents ≡ true

prepare-IsPrepared :
    (g : Text → Option Text) (cfg : Config) (id : Text) (now : Time) (c : AdminDb)
    (u : UploadSettings)
    → (prepare g cfg id now c).0 ≡ ok u
    → IsPrepared u (prepare g cfg id now c).1.tables
unfolding prepare
prepare-IsPrepared g cfg id now c u h =
    let account : BootstrapConfig = record {
      username = cfg.admin_bootstrap_username;
      password = cfg.admin_bootstrap_password;
    } in
    let defaults : UploadSettingsDefaults = record {
      max_upload_size_mb = cfg.server_max_upload_mb;
      allowed_mime_types = cfg.allowed_mime_types;
      blocked_extensions = cfg.blocked_extensions;
    } in
    let boot : Action AdminDb StartError (Unit {0}) =
      wrap bootstrapping (bootstrap g account id now) in
    let seed : Action AdminDb StartError (Unit {0}) =
      wrap seeding_settings (seed_upload_settings defaults now) in
    let get : Action AdminDb StartError UploadSettings =
      wrap loading_settings get_upload_settings in
    let documents : Action AdminDb StartError (Unit {0}) =
      wrap seeding_documents (seed_legal_documents now) in
    let last : UploadSettings → Action AdminDb StartError UploadSettings =
      λ s. documents >>= λ _. pure s in
    let third : Action AdminDb StartError UploadSettings = get >>= last in
    let second : Action AdminDb StartError UploadSettings = seed >>= λ _. third in
    let (x, booted, h2) = bind-eq-ok boot (λ _. second) c u h in
    let c1 : AdminDb = (bootstrap g account id now c).1 in
    let (y, seeded, h3) = bind-eq-ok seed (λ _. third) c1 u h2 in
    let c2 : AdminDb = (seed_upload_settings defaults now c1).1 in
    let (s, got, h4) = bind-eq-ok get last c2 u h3 in
    let c3 : AdminDb = (get_upload_settings c2).1 in
    let (z, written, h5) = bind-eq-ok documents (λ _. pure s) c3 u h4 in
    let is_seeded : IsSeeded c3 (seed_legal_documents now c3).1 =
      seed_legal_documents-eq-ok now c3
        (wrap-eq-ok seeding_documents (seed_legal_documents now) c3 tt written) in
    let (same_tables, stored) =
      get_upload_settings-eq-ok c2 s (wrap-eq-ok loading_settings get_upload_settings c2 s got) in
    let admins : (seed_legal_documents now c3).1.tables.admins ≡ c1.tables.admins =
      is_seeded.admins
      ∙ ap (λ t. t.admins) same_tables
      ∙ seed_upload_settings-eq-ok defaults now c1
          (wrap-eq-ok seeding_settings (seed_upload_settings defaults now) c1 tt seeded) in
    let same_settings : s ≡ u = ground arith in
    rw
      (
        bind_of_ok boot (λ _. second) c tt booted,
        bind_of_ok seed (λ _. third) c1 tt seeded,
        bind_of_ok get last c2 s got,
        bind_of_ok documents (λ _. pure s) c3 tt written,
      )
      (record {
        admins = λ q.
            bootstrap-eq-ok g account id now c
              (wrap-eq-ok bootstrapping (bootstrap g account id now) c tt booted) (sym admins ∙ q);
        settings =
            is_seeded.settings
            ∙ ap (λ t. t.upload_settings) same_tables
            ∙ stored
            ∙ ap some same_settings;
        terms = is_seeded.terms;
        privacy = is_seeded.privacy;
      })

refused : (e : StartError) (s : Started) → (let r : Result StartError Started = err e in r) ≢ ok s
refused e s q = ground arith

-- What was built from the configuration and the settings that were read.
pub record IsBuilt (cfg : Config) (u : UploadSettings) (s : Started) : Type 0 where
  pub config : s.config ≡ cfg
  pub rules : s.rules ≡ rules_of_settings u
  pub limiter : new_concurrency_limiter cfg.rate_limit_max_concurrent_uploads ≡ some s.limiter

-- From an answer of `prepare` to the end.
started_lem :
    {D : Type 0} (o : Surroundings D) (cfg : Config) (u : UploadSettings) (s : Started)
    → build o cfg u ≡ ok s
    → IsBuilt cfg u s
started_lem o cfg u s h = elim (Bool-cases (o.storage_client cfg)) [
  | inl t ↦
      by_limiter (new_concurrency_limiter cfg.rate_limit_max_concurrent_uploads) refl (rw t at h)
  | inr f ↦ absurd (refused no_storage s (rw f at h))
]
  where
    Limits : ConcurrencyLimiter → Type 0
    Limits l = new_concurrency_limiter cfg.rate_limit_max_concurrent_uploads ≡ some l

    by_node_id :
        (l : ConcurrencyLimiter) (node_id : Option Text)
        → Limits l
        → with_node_id cfg u l node_id ≡ ok s
        → IsBuilt cfg u s
    by_node_id l none e q = absurd (refused no_node_id s q)
    by_node_id l (some node_id) e q = record {
      config = sym (ground arith);
      rules = sym (ground arith);
      limiter = e ∙ ground arith;
    }

    by_hostname :
        (l : ConcurrencyLimiter) (hostname : Option Text)
        → Limits l
        → with_hostname cfg u l o.suffix hostname ≡ ok s
        → IsBuilt cfg u s
    by_hostname l none e q = absurd (refused no_hostname s q)
    by_hostname l (some hostname) e q =
        by_node_id l (resolve_node_id cfg.node_id hostname o.suffix) e q

    by_limiter :
        (l : Option ConcurrencyLimiter)
        → new_concurrency_limiter cfg.rate_limit_max_concurrent_uploads ≡ l
        → with_limiter cfg u o.suffix o.hostname l ≡ ok s
        → IsBuilt cfg u s
    by_limiter none e q = absurd (refused limiter_panics s q)
    by_limiter (some l) e q = by_hostname l o.hostname e q

module _ {D : Type 0} (o : Surroundings D) where
  -- What holds of a server that listens.
  pub record IsReady (s : Started) (w : World D) : Type 0 where
    pub loaded : load o.env ≡ ok s.config
    pub settings : UploadSettings
    pub prepared : IsPrepared settings w.db.tables
    pub same_rules : s.rules ≡ rules_of_settings settings
    pub limiter :
        new_concurrency_limiter s.config.rate_limit_max_concurrent_uploads ≡ some s.limiter

  after_prepare-eq-ok :
      (cfg : Config) (schema : Conn (Schema D)) (q : Result StartError UploadSettings × AdminDb)
      (s : Started)
      → load o.env ≡ ok cfg
      → ((u : UploadSettings) → q.0 ≡ ok u → IsPrepared u q.1.tables)
      → (after_prepare o cfg schema q).0 ≡ ok s
      → IsReady s (after_prepare o cfg schema q).1
  after_prepare-eq-ok cfg schema (ok u, db) s l p h =
      let built : IsBuilt cfg u s = started_lem o cfg u s h in
      record {
        loaded = l ∙ ap ok (sym built.config);
        settings = u;
        prepared = p u refl;
        same_rules = built.rules;
        limiter = rw built.config built.limiter;
      }
  after_prepare-eq-ok cfg schema (err e, db) s l p h = absurd (ground arith)

  after_migrate-eq-ok :
      (cfg : Config) (now : Time) (db : AdminDb)
      (q : Result MigrateError (Unit {0}) × Conn (Schema D)) (s : Started)
      → load o.env ≡ ok cfg
      → (after_migrate o cfg now db q).0 ≡ ok s
      → IsReady s (after_migrate o cfg now db q).1
  after_migrate-eq-ok cfg now db (ok x, schema) s l h =
      after_prepare-eq-ok cfg schema (prepare o.generate_from_password cfg o.admin_id now db) s l
        (λ u e. prepare-IsPrepared o.generate_from_password cfg o.admin_id now db u e) h
  after_migrate-eq-ok cfg now db (err e, schema) s l h = absurd (ground arith)

  start_with-eq-ok :
      (cfg : Config) (now : Time) (w : World D) (s : Started)
      → load o.env ≡ ok cfg
      → (start_with o cfg now w).0 ≡ ok s
      → IsReady s (start_with o cfg now w).1
  unfolding start_with
  start_with-eq-ok cfg now w s l h = elim (Bool-cases (is_postgres_dsn cfg.database_dsn)) [
    | inr f ↦ absurd (refused invalid_dsn s (rw f at h))
    | inl t ↦ elim (Bool-cases (o.opens cfg.database_dsn cfg.database_max_conns)) [
      | inr f ↦ absurd (refused no_pool s (rw (t, f) at h))
      | inl g ↦
          rw (t, g)
            (after_migrate-eq-ok cfg now w.db
              (migrate o.apply_sql o.acquired o.read_file o.entries w.schema) s l (rw (t, g) at h))
    ]
  ]

  -- When the server starts to listen, its configuration is the one that was loaded from the
  -- environment and met the validation; the table of accounts is not empty; the rules of the validator
  -- are those of the settings in the table; the limiter has the configured number of places, which is
  -- not negative; and both legal documents are there.
  pub start-IsReady :
      (now : Time) (w : World D) (s : Started)
      → (start o now w).0 ≡ ok s
      → IsReady s (start o now w).1
  unfolding start
  start-IsReady now w s h = go (load o.env) refl h
    where
      go :
          (r : Result ConfigError Config)
          → load o.env ≡ r
          → (after_load o now w r).0 ≡ ok s
          → IsReady s (after_load o now w r).1
      go (ok cfg) l k = start_with-eq-ok cfg now w s l k
      go (err e) l k = absurd (ground arith)

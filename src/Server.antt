-- ===== src/Server.antt =====
-- cmd/server/main.go: what happens before the server listens, and the callback that it gives to the
-- handler of the administration. The clients of Postgres and of the object store are outside; their
-- construction fails or does not. The loops that are started run beside the requests.
pub mod Seeds
pub mod Ready
pub mod Settings
pub mod Shared
pub mod Wiring
pub mod Run
mod Tests
use tempcdn.Prelude.{ℕ, Bool, true, false, ◌||◌, Option, none, some, List, [], ◌∷◌, if◌then◌else◌}
use tempcdn.Prelude.Int.{ℤ}
use tempcdn.Text.{Text, lit, has_prefix}
use tempcdn.Action.{
  Result, ok, err, Action, pure, raise, lift, wrap, or_raise, raise_if, ◌>>=◌, ◌>>◌,
}
use tempcdn.Config.{Config, ConfigError, load}
use tempcdn.Metadata.Model.{Time, UploadSettings, Error}
use tempcdn.Metadata.Conn.{Conn}
use tempcdn.Metadata.Tables.{AdminDb}
use tempcdn.Metadata.Connect.{is_postgres_dsn}
use tempcdn.Metadata.Settings.{get_upload_settings}
use tempcdn.Metadata.Migrate.{Schema, MigrateError, migrate}
use tempcdn.Admin.Model.{AdminError, Platform}
use tempcdn.Admin.Access.{Access, session_access, verify_api_key_or_admin_session}
use tempcdn.Admin.Bootstrap.{
  BootstrapConfig, UploadSettingsDefaults, bootstrap, seed_upload_settings, seed_legal_documents,
}
use tempcdn.Admin.Handler.{State}
use tempcdn.NodeStatus.{resolve_node_id}
use tempcdn.Upload.Validator.{Rules, update}
use tempcdn.Upload.Synchronizer.{size_in_bytes}
use tempcdn.Http.Router.{AdminService}
use tempcdn.RateLimit.{ConcurrencyLimiter, new_concurrency_limiter}

-- Why the program exits; `limiter_panics` stands for the panic of `make` in `NewConcurrencyLimiter`.
pub data StartError : Type 0 where
  bad_config : ConfigError → StartError
  invalid_dsn no_pool no_storage limiter_panics no_hostname no_node_id : StartError
  migrations : MigrateError → StartError
  bootstrapping seeding_settings seeding_documents : AdminError → StartError
  loading_settings : Error → StartError

-- The database, as the migrations and as the administration see it.
pub record World (D : Type 0) : Type 0 where
  pub schema : Conn (Schema D)
  pub db : AdminDb

-- What the program has built when it starts to listen, as far as it is modelled.
pub record Started : Type 0 where
  pub config : Config
  pub rules : Rules
  pub node_id : Text
  pub limiter : ConcurrencyLimiter

-- What is outside: the environment, whether the pool opens and answers a ping, the migrations,
-- bcrypt, whether the client of the object store is built, the host's name, and random texts.
pub record Surroundings (D : Type 0) : Type 0 where
  pub env : Text → Text
  pub opens : Text → ℤ → Bool
  pub apply_sql : Text → D → Option D
  pub acquired : Bool
  pub read_file : Text → Option Text
  pub entries : Option (List (Text × Bool))
  pub generate_from_password : Text → Option Text
  pub storage_client : Config → Bool
  pub hostname : Option Text
  pub suffix : Option Text
  pub admin_id : Text

-- The rules of `NewValidator` and of the callback.
abbrev pub rules_of_settings : UploadSettings → Rules
rules_of_settings s = record {
  max_size_bytes = size_in_bytes s;
  allowed_mime_types = s.allowed_mime_types;
  blocked_extensions = s.blocked_extensions;
}

-- The function given to `SetUploadSettingsUpdatedCallback`.
unfoldable pub settings_callback : UploadSettings → Rules → Rules
unfolding update
settings_callback s rules = update (size_in_bytes s) s.allowed_mime_types s.blocked_extensions rules

abbrev pub with_db : {A : Type 0} → State → A × AdminDb → A × State
with_db st (a, db) = (a, record { db = db; rules = st.rules })

-- The service of the administration, as the router uses it.
unfoldable pub session_service : Platform → AdminService State
session_service p = record {
  require_session = λ token now st. with_db st (session_access p token now st.db);
  verify_credential = λ credential now later st.
      with_db st (verify_api_key_or_admin_session p credential now later st.db);
}

-- The calls on the tables of the administration, in their order, with one reading of the clock for
-- all of them.
unfoldable pub prepare :
    (Text → Option Text) → Config → Text → Time → Action AdminDb StartError UploadSettings
prepare generate_from_password cfg admin_id now = do
  wrap bootstrapping (
      bootstrap generate_from_password
        (record {
          username = cfg.admin_bootstrap_username;
          password = cfg.admin_bootstrap_password;
        })
        admin_id now)
  wrap seeding_settings (
      seed_upload_settings
        (record {
          max_upload_size_mb = cfg.server_max_upload_mb;
          allowed_mime_types = cfg.allowed_mime_types;
          blocked_extensions = cfg.blocked_extensions;
        })
        now)
  upload_settings ← wrap loading_settings get_upload_settings
  wrap seeding_documents (seed_legal_documents now)
  pure upload_settings

-- What is done with the answers of `ResolveNodeID` and of `os.Hostname`.
abbrev pub with_node_id :
    Config → UploadSettings → ConcurrencyLimiter → Option Text → Result StartError Started
with_node_id cfg s l none = err no_node_id
with_node_id cfg s l (some node_id) =
    ok (record { config = cfg; rules = rules_of_settings s; node_id = node_id; limiter = l })

abbrev pub with_hostname :
    Config
    → UploadSettings
    → ConcurrencyLimiter
    → Option Text
    → Option Text
    → Result StartError Started
with_hostname cfg s l suffix none = err no_hostname
with_hostname cfg s l suffix (some hostname) =
    with_node_id cfg s l (resolve_node_id cfg.node_id hostname suffix)

-- What is done with the new limiter.
abbrev pub with_limiter :
    Config
    → UploadSettings
    → Option Text
    → Option Text
    → Option ConcurrencyLimiter
    → Result StartError Started
with_limiter cfg s suffix hostname none = err limiter_panics
with_limiter cfg s suffix hostname (some l) = with_hostname cfg s l suffix hostname

module _ {D : Type 0} where
  -- The rest, which only builds.
  abbrev pub build : Surroundings D → Config → UploadSettings → Result StartError Started
  build o cfg s =
      if o.storage_client cfg
      then with_limiter cfg s o.suffix o.hostname
          (new_concurrency_limiter cfg.rate_limit_max_concurrent_uploads)
      else err no_storage

  abbrev pub after_prepare :
      Surroundings D
      → Config
      → Conn (Schema D)
      → Result StartError UploadSettings × AdminDb
      → Result StartError Started × World D
  after_prepare o cfg schema (ok s, db) = (build o cfg s, record { schema = schema; db = db })
  after_prepare o cfg schema (err e, db) = (err e, record { schema = schema; db = db })

  abbrev pub after_migrate :
      Surroundings D
      → Config
      → Time
      → AdminDb
      → Result MigrateError (Unit {0}) × Conn (Schema D)
      → Result StartError Started × World D
  after_migrate o cfg now db (ok _, schema) =
      after_prepare o cfg schema (prepare o.generate_from_password cfg o.admin_id now db)
  after_migrate o cfg now db (err e, schema) =
      (err (migrations e), record { schema = schema; db = db })

  -- From the configuration on.
  unfoldable pub start_with :
      Surroundings D → Config → Time → World D → Result StartError Started × World D
  unfolding is_postgres_dsn prepare resolve_node_id new_concurrency_limiter
  start_with o cfg now w =
      if is_postgres_dsn cfg.database_dsn
      then if o.opens cfg.database_dsn cfg.database_max_conns
        then after_migrate o cfg now w.db
            (migrate o.apply_sql o.acquired o.read_file o.entries w.schema)
        else (err no_pool, w)
      else (err invalid_dsn, w)

  abbrev pub after_load :
      Surroundings D
      → Time
      → World D
      → Result ConfigError Config
      → Result StartError Started × World D
  after_load o now w (ok cfg) = start_with o cfg now w
  after_load o now w (err e) = (err (bad_config e), w)

  -- `main`, up to the start of the server.
  unfoldable pub start : Surroundings D → Time → World D → Result StartError Started × World D
  start o now w = after_load o now w (load o.env)

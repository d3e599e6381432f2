-- ===== src/Config.antt =====
-- internal/config/config.go: the configuration, read from the environment and validated. The
-- environment is the function `env`, as `os.Getenv`: a variable that is not set is the empty text.
pub mod Sound
mod Tests
use tempcdn.Prelude.{
  ℕ, ◌+◌, ◌%◌, ◌^◌, Bool, true, false, not, ◌&&◌, ◌||◌, Option, none, some, List, [], ◌∷◌, ltb,
  if◌then◌else◌,
}
use tempcdn.Prelude.Int.{ℤ, pos, negsuc, leb_ℤ, eqb_ℤ, wrap32}
use tempcdn.Text.{Text, lit, same, is_empty, split, trim_space}
use tempcdn.Text.Number.{atoi, parse_bool}
use tempcdn.Action.{Result, ok, err}
use tempcdn.Action.Plain.{◌>>=◌, ◌>>◌, refuse_if}

abbrev pub insecure_default_ip_hash_salt : Text
insecure_default_ip_hash_salt = lit "insecure-default-salt"

pub record Config : Type 0 where
  pub server_port : Text
  pub server_max_upload_mb : ℤ
  pub r2_access_key_id : Text
  pub r2_secret_access_key : Text
  pub r2_bucket_name : Text
  pub r2_endpoint : Text
  pub r2_public_base_url : Text
  pub database_dsn : Text
  pub database_max_conns : ℤ
  pub file_ttl_hours : ℤ
  pub file_sweep_interval_mins : ℤ
  pub node_id : Text
  pub node_heartbeat_interval_secs : ℤ
  pub node_stale_after_secs : ℤ
  pub node_janitor_interval_secs : ℤ
  pub rate_limit_max_concurrent_uploads : ℤ
  pub ip_hash_salt : Text
  pub allowed_origin : Text
  pub admin_bootstrap_username : Text
  pub admin_bootstrap_password : Text
  pub allowed_mime_types : List Text
  pub blocked_extensions : List Text
  pub cloudflare_cache_enabled : Bool
  pub cloudflare_zone_id : Text
  pub cloudflare_api_token : Text

-- The values of the variables that are parsed.
pub record Parsed : Type 0 where
  pub cloudflare_enabled : Bool
  pub max_upload_mb : ℤ
  pub max_db_conns : ℤ
  pub ttl_hours : ℤ
  pub sweep_interval_mins : ℤ
  pub max_concurrent : ℤ
  pub heartbeat_interval_secs : ℤ
  pub stale_after_secs : ℤ
  pub janitor_interval_secs : ℤ

-- The errors, each with the variable that it names.
pub data ConfigError : Type 0 where
  bad_integer bad_boolean unset not_positive : Text → ConfigError
  insecure_salt stale_too_soon : ConfigError

module _ (env : Text → Text) where
  unfoldable pub get_env_or_default : Text → Text → Text
  get_env_or_default key fallback = if is_empty (env key) then fallback else env key

  abbrev pub parsed_int : Text → Option ℤ → Result ConfigError ℤ
  parsed_int key none = err (bad_integer key)
  parsed_int key (some z) = ok z

  unfoldable pub parse_int_or_default : Text → ℤ → Result ConfigError ℤ
  unfolding atoi
  parse_int_or_default key fallback =
      if is_empty (env key) then ok fallback else parsed_int key (atoi (env key))

  abbrev pub parsed_bool : Text → Option Bool → Result ConfigError Bool
  parsed_bool key none = err (bad_boolean key)
  parsed_bool key (some b) = ok b

  unfoldable pub parse_bool_or_default : Text → Bool → Result ConfigError Bool
  unfolding parse_bool
  parse_bool_or_default key fallback =
      if is_empty (env key) then ok fallback else parsed_bool key (parse_bool (env key))

-- The loop of `splitAndTrim`.
unfoldable pub trim_parts : List Text → List Text
unfolding trim_space
trim_parts [] = []
trim_parts (part ∷ parts) =
    let rest = trim_parts parts in
    if is_empty (trim_space part) then rest else trim_space part ∷ rest

unfoldable pub split_and_trim : Text → List Text
unfolding split trim_parts
split_and_trim raw = trim_parts (split b',' raw)

abbrev pub check_override : Bool → Result ConfigError (Unit {0})
check_override true = ok tt
check_override false = err insecure_salt

module _ (env : Text → Text) where
  -- The test of the salt.
  unfoldable pub check_salt : Text → Result ConfigError (Unit {0})
  check_salt salt =
      if same salt insecure_default_ip_hash_salt || is_empty salt
      then (parse_bool_or_default env (lit "ALLOW_INSECURE_IP_HASH_SALT") false >>= check_override)
      else ok tt

  unfoldable pub check_cloudflare : Config → Result ConfigError (Unit {0})
  check_cloudflare c =
      if c.cloudflare_cache_enabled
      then if is_empty c.cloudflare_zone_id
        then err (unset (lit "CLOUDFLARE_ZONE_ID"))
        else refuse_if (is_empty c.cloudflare_api_token) (unset (lit "CLOUDFLARE_API_TOKEN"))
      else ok tt

  unfoldable pub validate : Config → Result ConfigError (Unit {0})
  validate c = do
    refuse_if (is_empty c.r2_endpoint) (unset (lit "R2_ENDPOINT"))
    refuse_if (is_empty c.r2_access_key_id || is_empty c.r2_secret_access_key)
        (unset (lit "R2_ACCESS_KEY_ID"))
    refuse_if (is_empty c.r2_public_base_url) (unset (lit "R2_PUBLIC_BASE_URL"))
    refuse_if (is_empty c.r2_bucket_name) (unset (lit "R2_BUCKET_NAME"))
    refuse_if (is_empty c.allowed_origin) (unset (lit "ALLOWED_ORIGIN"))
    check_salt c.ip_hash_salt
    refuse_if (leb_ℤ c.database_max_conns (pos 0)) (not_positive (lit "DATABASE_MAX_CONNS"))
    refuse_if (leb_ℤ c.node_heartbeat_interval_secs (pos 0))
        (not_positive (lit "NODE_HEARTBEAT_INTERVAL_SECONDS"))
    refuse_if (leb_ℤ c.node_stale_after_secs c.node_heartbeat_interval_secs) stale_too_soon
    refuse_if (leb_ℤ c.node_janitor_interval_secs (pos 0))
        (not_positive (lit "NODE_JANITOR_INTERVAL_SECONDS"))
    check_cloudflare c

  -- `SERVER_MAX_CONCURRENT_UPLOADS`, or the older name where that is -1.
  abbrev pub max_concurrent_or_legacy : ℤ → Result ConfigError ℤ
  max_concurrent_or_legacy z =
      if eqb_ℤ z (negsuc 0)
      then parse_int_or_default env (lit "RATE_LIMIT_MAX_CONCURRENT_UPLOADS") (pos 50)
      else ok z

  -- The variables that are parsed, in the order of their parsing.
  unfoldable pub load_parsed : Result ConfigError Parsed
  load_parsed = do
    cloudflare_enabled ← parse_bool_or_default env (lit "CLOUDFLARE_CACHE_ENABLED") false
    max_upload_mb ← parse_int_or_default env (lit "SERVER_MAX_UPLOAD_MB") (pos 100)
    max_db_conns ← parse_int_or_default env (lit "DATABASE_MAX_CONNS") (pos 5)
    ttl_hours ← parse_int_or_default env (lit "FILE_TTL_HOURS") (pos 24)
    sweep_interval_mins ← parse_int_or_default env (lit "FILE_SWEEP_INTERVAL_MINUTES") (pos 5)
    sentinel ← parse_int_or_default env (lit "SERVER_MAX_CONCURRENT_UPLOADS") (negsuc 0)
    max_concurrent ← max_concurrent_or_legacy sentinel
    heartbeat_interval_secs ←
        parse_int_or_default env (lit "NODE_HEARTBEAT_INTERVAL_SECONDS") (pos 15)
    stale_after_secs ← parse_int_or_default env (lit "NODE_STALE_AFTER_SECONDS") (pos 45)
    janitor_interval_secs ← parse_int_or_default env (lit "NODE_JANITOR_INTERVAL_SECONDS") (pos 20)
    ok (record {
      cloudflare_enabled = cloudflare_enabled;
      max_upload_mb = max_upload_mb;
      max_db_conns = max_db_conns;
      ttl_hours = ttl_hours;
      sweep_interval_mins = sweep_interval_mins;
      max_concurrent = max_concurrent;
      heartbeat_interval_secs = heartbeat_interval_secs;
      stale_after_secs = stale_after_secs;
      janitor_interval_secs = janitor_interval_secs;
    })

  -- The configuration, before its validation.
  unfoldable pub config_of : Parsed → Config
  unfolding get_env_or_default split_and_trim
  config_of v = record {
    server_port = get_env_or_default env (lit "SERVER_PORT") (lit "8080");
    server_max_upload_mb = v.max_upload_mb;
    r2_access_key_id = env (lit "R2_ACCESS_KEY_ID");
    r2_secret_access_key = env (lit "R2_SECRET_ACCESS_KEY");
    r2_bucket_name = get_env_or_default env (lit "R2_BUCKET_NAME") (lit "tempcdn-files");
    r2_endpoint = env (lit "R2_ENDPOINT");
    r2_public_base_url = env (lit "R2_PUBLIC_BASE_URL");
    database_dsn = env (lit "DATABASE_DSN");
    database_max_conns = wrap32 v.max_db_conns;
    file_ttl_hours = v.ttl_hours;
    file_sweep_interval_mins = v.sweep_interval_mins;
    node_id = env (lit "NODE_ID");
    node_heartbeat_interval_secs = v.heartbeat_interval_secs;
    node_stale_after_secs = v.stale_after_secs;
    node_janitor_interval_secs = v.janitor_interval_secs;
    rate_limit_max_concurrent_uploads = v.max_concurrent;
    ip_hash_salt = get_env_or_default env (lit "IP_HASH_SALT") insecure_default_ip_hash_salt;
    allowed_origin = env (lit "ALLOWED_ORIGIN");
    admin_bootstrap_username = env (lit "ADMIN_BOOTSTRAP_USERNAME");
    admin_bootstrap_password = env (lit "ADMIN_BOOTSTRAP_PASSWORD");
    allowed_mime_types = split_and_trim (
        get_env_or_default env (lit "ALLOWED_MIME_TYPES")
          (lit "image/*,video/*,application/pdf,application/zip,text/plain"));
    blocked_extensions =
        split_and_trim
          (get_env_or_default env (lit "BLOCKED_EXTENSIONS") (lit ".exe,.bat,.sh,.msi,.dll,.scr"));
    cloudflare_cache_enabled = v.cloudflare_enabled;
    cloudflare_zone_id = env (lit "CLOUDFLARE_ZONE_ID");
    cloudflare_api_token = env (lit "CLOUDFLARE_API_TOKEN");
  }

  abbrev pub validated : Config → Result ConfigError Config
  validated c = validate c >> ok c

  unfoldable pub load : Result ConfigError Config
  load = load_parsed >>= λ v. validated (config_of v)

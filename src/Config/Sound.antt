-- ===== src/Config/Sound.antt =====
-- What holds of every configuration with which the server starts.
use mathlib.Core.Path.{subst}
use tempcdn.Prelude.{
  ◌^◌, ◌-◌, ℕ, ◌≡◌, ◌≢◌, ◌⊎◌, ◌↔◌, inl, inr, refl, Bool, true, false, List, [], ◌∷◌, All, arith,
  ◌||◌, if◌then◌else◌,
}
use tempcdn.Prelude.Int.{ℤ, pos, negsuc, ◌≤ℤ◌, wrap32}
use tempcdn.Text.{Text, lit, split, same, is_empty, trim_space}
use tempcdn.Text.Laws.{same_iff}
use tempcdn.Action.{Result, ok}
use tempcdn.Action.Plain.{◌>>=◌, >>=-eq-ok}
use tempcdn.Config.{
  check_override, validated, load_parsed, config_of, trim_parts, split_and_trim, get_env_or_default,
  Config, ConfigError, insecure_default_ip_hash_salt, parse_bool_or_default, check_salt,
  check_cloudflare, validate, load,
}

-- What `validate` demands of a configuration, in an environment.
pub record IsSound (env : Text → Text) (c : Config) : Type 0 where
  pub endpoint : c.r2_endpoint ≢ []
  pub access_key : c.r2_access_key_id ≢ []
  pub secret_key : c.r2_secret_access_key ≢ []
  pub public_base_url : c.r2_public_base_url ≢ []
  pub bucket : c.r2_bucket_name ≢ []
  pub origin : c.allowed_origin ≢ []
  pub salt :
      ((c.ip_hash_salt ≢ insecure_default_ip_hash_salt) × (c.ip_hash_salt ≢ []))
      ⊎ (parse_bool_or_default env (lit "ALLOW_INSECURE_IP_HASH_SALT") false ≡ ok true)
  pub max_conns : pos 1 ≤ℤ c.database_max_conns
  pub heartbeat_interval : pos 1 ≤ℤ c.node_heartbeat_interval_secs
  pub stale_later : ¬ (c.node_stale_after_secs ≤ℤ c.node_heartbeat_interval_secs)
  pub janitor : pos 1 ≤ℤ c.node_janitor_interval_secs
  pub cloudflare :
      (c.cloudflare_cache_enabled ≡ false)
      ⊎ ((c.cloudflare_zone_id ≢ []) × (c.cloudflare_api_token ≢ []))

salt_test_iff :
    (salt other : Text) (r : Result ConfigError Bool)
    → ((if same salt other || is_empty salt then (r >>= check_override) else ok tt) ≡ ok tt)
      ↔ (((salt ≢ other) × (salt ≢ [])) ⊎ (r ≡ ok true))
salt_test_iff salt other r = ground (arith, same_iff salt other)

check_salt_iff :
    (env : Text → Text) (salt : Text)
    → (check_salt env salt ≡ ok tt) ↔ (
        ((salt ≢ insecure_default_ip_hash_salt) × (salt ≢ []))
        ⊎ (parse_bool_or_default env (lit "ALLOW_INSECURE_IP_HASH_SALT") false ≡ ok true))
unfolding check_salt
check_salt_iff env salt =
    salt_test_iff salt insecure_default_ip_hash_salt
      (parse_bool_or_default env (lit "ALLOW_INSECURE_IP_HASH_SALT") false)

check_cloudflare_iff :
    (env : Text → Text) (c : Config)
    → (check_cloudflare env c ≡ ok tt) ↔ (
        (c.cloudflare_cache_enabled ≡ false)
        ⊎ ((c.cloudflare_zone_id ≢ []) × (c.cloudflare_api_token ≢ [])))
unfolding check_cloudflare
check_cloudflare_iff env c = ground arith

-- The validation accepts exactly the configurations that are sound.
validate_iff : (env : Text → Text) (c : Config) → (validate env c ≡ ok tt) ↔ IsSound env c
unfolding validate
validate_iff env c = ground (arith, check_salt_iff env c.ip_hash_salt, check_cloudflare_iff env c)

List-cases : (s : Text) → (s ≡ []) ⊎ ((d : ℕ) × (r : Text) × (s ≡ d ∷ r))
List-cases [] = inl refl
List-cases (d ∷ r) = inr (d, r, refl)

trim_parts-ne-nil : (parts : List Text) → All (λ t. t ≢ []) (trim_parts parts)
unfolding trim_parts
trim_parts-ne-nil [] = tt
trim_parts-ne-nil (part ∷ parts) = elim (List-cases (trim_space part)) [
  | inl e ↦ rw e (trim_parts-ne-nil parts)
  | inr (d, s, e) ↦ rw e ((λ q. cc q), trim_parts-ne-nil parts)
]

wrap32-le : (z : ℤ) → wrap32 z ≤ℤ pos (2 ^ 31 - 1)
wrap32-le (pos n) = ground arith
wrap32-le (negsuc n) = ground arith

-- A configuration that is loaded meets every test of the validation, its number of connections is one
-- that an `int32` holds, and its lists hold no empty text.
pub load-IsSound :
    (env : Text → Text) (c : Config)
    → load env ≡ ok c
    → IsSound env c
      × (c.database_max_conns ≤ℤ pos (2 ^ 31 - 1))
      × All (λ t. t ≢ []) c.allowed_mime_types
      × All (λ t. t ≢ []) c.blocked_extensions
unfolding load config_of split_and_trim
load-IsSound env c h =
    let (v, _, q) = >>=-eq-ok (load_parsed env) (λ v. validated env (config_of env v)) c h in
    let (_, e, same_config) =
      >>=-eq-ok (validate env (config_of env v)) (λ _. ok (config_of env v)) c q in
    let k : config_of env v ≡ c = ground arith in
    subst
      (λ c.
        IsSound env c
        × (c.database_max_conns ≤ℤ pos (2 ^ 31 - 1))
        × All (λ t. t ≢ []) c.allowed_mime_types
        × All (λ t. t ≢ []) c.blocked_extensions)
      k
      (
        (validate_iff env (config_of env v)).0 e,
        wrap32-le v.max_db_conns,
        trim_parts-ne-nil (
            split b',' (
              get_env_or_default env (lit "ALLOWED_MIME_TYPES")
                (lit "image/*,video/*,application/pdf,application/zip,text/plain"))),
        trim_parts-ne-nil (
            split b',' (
              get_env_or_default env (lit "BLOCKED_EXTENSIONS")
                (lit ".exe,.bat,.sh,.msi,.dll,.scr"))),
      )

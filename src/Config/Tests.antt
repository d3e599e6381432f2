-- ===== src/Config/Tests.antt =====
-- One environment.
use tempcdn.Prelude.{◌^◌, ◌-◌, ◌≡◌, ◌≢◌, refl, false, [], All, if◌then◌else◌}
use tempcdn.Prelude.Int.{pos, ◌≤ℤ◌}
use tempcdn.Text.{Text, lit, same, split, split_from, trim_space, trim_left, is_space}
use tempcdn.Action.{ok}
use tempcdn.Config.{
  Parsed, get_env_or_default, parse_int_or_default, parse_bool_or_default, trim_parts,
  split_and_trim, check_salt, check_cloudflare, validate, load_parsed, config_of, load,
}
use tempcdn.Config.Sound.{IsSound, load-IsSound}

-- The variables without a default have the value `v`, and the number of connections is set.
abbrev env : Text → Text
env key =
    if same key (lit "R2_ENDPOINT")
    then lit "v"
    else if same key (lit "R2_ACCESS_KEY_ID")
    then lit "v"
    else if same key (lit "R2_SECRET_ACCESS_KEY")
    then lit "v"
    else if same key (lit "R2_PUBLIC_BASE_URL")
    then lit "v"
    else if same key (lit "ALLOWED_ORIGIN")
    then lit "v"
    else if same key (lit "IP_HASH_SALT")
    then lit "v"
    else if same key (lit "BLOCKED_EXTENSIONS")
    then lit ".exe"
    else if same key (lit "ALLOWED_MIME_TYPES")
    then lit "image/*"
    else []

abbrev parsed : Parsed
parsed = record {
  cloudflare_enabled = false;
  max_upload_mb = pos 100;
  max_db_conns = pos 5;
  ttl_hours = pos 24;
  sweep_interval_mins = pos 5;
  max_concurrent = pos 50;
  heartbeat_interval_secs = pos 15;
  stale_after_secs = pos 45;
  janitor_interval_secs = pos 20;
}

loaded : load env ≡ ok (config_of env parsed)
unfolding load load_parsed config_of validate check_salt check_cloudflare parse_int_or_default
    parse_bool_or_default get_env_or_default split_and_trim trim_parts split split_from trim_space
    trim_left is_space same
loaded = refl

load-IsSound_example :
    IsSound env (config_of env parsed)
    × ((config_of env parsed).database_max_conns ≤ℤ pos (2 ^ 31 - 1))
    × All (λ t. t ≢ []) (config_of env parsed).allowed_mime_types
    × All (λ t. t ≢ []) (config_of env parsed).blocked_extensions
load-IsSound_example = load-IsSound env (config_of env parsed) loaded

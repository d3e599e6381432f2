-- ===== src/Server/Wiring/Tests.antt =====
-- A server with an object store in memory: an upload, a request without a session, and a run.
use tempcdn.Prelude.{
  ℕ, ◌≡◌, ◌≢◌, ◌⊎◌, refl, inl, inr, true, false, none, some, [], ◌∷◌, In, ltb, Bool, arith,
}
use tempcdn.Prelude.Int.{pos, pos_part}
use tempcdn.Text.{lit, same, has_prefix}
use tempcdn.Action.{ok, err}
use tempcdn.Metadata.Connect.{
  ConnectError, Driver, is_postgres_dsn, new_repository, new_repository-opens,
}
use tempcdn.Config.{Config}
use tempcdn.Storage.Memory.{Memory, memory_storage}
use tempcdn.Metadata.Model.{UploadSettings, FileRecord, ApiKey}
use tempcdn.Metadata.Sql.{first_where}
use tempcdn.Metadata.ApiKeys.{revoke_api_key}
use tempcdn.IdGen.{hash_api_key}
use tempcdn.Admin.Keys.{revoke_key, verify_api_key}
use tempcdn.Server.Run.Revoked.{Steps-refuses}
use tempcdn.Upload.Handler.{form_file}
use tempcdn.Admin.Sessions.{Session}
use tempcdn.Admin.Sessions.Valid.{IsValid}
use tempcdn.Admin.Handler.{Decoder, handle_logout}
use tempcdn.Http.{Request, returned}
use tempcdn.Http.Middleware.{cors}
use tempcdn.Http.Registry.{Registration, wrapped, route, route_all}
use tempcdn.Http.Router.{extract_bearer_token, require_admin_session}
use tempcdn.Http.Router.Table.{
  new_router, api_calls, root_calls, admin_calls, admin_endpoints, public_endpoints, file_calls,
}
use tempcdn.Server.{settings_callback, rules_of_settings}
use tempcdn.Server.Shared.{ServerState, ServerReply, admin_reply, over, admin_part, with_admin_part}
use tempcdn.Server.Wiring.{
  Outside, admin_platform, upload_handler, server_service, server_deps, server_router,
}
use tempcdn.Server.Wiring.Frame.{IsFramed}
use tempcdn.Server.Wiring.Framed.{server_router-IsFramed}
use tempcdn.Server.Wiring.Sessions.{IsRefused, server_router-guards}
use tempcdn.Server.Run.{
  Steps, serves, sweeps, synchronizes, stop, next, sweeper_tick, synchronizer_tick,
}
use tempcdn.Server.Run.Sound.{HasSoundSettings, input_of}
use tempcdn.Admin.Settings.Valid.{IsSound}
use tempcdn.Server.Run.Always.{IsWorkable, Steps-IsWorkable}

abbrev decoder : Decoder
decoder = record {
  login_request = λ body. none;
  create_api_key_request = λ body. none;
  update_upload_settings_request = λ body. none;
  update_legal_document_request = λ body. none;
}

abbrev pub outside : Outside Memory
outside = record {
  sha256_of_bytes = λ b. b'#' ∷ b;
  sha256_of_text = λ t. b'!' ∷ t;
  lower = λ c. c;
  detect_content_type = λ b. lit "text/plain; charset=utf-8";
  date = λ t. record { year = 2026; month = 8; day = 10 };
  objects = memory_storage;
  password_matches = λ h p. false;
  decoder = decoder;
  split_host_port = λ a. none;
  remote_addr = λ r. lit "1.2.3.4:5";
  query = λ r name. [];
  form = λ r limit. form_file (lit "a.txt") (pos 2) (record { rest = lit "hi"; fails = none });
  temp_file_created = λ r. true;
  temp_file_written = λ r. true;
  temp_file_rewound = λ r. true;
  read_counter = λ n. some n;
  metrics = λ r s. returned [];
}

abbrev config : Config
config = record {
  server_port = lit "8080";
  server_max_upload_mb = pos 100;
  r2_access_key_id = lit "v";
  r2_secret_access_key = lit "v";
  r2_bucket_name = lit "v";
  r2_endpoint = lit "v";
  r2_public_base_url = lit "https://cdn";
  database_dsn = lit "postgres://db";
  database_max_conns = pos 5;
  file_ttl_hours = pos 24;
  file_sweep_interval_mins = pos 5;
  node_id = lit "n";
  node_heartbeat_interval_secs = pos 15;
  node_stale_after_secs = pos 45;
  node_janitor_interval_secs = pos 20;
  rate_limit_max_concurrent_uploads = pos 50;
  ip_hash_salt = lit "v";
  allowed_origin = lit "o";
  admin_bootstrap_username = lit "ann";
  admin_bootstrap_password = lit "0123456789ab";
  allowed_mime_types = lit "text/plain" ∷ [];
  blocked_extensions = lit ".exe" ∷ [];
  cloudflare_cache_enabled = false;
  cloudflare_zone_id = [];
  cloudflare_api_token = [];
}

abbrev upload_settings : UploadSettings
upload_settings = record {
  max_upload_size_mb = pos 100;
  allowed_mime_types = lit "text/plain" ∷ [];
  blocked_extensions = lit ".exe" ∷ [];
  updated_at = 5;
  updated_by = none;
}

abbrev pub server : ServerState Memory
server = record {
  files = record { tables = []; outcomes = [] };
  storage = λ k. none;
  purges = [];
  admin = record {
    tables = record {
      admins = [];
      sessions = [];
      api_keys = [];
      upload_settings = some upload_settings;
      legal_documents = [];
    };
    outcomes = [];
  };
  nodes = record { tables = []; outcomes = [] };
  rules = rules_of_settings upload_settings;
  limiter = record { held = 0; capacity = 50 };
  uploads_total = 0;
  upload_bytes_total = 0;
  upload_errors_total = 0;
}

abbrev request : Request
request = record {
  method = lit "POST";
  path = lit "/api/v1/upload";
  url_id = [];
  header = λ name. [];
  body = [];
  session = none;
  chance = record { now = 6; later = 7; elapsed = 3; random = some (lit "t"); new_id = lit "i" };
}

abbrev upload_call : Registration (ServerState Memory) ServerReply
upload_call = record {
  method = lit "POST";
  pattern = lit "/api/v1/upload";
  handler = wrapped (cors (lit "o") (lit "POST, OPTIONS") ∷ []) (upload_handler outside config);
}

upload_call-registered : In upload_call (server_router outside config).calls
unfolding server_router server_deps new_router api_calls root_calls admin_calls admin_endpoints
    public_endpoints file_calls route_all route
upload_call-registered = inr (inr (inr (inr (inr (inl refl)))))

server_router-IsFramed_example :
    IsFramed (lit "POST") (lit "/api/v1/upload") server (upload_call.handler request server).1
server_router-IsFramed_example =
    server_router-IsFramed outside config upload_call request server upload_call-registered

abbrev logout_call : Registration (ServerState Memory) ServerReply
logout_call = record {
  method = lit "POST";
  pattern = lit "/api/v1/admin/logout";
  handler =
      wrapped
        (cors (lit "o") (lit "POST, OPTIONS")
          ∷ require_admin_session (some (server_service outside config))
          ∷ [])
        (over admin_part with_admin_part admin_reply
          (handle_logout (admin_platform outside config) decoder (some settings_callback)));
}

logout_call-registered : In logout_call (server_router outside config).calls
unfolding server_router server_deps new_router api_calls root_calls admin_calls admin_endpoints
    public_endpoints file_calls route_all route
logout_call-registered = inr (
    inr (
      inr (
        inr (
          inr (
            inr (
              inr (
                inr (
                  inr (
                    inr (
                      inr (
                        inr (
                          inr (
                            inr (
                              inr (inr (inr (inr (inr (inr (inr (inr (inl refl))))))))))))))))))))))

server_router-guards_example :
    ((x : Session) × IsValid
        (admin_platform outside config)
        (extract_bearer_token request.header)
        6
        server.admin.tables
        x)
    ⊎ IsRefused outside config server (logout_call.handler request server)
unfolding same has_prefix
server_router-guards_example =
    server_router-guards outside config logout_call request server logout_call-registered refl refl
      refl refl

abbrev uploaded : ServerState Memory
uploaded = (upload_call.handler request server).1

abbrev pub nothing_locked : FileRecord → Bool
nothing_locked r = false

day_run :
    Steps outside config server
      (synchronizer_tick outside config (sweeper_tick outside config nothing_locked 9 uploaded))
day_run =
    next (serves upload_call request upload_call-registered)
      (next (sweeps nothing_locked 9) (next synchronizes stop))

server-HasSoundSettings : HasSoundSettings (admin_part server)
unfolding has_prefix
server-HasSoundSettings = record {
  row = upload_settings;
  stored = refl;
  row_sound = sound;
  source = upload_settings;
  source_sound = sound;
  followed = refl;
}
  where
    sound : IsSound (input_of upload_settings)
    sound = record {
      positive = omega arith;
      bounded = omega arith;
      some_allowed = λ e. cc e;
      dotted = (refl, tt);
    }

Steps-IsWorkable_example :
    let t =
      synchronizer_tick outside config (sweeper_tick outside config nothing_locked 9 uploaded) in
    HasSoundSettings (admin_part t) × IsWorkable t.rules × (t.limiter ≡ server.limiter)
Steps-IsWorkable_example = Steps-IsWorkable outside config server _ day_run server-HasSoundSettings

-- A driver that reads every text, with pools that are numbers of connections; one that is zero does
-- not answer.
abbrev driver : Driver ℕ ℕ
driver = record {
  parse_config = λ dsn. some 0;
  with_max_conns = λ n c. pos_part n;
  new_with_config = λ c. some c;
  ping = λ p. ltb 0 p;
}

new_repository-opens_example :
    ((pool : ℕ) × (cfg : ℕ) × (new_repository driver (lit "postgres://db") (pos 5) []
        ≡ (ok pool, pool ∷ []))
      × (is_postgres_dsn (lit "postgres://db") ≡ true)
      × (driver.parse_config (lit "postgres://db") ≡ some cfg)
      × (driver.new_with_config (driver.with_max_conns (pos 5) cfg) ≡ some pool)
      × (driver.ping pool ≡ true))
    ⊎ ((e : ConnectError) × (new_repository driver (lit "postgres://db") (pos 5) [] ≡ (err e, [])))
new_repository-opens_example = new_repository-opens driver (lit "postgres://db") (pos 5) []

abbrev key_row : ApiKey
key_row = record {
  id = lit "k1";
  name = lit "ci";
  token_hash = hash_api_key (admin_platform outside config).sha256_hex (lit "tcdn_r");
  created_at = 1;
  last_used_at = none;
  revoked_at = none;
}

abbrev keyed_server : ServerState Memory
keyed_server = record server {
  admin = record { tables = record server.admin.tables { api_keys = key_row ∷ [] }; outcomes = [] };
}

abbrev revoked_server : ServerState Memory
unfolding revoke_key revoke_api_key
revoked_server = record keyed_server {
  admin = (revoke_key (admin_platform outside config) (lit "k1") 8 keyed_server.admin).1;
}

abbrev revoked_later : ServerState Memory
revoked_later = synchronizer_tick outside config (upload_call.handler request revoked_server).1

revoked_run : Steps outside config revoked_server revoked_later
revoked_run = next (serves upload_call request upload_call-registered) (next synchronizes stop)

Steps-refuses_example :
    (verify_api_key (admin_platform outside config) (lit "tcdn_r") 9 revoked_later.admin).0
    ≢ ok key_row
unfolding same has_prefix hash_api_key revoke_key revoke_api_key first_where
Steps-refuses_example =
    Steps-refuses outside config (lit "tcdn_r") (lit "k1") 8 9 keyed_server revoked_later tt key_row
      key_row refl refl refl revoked_run

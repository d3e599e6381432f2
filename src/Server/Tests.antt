-- ===== src/Server/Tests.antt =====
-- A first start with an empty database, and a change of the upload settings.
use tempcdn.Prelude.{ℕ, ◌≡◌, refl, true, false, none, some, [], ◌∷◌, if◌then◌else◌}
use tempcdn.Prelude.Int.{pos}
use tempcdn.Text.{Text, lit, same, has_prefix, split, split_from, trim_space, trim_left, is_space}
use tempcdn.IdGen.{hash_session_token}
use tempcdn.Config.{
  Parsed, get_env_or_default, parse_int_or_default, parse_bool_or_default, trim_parts,
  split_and_trim, check_salt, check_cloudflare, validate, load_parsed, config_of, load,
}
use tempcdn.Metadata.Model.{Admin, session_is_expired}
use tempcdn.Metadata.Sql.{first_where, update_where, insert_by, order_by}
use tempcdn.Metadata.Conn.{run, query}
use tempcdn.Metadata.Admins.{
  count_admins, insert_admin, find_admin_by_id, find_admin_session_by_token_hash,
  touch_admin_session,
}
use tempcdn.Metadata.Settings.{
  get_upload_settings, seed_upload_settings_if_missing, update_upload_settings,
}
use tempcdn.Metadata.Legal.{seed_legal_document_if_missing}
use tempcdn.Metadata.Tables.{AdminDb}
use tempcdn.Metadata.Migrate.{
  Committed, sort_names, file_names, migrate_files, migrate_entries, migrate_locked, migrate,
}
use tempcdn.Admin.Model.{Platform}
use tempcdn.Admin.Access.{session_access}
use tempcdn.Admin.Bootstrap.{
  bootstrap, bootstrap_empty, insert_first_admin, after_admin_insert, seed_upload_settings,
  seed_legal_documents,
}
use tempcdn.Admin.Sessions.{
  Session, new_session, verify_session, after_session, with_session, after_admin,
}
use tempcdn.Admin.Sessions.Valid.{IsValid}
use tempcdn.Admin.Settings.{
  UpdateUploadSettingsInput, normalize_string_list, check_extensions, validate_upload_settings,
  after_validation, update_settings,
}
use tempcdn.Admin.Handler.{Decoder, State, after_update, handle_update_upload_settings}
use tempcdn.Http.{Request, status_of}
use tempcdn.Http.Router.{extract_bearer_token, after_require}
use tempcdn.Http.Router as Router
use tempcdn.NodeStatus.{resolve_node_id}
use tempcdn.Metadata.Connect.{is_postgres_dsn}
use tempcdn.Server.{
  World, Surroundings, Started, rules_of_settings, session_service, settings_callback, prepare,
  start_with, start,
}
use tempcdn.Storage.Memory.{Memory}
use tempcdn.Server.Shared.{ServerState}
use tempcdn.Server.Run.{sweeper_tick, synchronizer_tick}
use tempcdn.Server.Wiring.Tests.{outside, server, nothing_locked}
use tempcdn.Server.Ready.{IsReady, start-IsReady}
use tempcdn.Server.Settings.{IsChanged, update_handler, update_handler-200}

abbrev env : Text → Text
env key =
    if same key (lit "DATABASE_DSN")
    then lit "postgres://db"
    else if same key (lit "ADMIN_BOOTSTRAP_PASSWORD")
    then lit "0123456789ab"
    else if has_prefix key (lit "R2_")
    then lit "v"
    else if same key (lit "ADMIN_BOOTSTRAP_USERNAME")
    then lit "ann"
    else if same key (lit "ALLOWED_ORIGIN")
    then lit "v"
    else if same key (lit "IP_HASH_SALT")
    then lit "v"
    else if same key (lit "BLOCKED_EXTENSIONS")
    then lit ".exe"
    else if same key (lit "ALLOWED_MIME_TYPES")
    then lit "image/*"
    else []

abbrev parsed : Parsed
parsed = record {
  cloudflare_enabled = false;
  max_upload_mb = pos 100;
  max_db_conns = pos 5;
  ttl_hours = pos 24;
  sweep_interval_mins = pos 5;
  max_concurrent = pos 50;
  heartbeat_interval_secs = pos 15;
  stale_after_secs = pos 45;
  janitor_interval_secs = pos 20;
}

abbrev surroundings : Surroundings ℕ
surroundings = record {
  env = env;
  opens = λ dsn n. true;
  apply_sql = λ contents d. some d;
  acquired = true;
  read_file = λ name. some [];
  entries = some [];
  generate_from_password = λ s. some s;
  storage_client = λ c. true;
  hostname = some (lit "h");
  suffix = some (lit "s");
  admin_id = lit "1";
}

abbrev no_files : Committed ℕ
no_files = record { content = 0; filenames = [] }

abbrev empty_world : World ℕ
empty_world = record {
  schema = record {
    tables = record { committed = no_files; pending = no_files; locked = false };
    outcomes = [];
  };
  db = record {
    tables = record {
      admins = [];
      sessions = [];
      api_keys = [];
      upload_settings = none;
      legal_documents = [];
    };
    outcomes = [];
  };
}

abbrev started : Started
started = record {
  config = config_of env parsed;
  rules = rules_of_settings (record {
    max_upload_size_mb = pos 100;
    allowed_mime_types = lit "image/*" ∷ [];
    blocked_extensions = lit ".exe" ∷ [];
    updated_at = 5;
    updated_by = none;
  });
  node_id = lit "h-s";
  limiter = record { held = 0; capacity = 50 };
}

runs : Unit {0}
unfolding start start_with load load_parsed config_of validate check_salt check_cloudflare
    parse_int_or_default parse_bool_or_default get_env_or_default split_and_trim trim_parts split
    split_from trim_space trim_left is_space same has_prefix is_postgres_dsn migrate migrate_locked
    migrate_entries migrate_files sort_names file_names order_by insert_by run query prepare
    bootstrap bootstrap_empty insert_first_admin after_admin_insert count_admins insert_admin
    seed_upload_settings seed_upload_settings_if_missing get_upload_settings seed_legal_documents
    seed_legal_document_if_missing resolve_node_id
runs = tt

start-IsReady_example : IsReady surroundings started (start surroundings 5 empty_world).1
unfolding runs
start-IsReady_example = start-IsReady surroundings 5 empty_world started refl

abbrev platform : Platform
platform = record { sha256_hex = λ s. b'#' ∷ s; password_matches = λ h w. same h (b'!' ∷ w) }

abbrev decoder : Decoder
decoder = record {
  login_request = λ body. none;
  create_api_key_request = λ body. none;
  update_upload_settings_request = λ body. some (record {
    max_upload_size_mb = pos 7;
    allowed_mime_types = lit " a/b" ∷ lit " " ∷ [];
    blocked_extensions = lit ".x" ∷ [];
  });
  update_legal_document_request = λ body. none;
}

abbrev ann : Admin
ann = record {
  id = lit "1";
  username = lit "ann";
  password_hash = lit "!secret";
  created_at = 5;
  last_login_at = none;
}

abbrev state : State
state = record {
  db = record {
    tables = record {
      admins = ann ∷ [];
      sessions = new_session platform (lit "t") 6 ann ∷ [];
      api_keys = [];
      upload_settings = some (record {
        max_upload_size_mb = pos 100;
        allowed_mime_types = lit "image/*" ∷ [];
        blocked_extensions = [];
        updated_at = 5;
        updated_by = none;
      });
      legal_documents = [];
    };
    outcomes = [];
  };
  rules = record { max_size_bytes = pos 1; allowed_mime_types = []; blocked_extensions = [] };
}

abbrev request : Request
request = record {
  method = lit "PUT";
  path = lit "/api/v1/admin/upload-settings";
  url_id = [];
  header = λ name. if same name (lit "Authorization") then lit "Bearer t" else [];
  body = [];
  session = none;
  chance = record { now = 7; later = 8; elapsed = 9; random = none; new_id = [] };
}

answered_200 : status_of (update_handler platform decoder request state).0.events ≡ some 200
unfolding runs status_of Router.require_admin_session session_access session_service after_require
    extract_bearer_token handle_update_upload_settings after_update hash_session_token first_where
    update_where find_admin_by_id find_admin_session_by_token_hash touch_admin_session
    verify_session after_session with_session after_admin session_is_expired normalize_string_list
    check_extensions validate_upload_settings after_validation update_settings
    update_upload_settings settings_callback
answered_200 = refl

update_handler-200_example :
    (s : Session) × (i : UpdateUploadSettingsInput) × IsValid platform
      (extract_bearer_token request.header)
      7
      state.db.tables
      s
    × IsChanged platform decoder request (update_handler platform decoder request state).1 s i
update_handler-200_example = update_handler-200 platform decoder request state answered_200

abbrev after_start : AdminDb
after_start = record { tables = (start surroundings 5 empty_world).1.db.tables; outcomes = [] }

abbrev first_state : ServerState Memory
first_state = record server { admin = after_start }

abbrev last_state : ServerState Memory
last_state =
    synchronizer_tick outside started.config
      (sweeper_tick outside started.config nothing_locked 9 first_state)

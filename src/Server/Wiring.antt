-- ===== src/Server/Wiring.antt =====
-- cmd/server/main.go: the handlers that the program builds, and the router with all of them. One
-- request is served by itself, so that every `Load` of the validator's rules finds those of the
-- state. Durations are without the bound of 64 bits, like times.

pub mod Frame
pub mod Framed
pub mod Sessions
pub mod Tests
use tempcdn.Prelude.{ℕ, ◌+◌, ◌*◌, Bool, true, false, Option, none, some, List, [], ◌∷◌, ◌++◌}
use tempcdn.Prelude.Int.{ℤ, mul64}
use tempcdn.Text.{Text, lit}
use tempcdn.Action.{Result, ok, err}
use tempcdn.Storage.{Bytes, ObjectStorage}
use tempcdn.Config.{Config}
use tempcdn.Metadata.Model.{Time}
use tempcdn.Upload.Key.{Date}
use tempcdn.Upload.Handler.{Form, extract_client_ip, hash_ip, serve_http}
use tempcdn.Upload.Handler.Replies.{upload_answer}
use tempcdn.Upload.Service as Upload
use tempcdn.File.Service as File
use tempcdn.File.Handler.{message, deleted, info, serve_info, serve_delete}
use tempcdn.File.Handler as FileHandler
use tempcdn.Admin.Model as Admin
use tempcdn.Admin.Handler.{
  Decoder, handle_login, handle_logout, handle_me, handle_create_api_key, handle_list_api_keys,
  handle_revoke_api_key, handle_get_upload_settings, handle_update_upload_settings,
  handle_get_terms, handle_update_terms, handle_get_privacy, handle_update_privacy,
}
use tempcdn.Admin.Handler as AdminHandler
use tempcdn.Public.{serve_config, serve_stats, serve_nodes, serve_terms, serve_privacy}
use tempcdn.Http.{Request, Answer, Handler, Body, error, json, payload, returned}
use tempcdn.Http.Router.{AdminService, RouterDependencies}
use tempcdn.Http.Router.Table.{Router, new_router}
use tempcdn.Server.{settings_callback, session_service}
use tempcdn.Server.Shared.{
  ServerState, ServerReply, upload_reply, file_deleted, file_info, admin_reply, public_reply,
  map_answer, over, upload_part, with_upload_part, file_part, with_file_part, admin_part,
  with_admin_part,
}

-- What is outside the program while it serves: SHA-256 in hexadecimal of bytes and of a string,
-- `unicode.ToLower`, `http.DetectContentType`, the calendar, the object store, bcrypt, the JSON
-- decoder, the host of an address, the address, the query and the form of a request, whether the
-- temporary file can be created, written and rewound, the reading of a counter, and the handler of
-- the Prometheus client.
pub record Outside (S : Type 0) : Type 0 where
  pub sha256_of_bytes : Bytes → Text
  pub sha256_of_text : Text → Text
  pub lower : ℕ → ℕ
  pub detect_content_type : Bytes → Text
  pub date : Time → Date
  pub objects : ObjectStorage S
  pub password_matches : Text → Text → Bool
  pub decoder : Decoder
  pub split_host_port : Text → Option Text
  pub remote_addr : Request → Text
  pub query : Request → Text → Text
  pub form : Request → ℤ → Form
  pub temp_file_created : Request → Bool
  pub temp_file_written : Request → Bool
  pub temp_file_rewound : Request → Bool
  pub read_counter : ℕ → Option ℕ
  pub metrics : Request → ServerState S → Answer (Body ServerReply)

-- `time.Duration(n) * time.Hour`, on 64 bits.
abbrev pub hours : ℤ → ℤ
hours n = mul64 n 3600000000000

abbrev pub file_answer : FileHandler.Response → Answer (Body ServerReply)
file_answer r = elim r.body [
  | message text ↦ returned (error r.status text)
  | deleted ↦ returned (json r.status (payload file_deleted))
  | info b ↦ returned (json r.status (payload (file_info b)))
]

module _ {S : Type 0} (o : Outside S) (cfg : Config) where
  abbrev pub admin_platform : Admin.Platform
  admin_platform = record { sha256_hex = o.sha256_of_text; password_matches = o.password_matches }

  abbrev pub upload_platform : Upload.Platform S
  upload_platform = record {
    sha256_hex = o.sha256_of_bytes;
    lower = o.lower;
    detect_content_type = o.detect_content_type;
    date = o.date;
    objects = o.objects;
  }

  -- There is a purger exactly where the cache is on.
  unfoldable pub file_platform : File.Platform S
  file_platform = record {
    sha256_hex = o.sha256_of_text;
    objects = o.objects;
    cache_purge_on = cfg.cloudflare_cache_enabled;
    has_purger = cfg.cloudflare_cache_enabled;
  }

  abbrev pub upload_chance : Request → ServerState S → Upload.Chance
  upload_chance r st = record {
    size_rules = st.rules;
    extension_rules = st.rules;
    type_rules = st.rules;
    temp_file_created = o.temp_file_created r;
    temp_file_written = o.temp_file_written r;
    temp_file_rewound = o.temp_file_rewound r;
    now = r.chance.now;
    file_id = r.chance.new_id;
    delete_token = r.chance.random;
  }

  unfoldable pub upload_handler : Handler (ServerState S) (Body ServerReply)
  upload_handler r st =
      let (response, u) =
        serve_http upload_platform
          (Upload.new_service (hours cfg.file_ttl_hours) cfg.r2_public_base_url)
          (upload_chance r st) st.rules
          (hash_ip o.sha256_of_text (extract_client_ip o.split_host_port r.header (o.remote_addr r))
            cfg.ip_hash_salt)
          (o.form r) (upload_part st) in
      (map_answer upload_reply (upload_answer response), with_upload_part u st)

  unfoldable pub file_info_handler : Handler (ServerState S) (Body ServerReply)
  file_info_handler r st =
      let (response, files) = serve_info r.url_id r.chance.now st.files in
      (file_answer response, record st { files = files })

  unfoldable pub file_delete_handler : Handler (ServerState S) (Body ServerReply)
  unfolding file_platform
  file_delete_handler r st =
      let (response, w) =
        serve_delete file_platform r.url_id r.header (o.query r) r.chance.now (file_part st) in
      (file_answer response, with_file_part w st)

  abbrev pub over_admin :
      Handler AdminHandler.State (Body AdminHandler.Reply)
      → Handler (ServerState S) (Body ServerReply)
  over_admin = over admin_part with_admin_part admin_reply

  -- `statsHandler`, which reads the counters of the state.
  unfoldable pub stats_handler : Handler (ServerState S) (Body ServerReply)
  stats_handler r st =
      over (λ s. s.files) (λ files s. record s { files = files }) public_reply
        (serve_stats (o.read_counter st.uploads_total) (o.read_counter st.upload_bytes_total)
          (o.read_counter st.upload_errors_total))
        r st

  unfoldable pub server_service : AdminService (ServerState S)
  unfolding session_service
  server_service = record {
    require_session = λ token now st.
        let (a, x) = (session_service admin_platform).require_session token now (admin_part st) in
        (a, with_admin_part x st);
    verify_credential = λ credential now later st.
        let (b, x) =
          (session_service admin_platform).verify_credential credential now later (admin_part st) in
        (b, with_admin_part x st);
  }

  unfoldable pub server_deps : RouterDependencies (ServerState S) ServerReply
  unfolding upload_handler file_info_handler file_delete_handler stats_handler server_service
      settings_callback
  server_deps =
      let p : Admin.Platform = admin_platform in
      let on_updated = some settings_callback in
      record {
        upload_serve = upload_handler;
        file_get_info = file_info_handler;
        file_delete = file_delete_handler;
        config_serve =
            over (λ s. s.rules) (λ rules s. s) public_reply (serve_config cfg.file_ttl_hours);
        stats_serve = stats_handler;
        node_status_serve =
            over (λ s. s.nodes) (λ nodes s. record s { nodes = nodes }) public_reply serve_nodes;
        legal_terms =
            over (λ s. s.admin) (λ admin s. record s { admin = admin }) public_reply serve_terms;
        legal_privacy =
            over (λ s. s.admin) (λ admin s. record s { admin = admin }) public_reply serve_privacy;
        metrics_serve = λ r s. (o.metrics r s, s);
        admin_login = over_admin (handle_login p o.decoder on_updated);
        admin_logout = over_admin (handle_logout p o.decoder on_updated);
        admin_me = over_admin (handle_me p o.decoder on_updated);
        admin_create_api_key = over_admin (handle_create_api_key p o.decoder on_updated);
        admin_list_api_keys = over_admin (handle_list_api_keys p o.decoder on_updated);
        admin_revoke_api_key = over_admin (handle_revoke_api_key p o.decoder on_updated);
        admin_get_upload_settings = over_admin (handle_get_upload_settings p o.decoder on_updated);
        admin_update_upload_settings =
            over_admin (handle_update_upload_settings p o.decoder on_updated);
        admin_get_terms = over_admin (handle_get_terms p o.decoder on_updated);
        admin_update_terms = over_admin (handle_update_terms p o.decoder on_updated);
        admin_get_privacy = over_admin (handle_get_privacy p o.decoder on_updated);
        admin_update_privacy = over_admin (handle_update_privacy p o.decoder on_updated);
        admin_service = some server_service;
        allowed_origin = cfg.allowed_origin;
        timed = true;
      }

  -- The handler of `http.Server`: the calls of the router with these handlers.
  unfoldable pub server_router : Router (ServerState S) ServerReply
  unfolding new_router server_deps
  server_router = new_router server_deps

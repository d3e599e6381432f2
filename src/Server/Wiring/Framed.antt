-- ===== src/Server/Wiring/Framed.antt =====
-- What the handlers of the server may change, and the routes with them.
use tempcdn.Prelude.{◌≡◌, inl, inr, refl, Option, some, In, All-In, arith}
use tempcdn.Text.{Text, lit}
use tempcdn.Config.{Config}
use tempcdn.Metadata.Model.{Time, UploadSettings, legal_doc_terms, legal_doc_privacy}
use tempcdn.Metadata.Files.{FilesDb}
use tempcdn.Metadata.Files.Effects.{find_by_id-tables}
use tempcdn.Metadata.Nodes.{NodesDb, list_node_status}
use tempcdn.Metadata.Stats.{stats}
use tempcdn.File.Service.{get_info}
use tempcdn.File.Handler.{serve_info}
use tempcdn.Upload.Validator.{Rules}
use tempcdn.Upload.Handler.Counts.{serve_http-limiter}
use tempcdn.Admin.Model.{Platform}
use tempcdn.Admin.Frame.{
  session_access-KeepsAll, verify_credential-ButKeys, get_legal_document-KeepsAll,
}
use tempcdn.Admin.Handler.{
  Decoder, handle_get_terms, handle_update_terms, handle_get_privacy, handle_update_privacy,
}
use tempcdn.Admin.Handler.Frame.{
  all-Keeps, keys-Keeps, same-Keeps, login-Keeps, logout-Keeps, me-Keeps, create_api_key-Keeps,
  list_api_keys-Keeps, revoke_api_key-Keeps, get_upload_settings-Keeps,
  update_upload_settings-Keeps, get_document-Keeps, update_document-Keeps,
}
use tempcdn.Public.{
  serve_config, serve_stats, serve_nodes, serve_document, serve_terms, serve_privacy,
}
use tempcdn.Http.{Request}
use tempcdn.Http.Registry.{Registration}
use tempcdn.Http.Router.Table.Moves.{Moves, Requires, Verifies}
use tempcdn.Http.Router.Table.Routes.{DepsMove, new_router-Moves}
use tempcdn.Server.{session_service, settings_callback}
use tempcdn.Server.Shared.{ServerState, ServerReply, upload_part, admin_part}
use tempcdn.Server.Wiring.{
  Outside, admin_platform, upload_handler, file_info_handler, file_delete_handler, stats_handler,
  server_service, server_deps, server_router,
}
use tempcdn.Server.Wiring.Frame.{IsFramed, frame-IsPreorder, admin-IsFramed, still-IsFramed}

stats-tables : (now : Time) (c : FilesDb) → (stats now c).1.tables ≡ c.tables
unfolding stats
stats-tables now c = ground arith

list_node_status-tables : (c : NodesDb) → (list_node_status c).1.tables ≡ c.tables
unfolding list_node_status
list_node_status-tables c = ground arith

get_info-tables : (id : Text) (now : Time) (c : FilesDb) → (get_info id now c).1.tables ≡ c.tables
unfolding get_info
get_info-tables id now c = ground (arith, find_by_id-tables id c)

module _ {S : Type 0} (o : Outside S) (cfg : Config) where
  upload_handler-IsFramed :
      Moves (IsFramed (lit "POST") (lit "/api/v1/upload")) (upload_handler o cfg)
  unfolding upload_handler
  upload_handler-IsFramed r s = record {
    limiter = (serve_http-limiter _ _ _ _ _ _ (upload_part s)).0;
    nodes = refl;
    contents = inl (refl, refl);
    counters = inl (refl, refl);
    administration = same-Keeps (admin_part s);
  }

  file_info_handler-IsFramed :
      Moves (IsFramed (lit "GET") (lit "/api/v1/files/{id}")) (file_info_handler o cfg)
  unfolding file_info_handler serve_info
  file_info_handler-IsFramed r s =
      still-IsFramed _ _ s _ refl refl (get_info-tables r.url_id r.chance.now s.files, refl, refl)
        (refl, refl, refl) (same-Keeps (admin_part s))

  file_delete_handler-IsFramed :
      Moves (IsFramed (lit "DELETE") (lit "/api/v1/files/{id}")) (file_delete_handler o cfg)
  unfolding file_delete_handler
  file_delete_handler-IsFramed r s = record {
    limiter = refl;
    nodes = refl;
    contents = inr (inl (refl, refl));
    counters = inr (refl, refl, refl);
    administration = same-Keeps (admin_part s);
  }

  stats_handler-IsFramed : Moves (IsFramed (lit "GET") (lit "/api/v1/stats")) (stats_handler o cfg)
  unfolding stats_handler serve_stats
  stats_handler-IsFramed r s =
      still-IsFramed _ _ s _ refl refl (stats-tables r.chance.now s.files, refl, refl)
        (refl, refl, refl) (same-Keeps (admin_part s))

  -- The connection of the administration is all that a public document changes.
  document-IsFramed :
      (method pattern doc_type : Text) (r : Request) (s : ServerState S)
      → IsFramed method pattern s (record s { admin = (serve_document doc_type r s.admin).1 })
  unfolding serve_document
  document-IsFramed method pattern doc_type r s =
      admin-IsFramed method pattern s
        (record { db = (serve_document doc_type r s.admin).1; rules = s.rules })
        (all-Keeps (admin_part s) _ (get_legal_document-KeepsAll doc_type s.admin) refl)

  required : (method pattern : Text) → Requires (IsFramed method pattern) (server_service o cfg)
  unfolding server_service session_service
  required method pattern token now s = admin-IsFramed method pattern s _ (
      all-Keeps (admin_part s) _ (session_access-KeepsAll (admin_platform o cfg) token now s.admin)
        refl)

  verified : Verifies (IsFramed (lit "*") (lit "/metrics")) (server_service o cfg)
  unfolding server_service session_service
  verified credential now later s = admin-IsFramed (lit "*") (lit "/metrics") s _ (
      keys-Keeps (inr (inr refl)) (admin_part s) _
        (verify_credential-ButKeys (admin_platform o cfg) credential now later s.admin) refl)

  server_deps-Moves : DepsMove IsFramed (server_deps o cfg)
  unfolding server_deps serve_config serve_nodes serve_terms serve_privacy handle_get_terms
      handle_update_terms handle_get_privacy handle_update_privacy
  server_deps-Moves =
      let p : Platform = admin_platform o cfg in
      let d : Decoder = o.decoder in
      let callback : Option (UploadSettings → Rules → Rules) = some settings_callback in
      record {
        upload_moves = upload_handler-IsFramed;
        file_info = file_info_handler-IsFramed;
        file_deletion = file_delete_handler-IsFramed;
        metrics = λ r s. (frame-IsPreorder (lit "*") (lit "/metrics")).here s;
        config_serve_moves = λ r s. (frame-IsPreorder (lit "GET") (lit "/api/v1/config")).here s;
        stats_serve_moves = stats_handler-IsFramed;
        node_status_serve_moves = λ r s.
            still-IsFramed _ _ s _ refl (list_node_status-tables s.nodes) (refl, refl, refl)
              (refl, refl, refl) (same-Keeps (admin_part s));
        legal_terms_moves = λ r s. document-IsFramed _ _ legal_doc_terms r s;
        legal_privacy_moves = λ r s. document-IsFramed _ _ legal_doc_privacy r s;
        admin_login_moves = λ r s.
            admin-IsFramed (lit "POST") (lit "/api/v1/admin/login") s _
              (login-Keeps p d callback r (admin_part s) (refl, refl));
        admin_logout_moves = λ r s.
            admin-IsFramed (lit "POST") (lit "/api/v1/admin/logout") s _
              (logout-Keeps p d callback r (admin_part s));
        admin_me_moves = λ r s.
            admin-IsFramed (lit "GET") (lit "/api/v1/admin/me") s _
              (me-Keeps p d callback r (admin_part s));
        create_api_key_moves = λ r s.
            admin-IsFramed (lit "POST") (lit "/api/v1/admin/api-keys") s _
              (create_api_key-Keeps p d callback r (admin_part s) (inl (refl, refl)));
        list_api_keys_moves = λ r s.
            admin-IsFramed (lit "GET") (lit "/api/v1/admin/api-keys") s _
              (list_api_keys-Keeps p d callback r (admin_part s));
        revoke_api_key_moves = λ r s.
            admin-IsFramed (lit "DELETE") (lit "/api/v1/admin/api-keys/{id}") s _
              (revoke_api_key-Keeps p d callback r (admin_part s) (inr (inl (refl, refl))));
        get_upload_settings_moves = λ r s.
            admin-IsFramed (lit "GET") (lit "/api/v1/admin/upload-settings") s _
              (get_upload_settings-Keeps p d callback r (admin_part s));
        update_upload_settings_moves = λ r s.
            admin-IsFramed (lit "PUT") (lit "/api/v1/admin/upload-settings") s _ (
              update_upload_settings-Keeps p d callback r (admin_part s) (refl, refl) (refl, refl));
        get_terms_moves = λ r s.
            admin-IsFramed (lit "GET") (lit "/api/v1/admin/legal/terms") s _
              (get_document-Keeps p d callback r (admin_part s) legal_doc_terms);
        update_terms_moves = λ r s.
            admin-IsFramed (lit "PUT") (lit "/api/v1/admin/legal/terms") s _ (
              update_document-Keeps p d callback r (admin_part s) (refl, inl refl) legal_doc_terms);
        get_privacy_moves = λ r s.
            admin-IsFramed (lit "GET") (lit "/api/v1/admin/legal/privacy") s _
              (get_document-Keeps p d callback r (admin_part s) legal_doc_privacy);
        update_privacy_moves = λ r s.
            admin-IsFramed (lit "PUT") (lit "/api/v1/admin/legal/privacy") s _ (
              update_document-Keeps p d callback r (admin_part s) (refl, inr refl)
                legal_doc_privacy);
      }

  -- Whatever a request asks of the server, and however the database and the object store answer: every
  -- route gives back the limiter as it found it and leaves the rows of the instances; only the upload
  -- and the early deletion change the rows of the files, the objects or the purge requests; only the
  -- upload counts; only the login changes accounts; only the creation and the revocation of a key and
  -- the metrics change API keys; only the two changes of documents change documents; and only the
  -- change of the upload settings changes the settings or the validator's rules.
  pub server_router-IsFramed :
      (c : Registration (ServerState S) ServerReply) (r : Request) (s : ServerState S)
      → In c (server_router o cfg).calls
      → IsFramed c.method c.pattern s (c.handler r s).1
  unfolding server_router server_deps
  server_router-IsFramed c r s i =
      All-In (λ c. Moves (IsFramed c.method c.pattern) c.handler) c (server_router o cfg).calls
        (new_router-Moves IsFramed frame-IsPreorder (server_deps o cfg) (server_service o cfg) refl
          required verified server_deps-Moves)
        i r s

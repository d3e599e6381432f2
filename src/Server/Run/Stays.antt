-- ===== src/Server/Run/Stays.antt =====
-- What every step of an instance does to the tables of the administration at most, for a relation that
-- allows what each of its operations may do.
use tempcdn.Prelude.{refl, ap, Option, some, In, All-In, inl, inr}
use tempcdn.Text.{Text, lit}
use tempcdn.Config.{Config}
use tempcdn.Metadata.Model.{Time, UploadSettings, legal_doc_terms, legal_doc_privacy}
use tempcdn.Metadata.Tables.{AdminDb}
use tempcdn.Admin.Model.{Platform}
use tempcdn.Admin.Frame.{KeepsAll, session_access-KeepsAll}
use tempcdn.Admin.Handler.{
  State, handle_login, handle_create_api_key, handle_revoke_api_key, handle_update_upload_settings,
  handle_update_document, Decoder, handle_get_terms, handle_update_terms, handle_get_privacy,
  handle_update_privacy,
}
use tempcdn.Admin.Access.{verify_api_key_or_admin_session}
use tempcdn.Admin.Handler.Frame.{
  Keeps, logout-Keeps, me-Keeps, list_api_keys-Keeps, get_upload_settings-Keeps, get_document-Keeps,
}
use tempcdn.Upload.Validator.{Rules}
use tempcdn.Upload.Synchronizer.{sync_once}
use tempcdn.Server.Run.Sound.{get_upload_settings-tables}
use tempcdn.Public.{serve_config, serve_nodes, serve_terms, serve_privacy}
use tempcdn.Http.{Request}
use tempcdn.Http.Registry.{Registration}
use tempcdn.Http.Router.Table.Moves.{Moves, IsPreorder, Requires, Verifies}
use tempcdn.Http.Router.Table.Routes.{DepsMove, new_router-Moves}
use tempcdn.Server.{session_service, settings_callback}
use tempcdn.Server.Shared.{ServerState, ServerReply, admin_part}
use tempcdn.Server.Wiring.{
  Outside, admin_platform, upload_handler, file_info_handler, file_delete_handler, stats_handler,
  server_service, server_deps, server_router,
}
use tempcdn.Server.Run.{
  Step, serves, sweeps, forgets, synchronizes, beats, marks, Steps, stop, next,
}
use tempcdn.Server.Run.Always.{document-KeepsAll, janitor_tick-KeepsAll}

abbrev callback : Option (UploadSettings → Rules → Rules)
callback = some settings_callback

-- A relation of the tables before and after: it is one of steps that may be several, a change of
-- nothing but sessions is within it, and so is what each operation does that changes more.
pub record IsStable (p : Platform) (d : Decoder) (R : AdminDb → AdminDb → Type 0) : Type 0 where
  pub then : (a b c : AdminDb) → R a b → R b c → R a c
  pub kept : (a b : AdminDb) → KeepsAll a b → R a b
  pub login_moves : (r : Request) (s : State) → R s.db (handle_login p d callback r s).1.db
  pub creation : (r : Request) (s : State) → R s.db (handle_create_api_key p d callback r s).1.db
  pub revocation : (r : Request) (s : State) → R s.db (handle_revoke_api_key p d callback r s).1.db
  pub settings :
      (r : Request) (s : State) → R s.db (handle_update_upload_settings p d callback r s).1.db
  pub document :
      (doc_type : Text) (r : Request) (s : State)
      → R s.db (handle_update_document p d callback doc_type r s).1.db
  pub credential :
      (credential : Text) (now later : Time) (c : AdminDb)
      → R c (verify_api_key_or_admin_session p credential now later c).1

only_sessions : (a b : State) → Keeps ⊥ ⊥ ⊥ ⊥ ⊥ a b → KeepsAll a.db b.db
only_sessions a b k = (
  elim k.admins [ inl z ↦ absurd z | inr e ↦ e ],
  elim k.api_keys [ inl z ↦ absurd z | inr e ↦ e ],
  elim k.upload_settings [ inl z ↦ absurd z | inr e ↦ e ],
  elim k.legal_documents [ inl z ↦ absurd z | inr e ↦ e ],
)

sync_once-KeepsAll : (c : AdminDb) (rules : Rules) → KeepsAll c (sync_once c rules).1
unfolding sync_once
sync_once-KeepsAll c rules =
    let e = get_upload_settings-tables c in
    (
      ap (λ t. t.admins) e,
      ap (λ t. t.api_keys) e,
      ap (λ t. t.upload_settings) e,
      ap (λ t. t.legal_documents) e,
    )

module _ {S : Type 0} (o : Outside S) (cfg : Config) (R : AdminDb → AdminDb → Type 0)
    (stable : IsStable (admin_platform o cfg) o.decoder R) where
  unmoved : (s : ServerState S) → R s.admin s.admin
  unmoved s = stable.kept s.admin s.admin (refl, refl, refl, refl)

  kept_by : (s : ServerState S) (b : State) → Keeps ⊥ ⊥ ⊥ ⊥ ⊥ (admin_part s) b → R s.admin b.db
  kept_by s b k = stable.kept s.admin b.db (only_sessions (admin_part s) b k)

  abbrev Stays : Text → Text → ServerState S → ServerState S → Type 0
  Stays method pattern s t = R s.admin t.admin

  stays-IsPreorder : (method pattern : Text) → IsPreorder (Stays method pattern)
  stays-IsPreorder method pattern = record {
    here = unmoved;
    then = λ s t u a b. stable.then s.admin t.admin u.admin a b;
  }

  required : (method pattern : Text) → Requires (Stays method pattern) (server_service o cfg)
  unfolding server_service session_service
  required method pattern token now s =
      stable.kept s.admin _ (session_access-KeepsAll (admin_platform o cfg) token now s.admin)

  verified : Verifies (Stays (lit "*") (lit "/metrics")) (server_service o cfg)
  unfolding server_service session_service
  verified credential now later s = stable.credential credential now later s.admin

  server_deps-Stays : DepsMove Stays (server_deps o cfg)
  unfolding server_deps serve_config serve_nodes serve_terms serve_privacy handle_get_terms
      handle_update_terms handle_get_privacy handle_update_privacy upload_handler file_info_handler
      file_delete_handler stats_handler
  server_deps-Stays =
      let p : Platform = admin_platform o cfg in
      let d : Decoder = o.decoder in
      record {
        upload_moves = λ r s. unmoved s;
        file_info = λ r s. unmoved s;
        file_deletion = λ r s. unmoved s;
        metrics = λ r s. unmoved s;
        config_serve_moves = λ r s. unmoved s;
        stats_serve_moves = λ r s. unmoved s;
        node_status_serve_moves = λ r s. unmoved s;
        legal_terms_moves =
            λ r s. stable.kept s.admin _ (document-KeepsAll legal_doc_terms r s.admin);
        legal_privacy_moves =
            λ r s. stable.kept s.admin _ (document-KeepsAll legal_doc_privacy r s.admin);
        admin_login_moves = λ r s. stable.login_moves r (admin_part s);
        admin_logout_moves = λ r s. kept_by s _ (logout-Keeps p d callback r (admin_part s));
        admin_me_moves = λ r s. kept_by s _ (me-Keeps p d callback r (admin_part s));
        create_api_key_moves = λ r s. stable.creation r (admin_part s);
        list_api_keys_moves =
            λ r s. kept_by s _ (list_api_keys-Keeps p d callback r (admin_part s));
        revoke_api_key_moves = λ r s. stable.revocation r (admin_part s);
        get_upload_settings_moves =
            λ r s. kept_by s _ (get_upload_settings-Keeps p d callback r (admin_part s));
        update_upload_settings_moves = λ r s. stable.settings r (admin_part s);
        get_terms_moves =
            λ r s. kept_by s _ (get_document-Keeps p d callback r (admin_part s) legal_doc_terms);
        update_terms_moves = λ r s. stable.document legal_doc_terms r (admin_part s);
        get_privacy_moves =
            λ r s. kept_by s _ (get_document-Keeps p d callback r (admin_part s) legal_doc_privacy);
        update_privacy_moves = λ r s. stable.document legal_doc_privacy r (admin_part s);
      }

  request-Stays :
      (c : Registration (ServerState S) ServerReply) (r : Request) (s : ServerState S)
      → In c (server_router o cfg).calls
      → R s.admin (c.handler r s).1.admin
  unfolding server_router server_deps
  request-Stays c r s i =
      All-In (λ c. Moves (Stays c.method c.pattern) c.handler) c (server_router o cfg).calls
        (new_router-Moves Stays stays-IsPreorder (server_deps o cfg) (server_service o cfg) refl
          required verified server_deps-Stays)
        i r s

  Step-Stays : (s t : ServerState S) → Step o cfg s t → R s.admin t.admin
  Step-Stays s _ (serves c r i) = request-Stays c r s i
  Step-Stays s _ (sweeps locked now) = unmoved s
  Step-Stays s _ (forgets now) = stable.kept s.admin _ (janitor_tick-KeepsAll now s.admin)
  Step-Stays s _ synchronizes = stable.kept s.admin _ (sync_once-KeepsAll s.admin s.rules)
  Step-Stays s _ (beats r now) = unmoved s
  Step-Stays s _ (marks stale_after now) = unmoved s

  pub Steps-Stays : {s t : ServerState S} → Steps o cfg s t → R s.admin t.admin
  Steps-Stays (stop {s}) = unmoved s
  Steps-Stays (next {s} {t} {u} step steps) =
      stable.then s.admin t.admin u.admin (Step-Stays s t step) (Steps-Stays steps)

-- ===== src/Admin/Handler.antt =====
-- internal/admin/handler.go: the handlers of the administration. The JSON decoder is outside: each
-- kind of body has a function that gives what the decoder makes of it, or nothing if it fails. A
-- response holds times as such; they are formatted outside. Lines of the log are left out.
pub mod Frame
pub mod Revoked
use tempcdn.Prelude.{Option, none, some, List, [], ◌∷◌, if◌then◌else◌}
use tempcdn.Prelude.Int.{ℤ}
use tempcdn.Text.{Text, lit, is_empty, trim_space}
use tempcdn.Action.{Result, ok, err}
use tempcdn.Metadata.Model.{
  Time, ApiKey, UploadSettings, LegalDocument, legal_document_not_found, legal_doc_terms,
  legal_doc_privacy,
}
use tempcdn.Metadata.Tables.{AdminDb}
use tempcdn.Admin.Model.{
  AdminError, SettingsError, Platform, invalid_credentials, invalid_upload_settings,
  legal_document_content_empty, repository,
}
use tempcdn.Admin.Sessions.{Session, LoginResult, login, logout}
use tempcdn.Admin.Keys.{CreateApiKeyResult, create_api_key, list_keys, revoke_key}
use tempcdn.Admin.Settings.{UpdateUploadSettingsInput, get_settings, update_settings}
use tempcdn.Admin.Documents.{get_document, update_document}
use tempcdn.Upload.Validator.{Rules}
use tempcdn.Http.{Answer, Handler, Body, payload, json, error, returned}
use tempcdn.Http.Router.{extract_bearer_token}

pub record LoginRequestBody : Type 0 where
  pub username : Text
  pub password : Text

-- What the JSON decoder makes of a body; nothing if it fails.
pub record Decoder : Type 0 where
  pub login_request : Text → Option LoginRequestBody
  pub create_api_key_request : Text → Option Text
  pub update_upload_settings_request : Text → Option UpdateUploadSettingsInput
  pub update_legal_document_request : Text → Option Text

pub record ApiKeyResponseBody : Type 0 where
  pub id : Text
  pub name : Text
  pub created_at : Time
  pub last_used_at : Option Time
  pub revoked_at : Option Time

pub record LoginResponseBody : Type 0 where
  pub token : Text
  pub username : Text
  pub expires_at : Time

pub record CreateApiKeyResponseBody : Type 0 where
  pub id : Text
  pub name : Text
  pub key : Text
  pub created_at : Time

pub record UploadSettingsResponseBody : Type 0 where
  pub max_upload_size_mb : ℤ
  pub allowed_mime_types : List Text
  pub blocked_extensions : List Text
  pub updated_at : Time
  pub updated_by : Option Text

pub record LegalDocumentResponseBody : Type 0 where
  pub doc_type : Text
  pub content : Text
  pub updated_at : Time
  pub updated_by : Option Text

-- The payloads of the responses. `settings_message` is the text of the error.
pub data Reply : Type 0 where
  login_reply : LoginResponseBody → Reply
  logged_out revoked : Reply
  me : Text → Reply
  created_key : CreateApiKeyResponseBody → Reply
  keys : List ApiKeyResponseBody → Reply
  settings : UploadSettingsResponseBody → Reply
  settings_message : SettingsError → Reply
  document : LegalDocumentResponseBody → Reply

-- The state: the database, and the rules of the validator, which the callback changes.
pub record State : Type 0 where
  pub db : AdminDb
  pub rules : Rules

unfoldable pub to_upload_settings_response_body : UploadSettings → UploadSettingsResponseBody
to_upload_settings_response_body s = record {
  max_upload_size_mb = s.max_upload_size_mb;
  allowed_mime_types = s.allowed_mime_types;
  blocked_extensions = s.blocked_extensions;
  updated_at = s.updated_at;
  updated_by = s.updated_by;
}

unfoldable pub to_legal_document_response_body : LegalDocument → LegalDocumentResponseBody
to_legal_document_response_body doc = record {
  doc_type = doc.doc_type;
  content = doc.content;
  updated_at = doc.updated_at;
  updated_by = doc.updated_by;
}

unfoldable pub to_api_key_response_body : ApiKey → ApiKeyResponseBody
to_api_key_response_body k = record {
  id = k.id;
  name = k.name;
  created_at = k.created_at;
  last_used_at = k.last_used_at;
  revoked_at = k.revoked_at;
}

-- The loop of `ListAPIKeys`.
unfoldable pub to_bodies : List ApiKey → List ApiKeyResponseBody
unfolding to_api_key_response_body
to_bodies [] = []
to_bodies (k ∷ ks) = to_api_key_response_body k ∷ to_bodies ks

abbrev pub answered : Answer (Body Reply) → AdminDb → State → Answer (Body Reply) × State
answered a db st = (a, record { db = db; rules = st.rules })

abbrev pub failed : Answer (Body Reply)
failed = returned (error 500 (lit "missing session context"))

abbrev pub bad_body : Answer (Body Reply)
bad_body = returned (error 400 (lit "invalid request body"))

unfoldable pub login_answer : Result AdminError LoginResult → Answer (Body Reply)
login_answer (ok r) = returned (
    json 200 (
      payload (
        login_reply (record {
          token = r.token;
          username = r.admin.username;
          expires_at = r.session.expires_at;
        }))))
login_answer (err invalid_credentials) = returned (error 401 (lit "invalid username or password"))
login_answer (err e) = returned (error 500 (lit "failed to log in"))

unfoldable pub logout_answer : Result AdminError (Unit {0}) → Answer (Body Reply)
logout_answer (ok _) = returned (json 200 (payload logged_out))
logout_answer (err e) = returned (error 500 (lit "failed to log out"))

unfoldable pub create_answer : Result AdminError CreateApiKeyResult → Answer (Body Reply)
create_answer (ok r) = returned (
    json 201 (
      payload (
        created_key (record {
          id = r.key_record.id;
          name = r.key_record.name;
          key = r.key;
          created_at = r.key_record.created_at;
        }))))
create_answer (err e) = returned (error 500 (lit "failed to create api key"))

unfoldable pub list_answer : Result AdminError (List ApiKey) → Answer (Body Reply)
unfolding to_bodies
list_answer (ok ks) = returned (json 200 (payload (keys (to_bodies ks))))
list_answer (err e) = returned (error 500 (lit "failed to list api keys"))

unfoldable pub revoke_answer : Result AdminError (Unit {0}) → Answer (Body Reply)
revoke_answer (ok _) = returned (json 200 (payload revoked))
revoke_answer (err e) = returned (error 500 (lit "failed to revoke api key"))

unfoldable pub get_settings_answer : Result AdminError UploadSettings → Answer (Body Reply)
unfolding to_upload_settings_response_body
get_settings_answer (ok s) =
    returned (json 200 (payload (settings (to_upload_settings_response_body s))))
get_settings_answer (err e) = returned (error 500 (lit "failed to get upload settings"))

unfoldable pub get_document_answer : Result AdminError LegalDocument → Answer (Body Reply)
unfolding to_legal_document_response_body
get_document_answer (ok d) =
    returned (json 200 (payload (document (to_legal_document_response_body d))))
get_document_answer (err (repository legal_document_not_found)) =
    returned (error 404 (lit "legal document not found"))
get_document_answer (err e) = returned (error 500 (lit "failed to get legal document"))

unfoldable pub update_document_answer : Result AdminError LegalDocument → Answer (Body Reply)
unfolding to_legal_document_response_body
update_document_answer (ok d) =
    returned (json 200 (payload (document (to_legal_document_response_body d))))
update_document_answer (err legal_document_content_empty) =
    returned (error 400 (lit "legal document content must not be empty"))
update_document_answer (err (repository legal_document_not_found)) =
    returned (error 404 (lit "legal document not found"))
update_document_answer (err e) = returned (error 500 (lit "failed to update legal document"))

-- `SessionFromContext`, and the use of the session's name
abbrev pub me_answer : Option Session → Answer (Body Reply)
me_answer none = failed
me_answer (some s) = returned (json 200 (payload (me s.admin.username)))

abbrev pub called_back : Option (UploadSettings → Rules → Rules) → UploadSettings → Rules → Rules
called_back none s rules = rules
called_back (some on_updated) s rules = on_updated s rules

-- `callback` is `onUploadSettingsUpdated`, which may be nil.
module _ (p : Platform) (d : Decoder) (callback : Option (UploadSettings → Rules → Rules)) where
  abbrev pub with_login : Option LoginRequestBody → Handler State (Body Reply)
  with_login none r st = (bad_body, st)
  with_login (some b) r st =
      let (a, db) = login p b.username b.password r.chance.random r.chance.now st.db in
      answered (login_answer a) db st

  unfoldable pub handle_login : Handler State (Body Reply)
  handle_login r st = with_login (d.login_request r.body) r st

  unfoldable pub handle_logout : Handler State (Body Reply)
  unfolding extract_bearer_token
  handle_logout r st =
      let (a, db) = logout p (extract_bearer_token r.header) st.db in
      answered (logout_answer a) db st

  unfoldable pub handle_me : Handler State (Body Reply)
  handle_me r st = (me_answer r.session, st)

  abbrev pub with_name : Option Text → Handler State (Body Reply)
  with_name none r st = (bad_body, st)
  with_name (some name) r st =
      if is_empty (trim_space name)
      then (returned (error 400 (lit "name must not be empty")), st)
      else (let (a, db) =
            create_api_key p name r.chance.random r.chance.new_id r.chance.now st.db in
          answered (create_answer a) db st)

  unfoldable pub handle_create_api_key : Handler State (Body Reply)
  handle_create_api_key r st = with_name (d.create_api_key_request r.body) r st

  unfoldable pub handle_list_api_keys : Handler State (Body Reply)
  handle_list_api_keys r st = let (a, db) = list_keys p st.db in answered (list_answer a) db st

  unfoldable pub handle_revoke_api_key : Handler State (Body Reply)
  handle_revoke_api_key r st =
      let (a, db) = revoke_key p r.url_id r.chance.now st.db in answered (revoke_answer a) db st

  unfoldable pub handle_get_upload_settings : Handler State (Body Reply)
  handle_get_upload_settings r st =
      let (a, db) = get_settings st.db in answered (get_settings_answer a) db st

  -- What is done with the answer of `Service.UpdateUploadSettings`.
  unfoldable pub after_update :
      Result AdminError UploadSettings → AdminDb → State → Answer (Body Reply) × State
  unfolding to_upload_settings_response_body
  after_update (ok s) db st = (
    returned (json 200 (payload (settings (to_upload_settings_response_body s)))),
    record { db = db; rules = called_back callback s st.rules },
  )
  after_update (err (invalid_upload_settings e)) db st =
      answered (returned (json 400 (payload (settings_message e)))) db st
  after_update (err e) db st =
      answered (returned (error 500 (lit "failed to update upload settings"))) db st

  abbrev pub with_settings :
      Option UpdateUploadSettingsInput → Option Session → Handler State (Body Reply)
  with_settings none session r st = (bad_body, st)
  with_settings (some i) none r st = (failed, st)
  with_settings (some i) (some s) r st =
      let (a, db) = update_settings s.admin.id i r.chance.now st.db in after_update a db st

  unfoldable pub handle_update_upload_settings : Handler State (Body Reply)
  unfolding after_update
  handle_update_upload_settings r st =
      with_settings (d.update_upload_settings_request r.body) r.session r st

  unfoldable pub handle_get_document : Text → Handler State (Body Reply)
  handle_get_document doc_type r st =
      let (a, db) = get_document doc_type st.db in answered (get_document_answer a) db st

  abbrev pub with_content : Text → Option Text → Option Session → Handler State (Body Reply)
  with_content doc_type none session r st = (bad_body, st)
  with_content doc_type (some content) none r st = (failed, st)
  with_content doc_type (some content) (some s) r st =
      let (a, db) = update_document doc_type content s.admin.id r.chance.now st.db in
      answered (update_document_answer a) db st

  unfoldable pub handle_update_document : Text → Handler State (Body Reply)
  handle_update_document doc_type r st =
      with_content doc_type (d.update_legal_document_request r.body) r.session r st

  unfoldable pub handle_get_terms : Handler State (Body Reply)
  unfolding handle_get_document
  handle_get_terms = handle_get_document legal_doc_terms

  unfoldable pub handle_update_terms : Handler State (Body Reply)
  unfolding handle_update_document
  handle_update_terms = handle_update_document legal_doc_terms

  unfoldable pub handle_get_privacy : Handler State (Body Reply)
  unfolding handle_get_document
  handle_get_privacy = handle_get_document legal_doc_privacy

  unfoldable pub handle_update_privacy : Handler State (Body Reply)
  unfolding handle_update_document
  handle_update_privacy = handle_update_document legal_doc_privacy

-- ===== src/Admin/Frame.antt =====
-- What each operation of the administration leaves alone.
use tempcdn.Prelude.{◌≡◌, refl, ap, ◌∙◌, ◌||◌, not, [], ◌∷◌, Option, arith}
use tempcdn.Text.{Text, is_empty, trim_space}
use tempcdn.Action.{Result, ok, err, raise, wrap}
use tempcdn.Action.Keeps.{if-keeps}
use tempcdn.Metadata.Model.{Time, Error, Admin, ApiKey}
use tempcdn.Metadata.Tables.{AdminDb}
use tempcdn.Metadata.Admins.{
  find_admin_by_id, find_admin_by_username, find_admin_session_by_token_hash, touch_admin_session,
  delete_admin_session, insert_admin_session, touch_admin_last_login,
}
use tempcdn.Metadata.ApiKeys.{
  insert_api_key, find_api_key_by_token_hash, list_api_keys, touch_api_key, revoke_api_key,
}
use tempcdn.Metadata.Settings.{get_upload_settings, update_upload_settings}
use tempcdn.Metadata.Legal.{get_legal_document, update_legal_document}
use tempcdn.Admin.Model.{
  AdminError, Platform, invalid_credentials, empty_key_name, invalid_legal_doc_type,
  legal_document_content_empty, repository,
}
use tempcdn.IdGen.{new_api_key}
use tempcdn.Admin.Sessions.{
  Session, forget_session, after_account, start_session, after_admin, with_session, after_session,
  verify_session, login, logout,
}
use tempcdn.Admin.Keys.{create_api_key, list_keys, revoke_key, verify_api_key, store_key, after_key}
use tempcdn.Admin.Settings.{
  UpdateUploadSettingsInput, get_settings, update_settings, after_validation,
}
use tempcdn.Admin.Documents.{is_valid_legal_doc_type, get_document, update_document}
use tempcdn.Admin.Access.{
  after_verify_key, after_verify_session, session_access, verify_api_key_or_admin_session,
}

-- Nothing but the table of sessions may have changed.
abbrev pub KeepsAll : AdminDb → AdminDb → Type 0
KeepsAll c d =
    (d.tables.admins ≡ c.tables.admins)
    × (d.tables.api_keys ≡ c.tables.api_keys)
    × (d.tables.upload_settings ≡ c.tables.upload_settings)
    × (d.tables.legal_documents ≡ c.tables.legal_documents)

-- The same, but for the table of accounts, of API keys, of the settings and of the documents.
abbrev pub ButAccounts : AdminDb → AdminDb → Type 0
ButAccounts c d =
    (d.tables.api_keys ≡ c.tables.api_keys)
    × (d.tables.upload_settings ≡ c.tables.upload_settings)
    × (d.tables.legal_documents ≡ c.tables.legal_documents)

abbrev pub ButKeys : AdminDb → AdminDb → Type 0
ButKeys c d =
    (d.tables.admins ≡ c.tables.admins)
    × (d.tables.upload_settings ≡ c.tables.upload_settings)
    × (d.tables.legal_documents ≡ c.tables.legal_documents)

abbrev pub ButSettings : AdminDb → AdminDb → Type 0
ButSettings c d =
    (d.tables.admins ≡ c.tables.admins)
    × (d.tables.api_keys ≡ c.tables.api_keys)
    × (d.tables.legal_documents ≡ c.tables.legal_documents)

abbrev pub ButDocuments : AdminDb → AdminDb → Type 0
ButDocuments c d =
    (d.tables.admins ≡ c.tables.admins)
    × (d.tables.api_keys ≡ c.tables.api_keys)
    × (d.tables.upload_settings ≡ c.tables.upload_settings)

module _ (p : Platform) where
  pub verify_session-KeepsAll :
      (token : Text) (now : Time) (c : AdminDb) → KeepsAll c (verify_session p token now c).1
  unfolding verify_session after_session with_session forget_session delete_admin_session
      after_admin touch_admin_session find_admin_by_id find_admin_session_by_token_hash
  verify_session-KeepsAll token now c = ground arith

  after_account-ButAccounts :
      (password : Text) (token : Option Text) (now : Time) (a : Result Error Admin) (c : AdminDb)
      → ButAccounts c (after_account p password token now a c).1
  unfolding after_account start_session insert_admin_session touch_admin_last_login
  after_account-ButAccounts password token now a c = ground arith

  find_admin_by_username-tables :
      (username : Text) (c : AdminDb) → (find_admin_by_username username c).1.tables ≡ c.tables
  unfolding find_admin_by_username
  find_admin_by_username-tables username c = ground arith

  same_tables-ButAccounts :
      (c d e : AdminDb) → d.tables ≡ c.tables → ButAccounts d e → ButAccounts c e
  same_tables-ButAccounts c d e h (k, s, l) = (
    k ∙ ap (λ t. t.api_keys) h,
    s ∙ ap (λ t. t.upload_settings) h,
    l ∙ ap (λ t. t.legal_documents) h,
  )

  pub login-ButAccounts :
      (username password : Text) (token : Option Text) (now : Time) (c : AdminDb)
      → ButAccounts c (login p username password token now c).1
  unfolding login
  login-ButAccounts username password token now c =
      let found : Result Error Admin × AdminDb = find_admin_by_username (trim_space username) c in
      if-keeps (ButAccounts c) (is_empty (trim_space username) || is_empty password)
        (raise invalid_credentials) _ c (refl, refl, refl)
        (same_tables-ButAccounts c found.1 (after_account p password token now found.0 found.1).1
          (find_admin_by_username-tables (trim_space username) c)
          (after_account-ButAccounts password token now found.0 found.1))

  pub logout-KeepsAll : (token : Text) (c : AdminDb) → KeepsAll c (logout p token c).1
  unfolding logout delete_admin_session
  logout-KeepsAll token c = ground arith

  store_key-ButKeys :
      (id name : Text) (key : Option Text) (now : Time) (c : AdminDb)
      → ButKeys c (store_key p id name key now c).1
  unfolding store_key insert_api_key
  store_key-ButKeys id name key now c = ground arith

  pub create_api_key-ButKeys :
      (name : Text) (random : Option Text) (id : Text) (now : Time) (c : AdminDb)
      → ButKeys c (create_api_key p name random id now c).1
  unfolding create_api_key
  create_api_key-ButKeys name random id now c =
      if-keeps (ButKeys c) (is_empty (trim_space name)) (raise empty_key_name)
        (store_key p id (trim_space name) (new_api_key random) now) c (refl, refl, refl)
        (store_key-ButKeys id (trim_space name) (new_api_key random) now c)

  pub list_keys-KeepsAll : (c : AdminDb) → KeepsAll c (list_keys p c).1
  unfolding list_keys list_api_keys
  list_keys-KeepsAll c = ground arith

  pub revoke_key-ButKeys :
      (id : Text) (now : Time) (c : AdminDb) → ButKeys c (revoke_key p id now c).1
  unfolding revoke_key revoke_api_key
  revoke_key-ButKeys id now c = ground arith

  pub verify_api_key-ButKeys :
      (key : Text) (now : Time) (c : AdminDb) → ButKeys c (verify_api_key p key now c).1
  unfolding verify_api_key after_key find_api_key_by_token_hash touch_api_key
  verify_api_key-ButKeys key now c = ground arith

pub get_settings-KeepsAll : (c : AdminDb) → KeepsAll c (get_settings c).1
unfolding get_settings get_upload_settings
get_settings-KeepsAll c = ground arith

pub update_settings-ButSettings :
    (admin_id : Text) (i : UpdateUploadSettingsInput) (now : Time) (c : AdminDb)
    → ButSettings c (update_settings admin_id i now c).1
unfolding update_settings after_validation update_upload_settings
update_settings-ButSettings admin_id i now c = ground arith

pub get_legal_document-KeepsAll :
    (doc_type : Text) (c : AdminDb) → KeepsAll c (get_legal_document doc_type c).1
unfolding get_legal_document
get_legal_document-KeepsAll doc_type c = ground arith

pub get_document-KeepsAll : (doc_type : Text) (c : AdminDb) → KeepsAll c (get_document doc_type c).1
unfolding get_document get_legal_document
get_document-KeepsAll doc_type c = ground arith

update_legal_document-ButDocuments :
    (doc_type content admin_id : Text) (now : Time) (c : AdminDb)
    → ButDocuments c (update_legal_document doc_type content admin_id now c).1
unfolding update_legal_document
update_legal_document-ButDocuments doc_type content admin_id now c = ground arith

pub update_document-ButDocuments :
    (doc_type content admin_id : Text) (now : Time) (c : AdminDb)
    → ButDocuments c (update_document doc_type content admin_id now c).1
unfolding update_document
update_document-ButDocuments doc_type content admin_id now c =
    if-keeps (ButDocuments c) (not (is_valid_legal_doc_type doc_type))
      (raise invalid_legal_doc_type) _ c (refl, refl, refl)
      (if-keeps (ButDocuments c) (is_empty (trim_space content))
        (raise legal_document_content_empty)
        (wrap repository (update_legal_document doc_type content admin_id now)) c (refl, refl, refl)
        (update_legal_document-ButDocuments doc_type content admin_id now c))

-- The verification of a session, and of a credential of the metrics.
module _ (p : Platform) where
  pub session_access-KeepsAll :
      (token : Text) (now : Time) (c : AdminDb) → KeepsAll c (session_access p token now c).1
  unfolding session_access
  session_access-KeepsAll token now c = verify_session-KeepsAll p token now c

  then_key-ButKeys :
      (credential : Text) (now : Time) (a : Result AdminError Session) (c d : AdminDb)
      → KeepsAll c d
      → ButKeys c (after_verify_session p credential now (a, d)).1
  then_key-ButKeys credential now (ok s) c d (a, k, s', l) = (a, s', l)
  then_key-ButKeys credential now (err e) c d (a, k, s, l) =
      by_key (verify_api_key p credential now d).0 (verify_api_key p credential now d).1
        (verify_api_key-ButKeys p credential now d)
    where
      by_key :
          (x : Result AdminError ApiKey) (e : AdminDb)
          → ButKeys d e
          → ButKeys c (after_verify_key p (x, e)).1
      by_key (ok key) e (a', s', l') = (a' ∙ a, s' ∙ s, l' ∙ l)
      by_key (err x) e (a', s', l') = (a' ∙ a, s' ∙ s, l' ∙ l)

  pub verify_credential-ButKeys :
      (credential : Text) (now later : Time) (c : AdminDb)
      → ButKeys c (verify_api_key_or_admin_session p credential now later c).1
  unfolding verify_api_key_or_admin_session
  verify_credential-ButKeys [] now later c = (refl, refl, refl)
  verify_credential-ButKeys (x ∷ xs) now later c =
      let verified : Result AdminError Session × AdminDb = verify_session p (x ∷ xs) now c in
      then_key-ButKeys (x ∷ xs) later verified.0 c verified.1
        (verify_session-KeepsAll p (x ∷ xs) now c)

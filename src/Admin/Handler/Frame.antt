-- ===== src/Admin/Handler/Frame.antt =====
-- What each handler of the administration leaves alone.
use tempcdn.Prelude.{◌≡◌, ◌⊎◌, inl, inr, refl, Bool-cases, Option, some, none, arith}
use tempcdn.Text.{Text, is_empty, trim_space}
use tempcdn.Action.{Result}
use tempcdn.Metadata.Model.{UploadSettings}
use tempcdn.Metadata.Tables.{AdminDb}
use tempcdn.Admin.Model.{AdminError, Platform}
use tempcdn.Admin.Sessions.{Session}
use tempcdn.Admin.Settings.{UpdateUploadSettingsInput, update_settings}
use tempcdn.Admin.Frame.{
  KeepsAll, ButKeys, ButSettings, login-ButAccounts, logout-KeepsAll, create_api_key-ButKeys,
  list_keys-KeepsAll, revoke_key-ButKeys, get_settings-KeepsAll, update_settings-ButSettings,
  get_document-KeepsAll, update_document-ButDocuments,
}
use tempcdn.Upload.Validator.{Rules}
use tempcdn.Admin.Handler.{
  Decoder, State, LoginRequestBody, with_login, with_name, with_settings, with_content,
  handle_login, handle_logout, handle_me, handle_create_api_key, handle_list_api_keys,
  handle_revoke_api_key, handle_get_upload_settings, handle_update_upload_settings,
  handle_get_document, handle_update_document, after_update,
}
use tempcdn.Http.{Request}

-- What may have changed is a parameter: each table but that of sessions, and the rules.
pub record Keeps (accounts keys settings documents rules : Type 0) (a b : State) : Type 0 where
  pub admins : accounts ⊎ (b.db.tables.admins ≡ a.db.tables.admins)
  pub api_keys : keys ⊎ (b.db.tables.api_keys ≡ a.db.tables.api_keys)
  pub upload_settings : settings ⊎ (b.db.tables.upload_settings ≡ a.db.tables.upload_settings)
  pub legal_documents : documents ⊎ (b.db.tables.legal_documents ≡ a.db.tables.legal_documents)
  pub same_rules : rules ⊎ (b.rules ≡ a.rules)

module _ {accounts keys settings documents rules : Type 0} where
  -- Only sessions have changed.
  pub all-Keeps :
      (s t : State)
      → KeepsAll s.db t.db
      → t.rules ≡ s.rules
      → Keeps accounts keys settings documents rules s t
  all-Keeps s t (a, k, u, l) r = record {
    admins = inr a;
    api_keys = inr k;
    upload_settings = inr u;
    legal_documents = inr l;
    same_rules = inr r;
  }

  pub same-Keeps : (s : State) → Keeps accounts keys settings documents rules s s
  same-Keeps s = all-Keeps s s (refl, refl, refl, refl) refl

  pub keys-Keeps :
      keys
      → (s t : State) → ButKeys s.db t.db
      → t.rules ≡ s.rules
      → Keeps accounts keys settings documents rules s t
  keys-Keeps x s t (a, u, l) r = record {
    admins = inr a;
    api_keys = inl x;
    upload_settings = inr u;
    legal_documents = inr l;
    same_rules = inr r;
  }

  module _ (p : Platform) (d : Decoder) (callback : Option (UploadSettings → Rules → Rules))
      (r : Request) (s : State) where
    pub login-Keeps :
        accounts → Keeps accounts keys settings documents rules s (handle_login p d callback r s).1
    unfolding handle_login
    login-Keeps x = by_body (d.login_request r.body)
      where
        by_body :
            (b : Option LoginRequestBody)
            → Keeps accounts keys settings documents rules s (with_login p d callback b r s).1
        by_body none = same-Keeps s
        by_body (some b) =
            let (k, u, l) =
              login-ButAccounts p b.username b.password r.chance.random r.chance.now s.db in
            record {
              admins = inl x;
              api_keys = inr k;
              upload_settings = inr u;
              legal_documents = inr l;
              same_rules = inr refl;
            }

    pub logout-Keeps :
        Keeps accounts keys settings documents rules s (handle_logout p d callback r s).1
    unfolding handle_logout
    logout-Keeps = all-Keeps s _ (logout-KeepsAll p _ s.db) refl

    pub me-Keeps : Keeps accounts keys settings documents rules s (handle_me p d callback r s).1
    unfolding handle_me
    me-Keeps = same-Keeps s

    pub create_api_key-Keeps :
        keys
        → Keeps accounts keys settings documents rules s (handle_create_api_key p d callback r s).1
    unfolding handle_create_api_key
    create_api_key-Keeps x = by_body (d.create_api_key_request r.body)
      where
        by_body :
            (b : Option Text)
            → Keeps accounts keys settings documents rules s (with_name p d callback b r s).1
        by_body none = same-Keeps s
        by_body (some name) = elim (Bool-cases (is_empty (trim_space name))) [
          | inl e ↦ rw e (same-Keeps s)
          | inr e ↦ rw e (
              keys-Keeps x s _
                (create_api_key-ButKeys p name r.chance.random r.chance.new_id r.chance.now s.db)
                refl)
        ]

    pub list_api_keys-Keeps :
        Keeps accounts keys settings documents rules s (handle_list_api_keys p d callback r s).1
    unfolding handle_list_api_keys
    list_api_keys-Keeps = all-Keeps s _ (list_keys-KeepsAll p s.db) refl

    pub revoke_api_key-Keeps :
        keys
        → Keeps accounts keys settings documents rules s (handle_revoke_api_key p d callback r s).1
    unfolding handle_revoke_api_key
    revoke_api_key-Keeps x = keys-Keeps x s _ (revoke_key-ButKeys p r.url_id r.chance.now s.db) refl

    pub get_upload_settings-Keeps :
        Keeps accounts keys settings documents rules s
          (handle_get_upload_settings p d callback r s).1
    unfolding handle_get_upload_settings
    get_upload_settings-Keeps = all-Keeps s _ (get_settings-KeepsAll s.db) refl

    pub get_document-Keeps :
        (doc_type : Text)
        → Keeps accounts keys settings documents rules s
            (handle_get_document p d callback doc_type r s).1
    unfolding handle_get_document
    get_document-Keeps doc_type = all-Keeps s _ (get_document-KeepsAll doc_type s.db) refl

    pub update_document-Keeps :
        documents
        → (doc_type : Text)
        → Keeps accounts keys settings documents rules s
            (handle_update_document p d callback doc_type r s).1
    unfolding handle_update_document
    update_document-Keeps x doc_type = by_body (d.update_legal_document_request r.body) r.session
      where
        by_body :
            (b : Option Text) (session : Option Session)
            → Keeps accounts keys settings documents rules s
                (with_content p d callback doc_type b session r s).1
        by_body none session = same-Keeps s
        by_body (some content) none = same-Keeps s
        by_body (some content) (some by) =
            let (a, k, u) =
              update_document-ButDocuments doc_type content by.admin.id r.chance.now s.db in
            record {
              admins = inr a;
              api_keys = inr k;
              upload_settings = inr u;
              legal_documents = inl x;
              same_rules = inr refl;
            }

    after_update-Keeps :
        settings
        → rules
        → (a : Result AdminError UploadSettings) (db : AdminDb) → ButSettings s.db db
        → Keeps accounts keys settings documents rules s (after_update p d callback a db s).1
    unfolding after_update
    after_update-Keeps x y a db (b, k, l) = record {
      admins = inr (ground (arith, b));
      api_keys = inr (ground (arith, k));
      upload_settings = inl x;
      legal_documents = inr (ground (arith, l));
      same_rules = inl y;
    }

    pub update_upload_settings-Keeps :
        settings
        → rules
        → Keeps accounts keys settings documents rules s
            (handle_update_upload_settings p d callback r s).1
    unfolding handle_update_upload_settings
    update_upload_settings-Keeps x y = by_body (d.update_upload_settings_request r.body) r.session
      where
        by_body :
            (b : Option UpdateUploadSettingsInput) (session : Option Session)
            → Keeps accounts keys settings documents rules s
                (with_settings p d callback b session r s).1
        by_body none session = same-Keeps s
        by_body (some i) none = same-Keeps s
        by_body (some i) (some by) =
            let updated : Result AdminError UploadSettings × AdminDb =
              update_settings by.admin.id i r.chance.now s.db in
            after_update-Keeps x y updated.0 updated.1
              (update_settings-ButSettings by.admin.id i r.chance.now s.db)

-- ===== src/Admin/Bootstrap.antt =====
-- internal/admin/bootstrap.go: what an instance ensures at its start: an admin account, the upload
-- settings and the legal documents.
use tempcdn.Prelude.{ℕ, ◌+◌, ◌||◌, Option, none, some, List, [], ◌∷◌, ltb, if◌then◌else◌}
use tempcdn.Prelude.Int.{ℤ}
use tempcdn.Text.{Text, lit, is_empty}
use tempcdn.Action.{Result, ok, err, Action, pure, raise, attempt, wrap, ◌>>=◌, ◌>>◌}
use tempcdn.Metadata.Model.{
  Time, Admin, legal_doc_terms, legal_doc_privacy, Error, admin_username_taken,
}
use tempcdn.Metadata.Tables.{AdminDb}
use tempcdn.Metadata.Admins.{count_admins, insert_admin}
use tempcdn.Metadata.Settings.{seed_upload_settings_if_missing}
use tempcdn.Metadata.Legal.{seed_legal_document_if_missing}
use tempcdn.Admin.Model.{
  AdminError, bootstrap_unset, bootstrap_password_short, password_hashing, repository,
}

abbrev pub min_password_length : ℕ
min_password_length = 12

-- The UTF-8 length of a code point, and of a text: Go's `len` counts bytes.
abbrev pub utf8_width : ℕ → ℕ
utf8_width c = if ltb c 0x80 then 1 else if ltb c 0x800 then 2 else if ltb c 0x10000 then 3 else 4

abbrev pub byte_length : Text → ℕ
byte_length [] = 0
byte_length (c ∷ s) = utf8_width c + byte_length s

pub record BootstrapConfig : Type 0 where
  pub username : Text
  pub password : Text

-- What is done with the answer of `InsertAdmin`: another instance may have been first.
unfoldable pub after_admin_insert : Result Error (Unit {0}) → Action AdminDb AdminError (Unit {0})
after_admin_insert (ok _) = pure tt
after_admin_insert (err admin_username_taken) = pure tt
after_admin_insert (err e) = raise (repository e)

abbrev pub first_admin : Text → BootstrapConfig → Text → Time → Admin
first_admin id cfg password_hash now = record {
  id = id;
  username = cfg.username;
  password_hash = password_hash;
  created_at = now;
  last_login_at = none;
}

-- From the hash of the password to the end; `none` says that bcrypt failed.
unfoldable pub insert_first_admin :
    Text → BootstrapConfig → Option Text → Time → Action AdminDb AdminError (Unit {0})
insert_first_admin id cfg none now = raise password_hashing
insert_first_admin id cfg (some password_hash) now = do
  inserted ← attempt (insert_admin (first_admin id cfg password_hash now))
  after_admin_insert inserted

unfoldable pub bootstrap_empty :
    (Text → Option Text) → BootstrapConfig → Text → Time → Action AdminDb AdminError (Unit {0})
bootstrap_empty generate_from_password cfg id now =
    if is_empty cfg.username || is_empty cfg.password
    then raise bootstrap_unset
    else if ltb (byte_length cfg.password) min_password_length
    then raise bootstrap_password_short
    else insert_first_admin id cfg (generate_from_password cfg.password) now

unfoldable pub bootstrap :
    (Text → Option Text) → BootstrapConfig → Text → Time → Action AdminDb AdminError (Unit {0})
bootstrap generate_from_password cfg id now = do
  count ← wrap repository count_admins
  if ltb 0 count then pure tt else bootstrap_empty generate_from_password cfg id now

pub record UploadSettingsDefaults : Type 0 where
  pub max_upload_size_mb : ℤ
  pub allowed_mime_types : List Text
  pub blocked_extensions : List Text

unfoldable pub seed_upload_settings :
    UploadSettingsDefaults → Time → Action AdminDb AdminError (Unit {0})
seed_upload_settings d now = wrap repository (
    seed_upload_settings_if_missing (record {
      max_upload_size_mb = d.max_upload_size_mb;
      allowed_mime_types = d.allowed_mime_types;
      blocked_extensions = d.blocked_extensions;
      updated_at = now;
      updated_by = none;
    }))

abbrev pub default_terms_content : Text
default_terms_content = lit "No terms of service have been configured yet."

abbrev pub default_privacy_content : Text
default_privacy_content = lit "No privacy policy has been configured yet."

unfoldable pub seed_legal_documents : Time → Action AdminDb AdminError (Unit {0})
seed_legal_documents now = do
  wrap repository (
      seed_legal_document_if_missing (record {
        doc_type = legal_doc_terms;
        content = default_terms_content;
        updated_at = now;
        updated_by = none;
      }))
  wrap repository (
      seed_legal_document_if_missing (record {
        doc_type = legal_doc_privacy;
        content = default_privacy_content;
        updated_at = now;
        updated_by = none;
      }))

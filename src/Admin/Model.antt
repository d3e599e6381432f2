-- ===== src/Admin/Model.antt =====
-- internal/admin/service.go: the error values, and what the service takes from outside: SHA-256 in
-- hexadecimal, and `bcrypt.CompareHashAndPassword` as the test `password_matches` of a hash and a
-- password.
use tempcdn.Prelude.{Bool}
use tempcdn.Text.{Text}
use tempcdn.Metadata.Model.{Error}

-- Why upload settings are refused.
pub data SettingsError : Type 0 where
  size_not_positive size_above_ceiling no_mime_types : SettingsError
  extension_without_dot : Text → SettingsError

-- `repository` is an error of the repository that a method wraps.
pub data AdminError : Type 0 where
  invalid_credentials session_invalid api_key_invalid : AdminError
  token_generation empty_key_name : AdminError
  invalid_upload_settings : SettingsError → AdminError
  invalid_legal_doc_type legal_document_content_empty : AdminError
  bootstrap_unset bootstrap_password_short password_hashing : AdminError
  repository : Error → AdminError

pub record Platform : Type 0 where
  pub sha256_hex : Text → Text
  pub password_matches : Text → Text → Bool

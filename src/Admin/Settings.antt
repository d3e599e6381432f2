-- ===== src/Admin/Settings.antt =====
-- internal/admin/service.go: `GetUploadSettings`, `UpdateUploadSettings` and the validation of the
-- settings.
pub mod Valid
use tempcdn.Prelude.{ℕ, Bool, true, false, Option, none, some, List, [], ◌∷◌, ◌++◌, if◌then◌else◌}
use tempcdn.Prelude.Int.{ℤ, pos, leb_ℤ, ltb_ℤ}
use tempcdn.Text.{Text, lit, is_empty, trim_space, has_prefix}
use tempcdn.Action.{Result, ok, err, Action, pure, raise, lift, wrap, ◌>>=◌, ◌>>◌}
use tempcdn.Metadata.Model.{Time, UploadSettings}
use tempcdn.Metadata.Tables.{AdminDb}
use tempcdn.Metadata.Settings.{get_upload_settings, update_upload_settings}
use tempcdn.Admin.Model.{
  SettingsError, size_not_positive, size_above_ceiling, no_mime_types, extension_without_dot,
  AdminError, invalid_upload_settings, repository,
}

abbrev pub max_upload_size_mb_ceiling : ℤ
max_upload_size_mb_ceiling = pos 10240

pub record UpdateUploadSettingsInput : Type 0 where
  pub max_upload_size_mb : ℤ
  pub allowed_mime_types : List Text
  pub blocked_extensions : List Text

unfoldable pub normalize_string_list : List Text → List Text
unfolding trim_space
normalize_string_list [] = []
normalize_string_list (v ∷ values) =
    let rest = normalize_string_list values in
    if is_empty (trim_space v) then rest else trim_space v ∷ rest

-- The loop over the extensions.
unfoldable pub check_extensions : List Text → Result SettingsError (Unit {0})
check_extensions [] = ok tt
check_extensions (e ∷ extensions) =
    if has_prefix e (lit ".") then check_extensions extensions else err (extension_without_dot e)

abbrev pub is_nil : List Text → Bool
is_nil [] = true
is_nil (t ∷ ts) = false

unfoldable pub validate_upload_settings :
    UpdateUploadSettingsInput → Result SettingsError UpdateUploadSettingsInput
validate_upload_settings i =
    if leb_ℤ i.max_upload_size_mb (pos 0)
    then err size_not_positive
    else if ltb_ℤ max_upload_size_mb_ceiling i.max_upload_size_mb
    then err size_above_ceiling
    else if is_nil (normalize_string_list i.allowed_mime_types)
    then err no_mime_types
    else elim (check_extensions (normalize_string_list i.blocked_extensions)) [
      | err e ↦ err e
      | ok _ ↦ ok (record {
        max_upload_size_mb = i.max_upload_size_mb;
        allowed_mime_types = normalize_string_list i.allowed_mime_types;
        blocked_extensions = normalize_string_list i.blocked_extensions;
      })
    ]

unfoldable pub get_settings : Action AdminDb AdminError UploadSettings
get_settings = wrap repository get_upload_settings

abbrev pub settings_of : UpdateUploadSettingsInput → Text → Time → UploadSettings
settings_of i admin_id now = record {
  max_upload_size_mb = i.max_upload_size_mb;
  allowed_mime_types = i.allowed_mime_types;
  blocked_extensions = i.blocked_extensions;
  updated_at = now;
  updated_by = some admin_id;
}

-- What is done with the answer of the validation.
unfoldable pub after_validation :
    Text
    → Time
    → Result SettingsError UpdateUploadSettingsInput
    → Action AdminDb AdminError UploadSettings
after_validation admin_id now (err e) = raise (invalid_upload_settings e)
after_validation admin_id now (ok i) = do
  wrap repository (update_upload_settings (settings_of i admin_id now) admin_id now)
  pure (settings_of i admin_id now)

unfoldable pub update_settings :
    Text → UpdateUploadSettingsInput → Time → Action AdminDb AdminError UploadSettings
update_settings admin_id i now = after_validation admin_id now (validate_upload_settings i)

-- ===== src/Upload/Synchronizer/Tests.antt =====
-- A change of the settings that another instance picks up.
use tempcdn.Prelude.{ℕ, ◌*◌, ◌≤◌, ◌≡◌, refl, none, some, [], ◌∷◌}
use tempcdn.Prelude.Int.{pos}
use tempcdn.Text.{lit, trim_left, trim_space, has_prefix}
use tempcdn.Action.{ok}
use tempcdn.Metadata.Model.{UploadSettings}
use tempcdn.Metadata.Conn.{run, query}
use tempcdn.Metadata.Tables.{AdminDb}
use tempcdn.Metadata.Settings.{update_upload_settings}
use tempcdn.Admin.Settings.{
  UpdateUploadSettingsInput, normalize_string_list, check_extensions, validate_upload_settings,
  settings_of, after_validation, update_settings,
}
use tempcdn.Admin.Settings.Valid.{normalized}
use tempcdn.Upload.Validator.{Rules}
use tempcdn.Upload.Synchronizer.{sync_once}
use tempcdn.Upload.Synchronizer.Agrees.{sync_once_of_update}

changes : Unit {0}
unfolding update_settings after_validation validate_upload_settings normalize_string_list
    check_extensions trim_space trim_left has_prefix update_upload_settings run query
changes = tt

abbrev input : UpdateUploadSettingsInput
input = record {
  max_upload_size_mb = pos 5;
  allowed_mime_types = lit " image/* " ∷ lit " " ∷ [];
  blocked_extensions = lit ".exe" ∷ [];
}

abbrev old_settings : UploadSettings
old_settings = record {
  max_upload_size_mb = pos 1;
  allowed_mime_types = lit "text/plain" ∷ [];
  blocked_extensions = [];
  updated_at = 1;
  updated_by = none;
}

abbrev db : AdminDb
db = record {
  tables = record {
    admins = [];
    sessions = [];
    api_keys = [];
    upload_settings = some old_settings;
    legal_documents = [];
  };
  outcomes = [];
}

abbrev old_rules : Rules
old_rules = record { max_size_bytes = pos 1; allowed_mime_types = []; blocked_extensions = [] }

abbrev new_settings : UploadSettings
unfolding changes
new_settings = settings_of (normalized input) (lit "1") 3

updated : (update_settings (lit "1") input 3 db).0 ≡ ok new_settings
unfolding changes
updated = refl

sync_once_of_update_example :
    (n : ℕ) × (1 ≤ n)
    × (pos 5 ≡ pos n)
    × ((sync_once (update_settings (lit "1") input 3 db).1 old_rules).0 ≡ record {
      max_size_bytes = pos (n * 1048576);
      allowed_mime_types = normalize_string_list input.allowed_mime_types;
      blocked_extensions = normalize_string_list input.blocked_extensions;
    })
unfolding changes
sync_once_of_update_example =
    sync_once_of_update (lit "1") input 3 db (update_settings (lit "1") input 3 db).1 new_settings
      old_rules updated tt refl

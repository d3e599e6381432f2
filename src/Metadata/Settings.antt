-- ===== src/Metadata/Settings.antt =====
-- internal/metadata/postgres_repository_uploadsettings.go: the statements on the one row of
-- `upload_settings`. The JSON columns hold lists of texts, which encoding and decoding keep.
use tempcdn.Prelude.{Bool, true, false, Option, none, some, if◌then◌else◌}
use tempcdn.Text.{Text}
use tempcdn.Action.{Action, pure, raise, wrap, or_raise, ◌>>=◌}
use tempcdn.Metadata.Model.{
  Time, stored_time, UploadSettings, Error, upload_settings_not_found, database,
}
use tempcdn.Metadata.Conn.{run, query}
use tempcdn.Metadata.Tables.{AdminDb}

unfoldable pub get_upload_settings : Action AdminDb Error UploadSettings
unfolding query
get_upload_settings = do
  row ← wrap database (query (λ t. t.upload_settings))
  or_raise row upload_settings_not_found

-- `ON CONFLICT (id) DO NOTHING`
abbrev pub seeded : UploadSettings → Option UploadSettings → Option UploadSettings
seeded s none = some (record s { updated_at = stored_time s.updated_at; updated_by = none })
seeded s (some old) = some old

unfoldable pub seed_upload_settings_if_missing : UploadSettings → Action AdminDb Error (Unit {0})
unfolding run
seed_upload_settings_if_missing s =
    wrap database (run (λ t. (tt, record t { upload_settings = seeded s t.upload_settings })))

-- False says that no row was affected.
abbrev pub update_settings_row :
    UploadSettings → Text → Time → Option UploadSettings → Bool × Option UploadSettings
update_settings_row s updated_by now none = (false, none)
update_settings_row s updated_by now (some old) =
    (true, some (record s { updated_at = stored_time now; updated_by = some updated_by }))

unfoldable pub update_upload_settings :
    UploadSettings → Text → Time → Action AdminDb Error (Unit {0})
unfolding run
update_upload_settings s updated_by now = do
  affected ← wrap database (
      run (λ t.
        let (b, row) = update_settings_row s updated_by now t.upload_settings in
        (b, record t { upload_settings = row })))
  if affected then pure tt else raise upload_settings_not_found

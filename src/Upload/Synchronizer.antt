-- ===== src/Upload/Synchronizer.antt =====
-- internal/upload/settings_synchronizer.go: one tick of the loop that brings the upload settings
-- from the database into the validator. `reflect.DeepEqual` of two slices is that of their texts: a
-- nil slice and an empty one differ for it, which changes only whether equal rules are stored again.
pub mod Agrees
mod Tests
use tempcdn.Prelude.{ℕ, ◌*◌, Bool, true, false, ◌&&◌, List, [], ◌∷◌, if◌then◌else◌}
use tempcdn.Prelude.Int.{ℤ, mul64, eqb_ℤ}
use tempcdn.Text.{Text, same}
use tempcdn.Action.{Result, ok, err}
use tempcdn.Metadata.Model.{UploadSettings, Error}
use tempcdn.Metadata.Tables.{AdminDb}
use tempcdn.Metadata.Settings.{get_upload_settings}
use tempcdn.Upload.Validator.{Rules, update}

unfoldable pub same_texts : List Text → List Text → Bool
same_texts [] [] = true
same_texts [] (t ∷ ts) = false
same_texts (s ∷ ss) [] = false
same_texts (s ∷ ss) (t ∷ ts) = same s t && same_texts ss ts

-- `settings.MaxUploadSizeMB * 1024 * 1024`
abbrev pub size_in_bytes : UploadSettings → ℤ
size_in_bytes s = mul64 (mul64 s.max_upload_size_mb 1024) 1024

-- What is done with the answer of `GetUploadSettings`.
unfoldable pub after_settings : Result Error UploadSettings → Rules → Rules
unfolding update
after_settings (err e) r = r
after_settings (ok s) r =
    if eqb_ℤ (size_in_bytes s) r.max_size_bytes
      && same_texts r.allowed_mime_types s.allowed_mime_types
      && same_texts r.blocked_extensions s.blocked_extensions
    then r
    else update (size_in_bytes s) s.allowed_mime_types s.blocked_extensions r

unfoldable pub sync_once : AdminDb → Rules → Rules × AdminDb
sync_once c r = let (answer, d) = get_upload_settings c in (after_settings answer r, d)

-- `Run`: no pass at the start, and one at every tick, each with the database as it finds it.
unfoldable pub run_synchronizer : List AdminDb → Rules → Rules
unfolding sync_once
run_synchronizer [] r = r
run_synchronizer (c ∷ ticks) r = run_synchronizer ticks (sync_once c r).0

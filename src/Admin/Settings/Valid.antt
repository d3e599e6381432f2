-- ===== src/Admin/Settings/Valid.antt =====
-- Which upload settings are accepted, and what is then stored.
use tempcdn.Prelude.{◌≡◌, ◌≢◌, ◌↔◌, ◌∙◌, ap, refl, true, some, List, [], ◌∷◌, arith, All, inl, inr}
use tempcdn.Prelude.Int.{pos, ◌≤ℤ◌}
use tempcdn.Text.{Text, lit, has_prefix}
use tempcdn.Action.{Result, ok, err, Result-cases}
use tempcdn.Metadata.Model.{Time, UploadSettings, stored_settings}
use tempcdn.Metadata.Tables.{AdminDb}
use tempcdn.Metadata.Settings.{update_upload_settings}
use tempcdn.Admin.Model.{SettingsError}
use tempcdn.Admin.Settings.{
  UpdateUploadSettingsInput, max_upload_size_mb_ceiling, normalize_string_list, check_extensions,
  validate_upload_settings, settings_of, after_validation, update_settings,
}

abbrev pub normalized : UpdateUploadSettingsInput → UpdateUploadSettingsInput
normalized i = record {
  max_upload_size_mb = i.max_upload_size_mb;
  allowed_mime_types = normalize_string_list i.allowed_mime_types;
  blocked_extensions = normalize_string_list i.blocked_extensions;
}

-- The size is from 1 to 10240 MB, a content type is allowed, and each extension begins with a dot.
pub record IsSound (i : UpdateUploadSettingsInput) : Type 0 where
  pub positive : pos 1 ≤ℤ i.max_upload_size_mb
  pub bounded : i.max_upload_size_mb ≤ℤ max_upload_size_mb_ceiling
  pub some_allowed : i.allowed_mime_types ≢ []
  pub dotted : All (λ e. has_prefix e (lit ".") ≡ true) i.blocked_extensions

check_extensions_iff :
    (extensions : List Text)
    → (check_extensions extensions ≡ ok tt) ↔ All (λ e. has_prefix e (lit ".") ≡ true) extensions
unfolding check_extensions
check_extensions_iff [] = ((λ h. tt), (λ h. refl))
check_extensions_iff (e ∷ extensions) = ground (arith, check_extensions_iff extensions)

-- Settings are accepted exactly if they are sound once their lists are normalized, and the normalized
-- settings are the result.
pub validate_upload_settings_iff :
    (i j : UpdateUploadSettingsInput)
    → (validate_upload_settings i ≡ ok j) ↔ ((j ≡ normalized i) × IsSound (normalized i))
unfolding validate_upload_settings
validate_upload_settings_iff i j = (sound, λ h. complete h.0 h.1)
  where
    sound : validate_upload_settings i ≡ ok j → (j ≡ normalized i) × IsSound (normalized i)
    sound h = elim (Result-cases (check_extensions (normalize_string_list i.blocked_extensions))) [
      | inl (u, q) ↦ (
        ground arith,
        record {
          positive = ground arith;
          bounded = ground arith;
          some_allowed = λ e. ground arith;
          dotted = (check_extensions_iff (normalize_string_list i.blocked_extensions)).0 q;
        },
      )
      | inr (e, q) ↦ absurd (ground arith)
    ]

    complete : j ≡ normalized i → IsSound (normalized i) → validate_upload_settings i ≡ ok j
    complete e s = ground (
      arith,
      s.positive,
      s.bounded,
      s.some_allowed,
      (check_extensions_iff (normalize_string_list i.blocked_extensions)).1 s.dotted,
    )

after_validation_lem :
    (admin_id : Text) (now : Time) (j : UpdateUploadSettingsInput) (c : AdminDb)
    (s : UploadSettings)
    → (after_validation admin_id now (ok j) c).0 ≡ ok s
    → (s ≡ settings_of j admin_id now)
      × ((after_validation admin_id now (ok j) c).1.tables.upload_settings
          ≡ some (stored_settings s))
unfolding after_validation update_upload_settings
after_validation_lem admin_id now j c s h = ground arith

-- Settings that were stored were sound once normalized, and the normalized settings stand in the table
-- with the time and the admin of the change.
pub update_settings-eq-ok :
    (admin_id : Text) (i : UpdateUploadSettingsInput) (now : Time) (c : AdminDb)
    (s : UploadSettings)
    → (update_settings admin_id i now c).0 ≡ ok s
    → IsSound (normalized i)
      × (s ≡ settings_of (normalized i) admin_id now)
      × ((update_settings admin_id i now c).1.tables.upload_settings ≡ some (stored_settings s))
unfolding update_settings after_validation
update_settings-eq-ok admin_id i now c s h = go (validate_upload_settings i) refl h
  where
    go :
        (v : Result SettingsError UpdateUploadSettingsInput)
        → validate_upload_settings i ≡ v
        → (after_validation admin_id now v c).0 ≡ ok s
        → IsSound (normalized i)
          × (s ≡ settings_of (normalized i) admin_id now)
          × ((after_validation admin_id now v c).1.tables.upload_settings
              ≡ some (stored_settings s))
    go (err e) q k = absurd (ground arith)
    go (ok j) q k =
        let (e, sound) = (validate_upload_settings_iff i j).0 q in
        let (a, b) = after_validation_lem admin_id now j c s k in
        (sound, a ∙ ap {B = UploadSettings} (λ x. settings_of x admin_id now) e, b)

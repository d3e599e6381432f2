-- ===== src/Server/Run/Sound.antt =====
-- The upload settings of an instance while it runs: those in the table, and those that the rules of
-- its validator stand for.
use tempcdn.Prelude.{◌≡◌, ◌⊎◌, ◌∙◌, ap, sym, inl, inr, refl, Option, some, none, arith}
use tempcdn.Text.{Text}
use tempcdn.Action.{Result, ok, err}
use tempcdn.Metadata.Model.{Time, UploadSettings, stored_settings, Error}
use tempcdn.Metadata.Tables.{AdminDb}
use tempcdn.Metadata.Settings.{get_upload_settings, update_upload_settings}
use tempcdn.Admin.Model.{AdminError, SettingsError, Platform}
use tempcdn.Admin.Sessions.{Session}
use tempcdn.Admin.Settings.{
  UpdateUploadSettingsInput, validate_upload_settings, settings_of, after_validation,
  update_settings,
}
use tempcdn.Admin.Settings.Valid.{
  IsSound, normalized, validate_upload_settings_iff, update_settings-eq-ok,
}
use tempcdn.Admin.Handler.{
  Decoder, State, with_settings, after_update, handle_update_upload_settings,
}
use tempcdn.Admin.Handler.Frame.{Keeps}
use tempcdn.Upload.Validator.{Rules}
use tempcdn.Upload.Synchronizer.{after_settings, sync_once}
use tempcdn.Upload.Synchronizer.Agrees.{rules_of, after_settings_lem}
use tempcdn.Http.{Request}
use tempcdn.Server.{settings_callback}

-- The fields that an admin chooses.
abbrev pub input_of : UploadSettings → UpdateUploadSettingsInput
input_of s = record {
  max_upload_size_mb = s.max_upload_size_mb;
  allowed_mime_types = s.allowed_mime_types;
  blocked_extensions = s.blocked_extensions;
}

-- The table holds sound settings, and the rules are those of sound settings.
pub record HasSoundSettings (a : State) : Type 0 where
  pub row : UploadSettings
  pub stored : a.db.tables.upload_settings ≡ some row
  pub row_sound : IsSound (input_of row)
  pub source : UploadSettings
  pub source_sound : IsSound (input_of source)
  pub followed : a.rules ≡ rules_of source

-- What leaves the settings and the rules alone keeps this.
pub Keeps-HasSoundSettings :
    {accounts keys documents : Type 0} (a b : State)
    → Keeps accounts keys (⊥) documents (⊥) a b
    → HasSoundSettings a
    → HasSoundSettings b
Keeps-HasSoundSettings a b k h = record {
  row = h.row;
  stored = ground (arith, k.upload_settings, h.stored);
  row_sound = h.row_sound;
  source = h.source;
  source_sound = h.source_sound;
  followed = ground (arith, k.same_rules, h.followed);
}

after_validation-table :
    (admin_id : Text) (now : Time) (j : UpdateUploadSettingsInput) (c : AdminDb)
    → ((after_validation admin_id now (ok j) c).1.tables.upload_settings ≡ c.tables.upload_settings)
      ⊎ ((after_validation admin_id now (ok j) c).1.tables.upload_settings
          ≡ some (stored_settings (settings_of j admin_id now)))
unfolding after_validation update_upload_settings
after_validation-table admin_id now j c = ground arith

-- A change of the settings leaves the row as it was, or makes it the normalized input, which then is
-- sound; whatever it answers.
update_settings-table :
    (admin_id : Text) (i : UpdateUploadSettingsInput) (now : Time) (c : AdminDb)
    → ((update_settings admin_id i now c).1.tables.upload_settings ≡ c.tables.upload_settings)
      ⊎ (IsSound (normalized i)
          × ((update_settings admin_id i now c).1.tables.upload_settings
              ≡ some (stored_settings (settings_of (normalized i) admin_id now))))
unfolding update_settings after_validation
update_settings-table admin_id i now c = go (validate_upload_settings i) refl
  where
    go :
        (v : Result SettingsError UpdateUploadSettingsInput)
        → validate_upload_settings i ≡ v
        → ((after_validation admin_id now v c).1.tables.upload_settings ≡ c.tables.upload_settings)
          ⊎ (IsSound (normalized i)
              × ((after_validation admin_id now v c).1.tables.upload_settings
                  ≡ some (stored_settings (settings_of (normalized i) admin_id now))))
    go (err e) q = inl refl
    go (ok j) q =
        let (e, sound) = (validate_upload_settings_iff i j).0 q in
        elim (after_validation-table admin_id now j c) [
          | inl same_row ↦ inl same_row
          | inr changed ↦
              inr (sound, changed ∙ ap (λ x. some (stored_settings (settings_of x admin_id now))) e)
        ]

module _ (p : Platform) (d : Decoder) where
  after_update-err :
      (e : AdminError) (db : AdminDb) (a : State)
      → (after_update p d (some settings_callback) (err e) db a).1
        ≡ record { db = db; rules = a.rules }
  unfolding after_update
  after_update-err e db a = ground arith

  after_update-HasSoundSettings :
      (admin_id : Text) (i : UpdateUploadSettingsInput) (now : Time) (a : State)
      → HasSoundSettings a
      → HasSoundSettings
          (let q = update_settings admin_id i now a.db in
            after_update p d (some settings_callback) q.0 q.1 a).1
  unfolding after_update settings_callback
  after_update-HasSoundSettings admin_id i now a h = go (update_settings admin_id i now a.db).0 refl
    where
      after : AdminDb
      after = (update_settings admin_id i now a.db).1

      go :
          (r : Result AdminError UploadSettings)
          → (update_settings admin_id i now a.db).0 ≡ r
          → HasSoundSettings (after_update p d (some settings_callback) r after a).1
      go (ok u) e =
          let (sound, same_settings, stored) = update_settings-eq-ok admin_id i now a.db u e in
          let u_sound : IsSound (input_of u) = rw same_settings sound in
          record {
            row = stored_settings u;
            stored = stored;
            row_sound = u_sound;
            source = u;
            source_sound = u_sound;
            followed = refl;
          }
      go (err x) e =
          rw (after_update-err x after a) (elim (update_settings-table admin_id i now a.db) [
            | inl same_row ↦ record {
              row = h.row;
              stored = same_row ∙ h.stored;
              row_sound = h.row_sound;
              source = h.source;
              source_sound = h.source_sound;
              followed = h.followed;
            }
            | inr (sound, changed) ↦ record {
              row = stored_settings (settings_of (normalized i) admin_id now);
              stored = changed;
              row_sound = sound;
              source = h.source;
              source_sound = h.source_sound;
              followed = h.followed;
            }
          ])

  -- The handler that changes the settings keeps it, whatever it answers.
  pub handle_update-HasSoundSettings :
      (r : Request) (a : State)
      → HasSoundSettings a
      → HasSoundSettings (handle_update_upload_settings p d (some settings_callback) r a).1
  unfolding handle_update_upload_settings
  handle_update-HasSoundSettings r a h = by_body (d.update_upload_settings_request r.body) r.session
    where
      by_body :
          (b : Option UpdateUploadSettingsInput) (session : Option Session)
          → HasSoundSettings (with_settings p d (some settings_callback) b session r a).1
      by_body none session = h
      by_body (some i) none = h
      by_body (some i) (some by) = after_update-HasSoundSettings by.admin.id i r.chance.now a h

get_upload_settings-eq-ok :
    (c : AdminDb) (s : UploadSettings)
    → (get_upload_settings c).0 ≡ ok s
    → c.tables.upload_settings ≡ some s
unfolding get_upload_settings
get_upload_settings-eq-ok c s h = ground arith

pub get_upload_settings-tables : (c : AdminDb) → (get_upload_settings c).1.tables ≡ c.tables
unfolding get_upload_settings
get_upload_settings-tables c = ground arith

some-injective : (s t : UploadSettings) → some s ≡ some t → s ≡ t
some-injective s t h = ground arith

unchanged : (x : Error) (r : Rules) → after_settings (err x) r ≡ r
unfolding after_settings
unchanged x r = refl

-- So does a tick of the synchronizer.
pub sync_once-HasSoundSettings :
    (a : State)
    → HasSoundSettings a
    → HasSoundSettings
        (record { db = (sync_once a.db a.rules).1; rules = (sync_once a.db a.rules).0 })
unfolding sync_once
sync_once-HasSoundSettings a h = go (get_upload_settings a.db).0 refl
  where
    after : AdminDb
    after = (get_upload_settings a.db).1

    same_row : after.tables.upload_settings ≡ some h.row
    same_row = ap (λ t. t.upload_settings) (get_upload_settings-tables a.db) ∙ h.stored

    go :
        (r : Result Error UploadSettings)
        → (get_upload_settings a.db).0 ≡ r
        → HasSoundSettings (record { db = after; rules = after_settings r a.rules })
    go (ok s) e =
        let same_settings : some s ≡ some h.row =
          sym (get_upload_settings-eq-ok a.db s e) ∙ h.stored in
        record {
          row = h.row;
          stored = same_row;
          row_sound = h.row_sound;
          source = s;
          source_sound = rw (some-injective s h.row same_settings) h.row_sound;
          followed = after_settings_lem s a.rules;
        }
    go (err x) e = record {
      row = h.row;
      stored = same_row;
      row_sound = h.row_sound;
      source = h.source;
      source_sound = h.source_sound;
      followed = unchanged x a.rules ∙ h.followed;
    }

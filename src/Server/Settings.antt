-- ===== src/Server/Settings.antt =====
-- A change of the upload settings, from the request to the rules of the validator.
use tempcdn.Prelude.{◌≡◌, ◌≢◌, refl, ap, ◌∙◌, some, none, Option, arith}
use tempcdn.Text.{Text}
use tempcdn.Action.{Result, ok, err}
use tempcdn.Metadata.Model.{UploadSettings, stored_settings}
use tempcdn.Metadata.Tables.{AdminDb}
use tempcdn.Admin.Model.{AdminError, Platform}
use tempcdn.Admin.Sessions.{Session, verify_session}
use tempcdn.Admin.Sessions.Valid.{IsValid, verify_session-IsValid}
use tempcdn.Admin.Access.{access_of, session_access}
use tempcdn.Admin.Settings.{UpdateUploadSettingsInput, settings_of, update_settings}
use tempcdn.Admin.Settings.Valid.{IsSound, normalized, update_settings-eq-ok}
use tempcdn.Admin.Handler.{
  Decoder, State, Reply, after_update, with_settings, handle_update_upload_settings,
}
use tempcdn.Http.{Request, Handler, Answer, Body, status_of}
use tempcdn.Http.Router.{extract_bearer_token, after_require}
use tempcdn.Server.{settings_callback, rules_of_settings, session_service}
use tempcdn.Http.Router as Router

module _ (p : Platform) (d : Decoder) where
  -- The handler of `PUT /upload-settings`, as the program registers it.
  abbrev pub update_handler : Handler State (Body Reply)
  update_handler =
      Router.require_admin_session (some (session_service p))
        (handle_update_upload_settings p d (some settings_callback))

  -- What a change that is reported as done has changed.
  pub record IsChanged (r : Request) (after : State) (s : Session) (i : UpdateUploadSettingsInput)
      : Type 0 where
    pub decoded : d.update_upload_settings_request r.body ≡ some i
    pub sound : IsSound (normalized i)
    pub stored :
        after.db.tables.upload_settings
        ≡ some (stored_settings (settings_of (normalized i) s.admin.id r.chance.now))
    pub at_once :
        after.rules ≡ rules_of_settings (settings_of (normalized i) s.admin.id r.chance.now)

  after_update-200 :
      (a : Result AdminError UploadSettings) (db : AdminDb) (st : State)
      → status_of (after_update p d (some settings_callback) a db st).0.events ≡ some 200
      → (u : UploadSettings) × (a ≡ ok u)
        × ((after_update p d (some settings_callback) a db st).1
            ≡ record { db = db; rules = rules_of_settings u })
  unfolding after_update status_of settings_callback
  after_update-200 (ok u) db st h = (u, refl, refl)
  after_update-200 (err e) db st h = absurd (ground arith)

  with_settings-200 :
      (o : Option UpdateUploadSettingsInput) (s : Session) (r : Request) (st : State)
      → d.update_upload_settings_request r.body ≡ o
      → status_of (with_settings p d (some settings_callback) o (some s) r st).0.events ≡ some 200
      → (i : UpdateUploadSettingsInput) × IsChanged r
          (with_settings p d (some settings_callback) o (some s) r st).1
          s
          i
  unfolding status_of
  with_settings-200 none s r st e h = absurd (ground arith)
  with_settings-200 (some i) s r st e h =
      let q : Result AdminError UploadSettings × AdminDb =
        update_settings s.admin.id i r.chance.now st.db in
      let (u, is_ok, after) = after_update-200 q.0 q.1 st h in
      let (sound, same_settings, stored) =
        update_settings-eq-ok s.admin.id i r.chance.now st.db u is_ok in
      (
        i,
        record {
          decoded = e;
          sound = sound;
          stored =
              ap (λ x. x.db.tables.upload_settings) after
              ∙ stored
              ∙ ap (λ x. some (stored_settings x)) same_settings;
          at_once = ap (λ x. x.rules) after ∙ ap rules_of_settings same_settings;
        },
      )

  refused :
      (next : Handler State (Body Reply)) (x : AdminError) (r : Request) (st : State)
      → status_of (after_require next r (access_of (err x), st)).0.events ≢ some 200
  unfolding after_require status_of
  refused next x r st h = ground arith

  -- A change of the upload settings that is answered with status 200 came with the token of a session
  -- that is valid, and with settings that are sound once normalized: these stand in the table with the
  -- admin of the session and the time to the microsecond, and the rules of this instance's validator are theirs at once.
  pub update_handler-200 :
      (r : Request) (st : State)
      → status_of (update_handler r st).0.events ≡ some 200
      → (s : Session) × (i : UpdateUploadSettingsInput) × IsValid p
          (extract_bearer_token r.header)
          r.chance.now
          st.db.tables
          s
        × IsChanged r (update_handler r st).1 s i
  unfolding session_service after_require Router.require_admin_session session_access
      handle_update_upload_settings
  update_handler-200 r st h = go (verify_session p token r.chance.now st.db).0 refl h
    where
      token : Text
      token = extract_bearer_token r.header

      verified : State
      verified = record { db = (verify_session p token r.chance.now st.db).1; rules = st.rules }

      served : Result AdminError Session → Answer (Body Reply) × State
      served a =
          after_require (handle_update_upload_settings p d (some settings_callback)) r
            (access_of a, verified)

      go :
          (a : Result AdminError Session)
          → (verify_session p token r.chance.now st.db).0 ≡ a
          → status_of (served a).0.events ≡ some 200
          → (s : Session) × (i : UpdateUploadSettingsInput) × IsValid p token r.chance.now
              st.db.tables s
            × IsChanged r (served a).1 s i
      go (ok s) e g =
          let (i, changed) =
            with_settings-200 (d.update_upload_settings_request r.body) s
              (record r { session = some s }) verified refl g in
          (
            s,
            i,
            verify_session-IsValid p token r.chance.now st.db s e,
            record {
              decoded = changed.decoded;
              sound = changed.sound;
              stored = changed.stored;
              at_once = changed.at_once;
            },
          )
      go (err x) e g =
          absurd
            (refused (handle_update_upload_settings p d (some settings_callback)) x r verified g)

-- ===== src/Server/Run/Always.antt =====
-- What holds of an instance for as long as it runs.
use tempcdn.Prelude.{
  ℕ, ◌*◌, ◌≤◌, ◌≢◌, ◌≡◌, ◌∙◌, refl, true, [], Option, some, In, All, All-In, arith,
}
use tempcdn.Prelude.Int.{ℤ, pos, negsuc, ◌≤ℤ◌}
use tempcdn.Text.{Text, lit, has_prefix}
use tempcdn.Config.{Config}
use tempcdn.Metadata.Model.{Time, UploadSettings, legal_doc_terms, legal_doc_privacy}
use tempcdn.Metadata.Tables.{AdminDb}
use tempcdn.Metadata.Admins.{delete_expired_admin_sessions}
use tempcdn.Admin.Model.{Platform}
use tempcdn.Admin.Sessions.{janitor_tick}
use tempcdn.Admin.Frame.{
  KeepsAll, session_access-KeepsAll, verify_credential-ButKeys, get_legal_document-KeepsAll,
}
use tempcdn.Admin.Access.{verify_api_key_or_admin_session}
use tempcdn.Admin.Handler.{
  Decoder, State, handle_get_terms, handle_update_terms, handle_get_privacy, handle_update_privacy,
}
use tempcdn.Admin.Handler.Frame.{
  Keeps, all-Keeps, keys-Keeps, login-Keeps, logout-Keeps, me-Keeps, create_api_key-Keeps,
  list_api_keys-Keeps, revoke_api_key-Keeps, get_upload_settings-Keeps, get_document-Keeps,
  update_document-Keeps,
}
use tempcdn.Upload.Validator.{Rules}
use tempcdn.Upload.Synchronizer.Agrees.{size_in_bytes-pos}
use tempcdn.Public.{serve_config, serve_nodes, serve_document, serve_terms, serve_privacy}
use tempcdn.Http.{Request}
use tempcdn.Http.Registry.{Registration}
use tempcdn.Http.Router.Table.Moves.{Moves, IsPreorder, Requires, Verifies}
use tempcdn.Http.Router.Table.Routes.{DepsMove, new_router-Moves}
use tempcdn.Server.{session_service, settings_callback}
use tempcdn.Server.Shared.{ServerState, ServerReply, admin_part}
use tempcdn.Server.Wiring.{
  Outside, admin_platform, upload_handler, file_info_handler, file_delete_handler, stats_handler,
  server_service, server_deps, server_router,
}
use tempcdn.Server.Wiring.Framed.{server_router-IsFramed}
use tempcdn.Server.Run.{
  Step, serves, sweeps, forgets, synchronizes, beats, marks, Steps, stop, next,
}
use tempcdn.Server.Run.Sound.{
  HasSoundSettings, Keeps-HasSoundSettings, handle_update-HasSoundSettings,
  sync_once-HasSoundSettings,
}

-- The settings and the rules are left alone.
abbrev Leaves : State → State → Type 0
Leaves = Keeps Unit Unit ⊥ Unit ⊥

module _ {S : Type 0} where
  -- The settings stay sound.
  abbrev StaysSound : Text → Text → ServerState S → ServerState S → Type 0
  StaysSound method pattern s t = HasSoundSettings (admin_part s) → HasSoundSettings (admin_part t)

  sound-IsPreorder : (method pattern : Text) → IsPreorder (StaysSound method pattern)
  sound-IsPreorder method pattern = record { here = λ s h. h; then = λ s t u a b h. b (a h) }

  left :
      (s : ServerState S) (b : State)
      → Leaves (admin_part s) b
      → HasSoundSettings (admin_part s)
      → HasSoundSettings b
  left s b = Keeps-HasSoundSettings (admin_part s) b

  left_all :
      (s : ServerState S) (db : AdminDb)
      → KeepsAll s.admin db
      → HasSoundSettings (admin_part s)
      → HasSoundSettings (record { db = db; rules = s.rules })
  left_all s db k =
      let b : State = record { db = db; rules = s.rules } in
      left s b (all-Keeps (admin_part s) b k refl)

pub document-KeepsAll :
    (doc_type : Text) (r : Request) (c : AdminDb) → KeepsAll c (serve_document doc_type r c).1
unfolding serve_document
document-KeepsAll doc_type r c = get_legal_document-KeepsAll doc_type c

pub janitor_tick-KeepsAll : (now : Time) (c : AdminDb) → KeepsAll c (janitor_tick now c)
unfolding janitor_tick delete_expired_admin_sessions
janitor_tick-KeepsAll now c = ground arith

module _ {S : Type 0} (o : Outside S) (cfg : Config) where
  required : (method pattern : Text) → Requires (StaysSound method pattern) (server_service o cfg)
  unfolding server_service session_service
  required method pattern token now s =
      left_all s _ (session_access-KeepsAll (admin_platform o cfg) token now s.admin)

  verified : Verifies (StaysSound (lit "*") (lit "/metrics")) (server_service o cfg)
  unfolding server_service session_service
  verified credential now later s =
      let p : Platform = admin_platform o cfg in
      let b : State = record {
        db = (verify_api_key_or_admin_session p credential now later s.admin).1;
        rules = s.rules;
      } in
      left s b (
        keys-Keeps tt (admin_part s) b (verify_credential-ButKeys p credential now later s.admin)
          refl)

  server_deps-StaysSound : DepsMove StaysSound (server_deps o cfg)
  unfolding server_deps serve_config serve_nodes serve_terms serve_privacy handle_get_terms
      handle_update_terms handle_get_privacy handle_update_privacy upload_handler file_info_handler
      file_delete_handler stats_handler
  server_deps-StaysSound =
      let p : Platform = admin_platform o cfg in
      let d : Decoder = o.decoder in
      let callback : Option (UploadSettings → Rules → Rules) = some settings_callback in
      record {
        upload_moves = λ r s h. h;
        file_info = λ r s h. h;
        file_deletion = λ r s h. h;
        metrics = λ r s h. h;
        config_serve_moves = λ r s h. h;
        stats_serve_moves = λ r s h. h;
        node_status_serve_moves = λ r s h. h;
        legal_terms_moves = λ r s. left_all s _ (document-KeepsAll legal_doc_terms r s.admin);
        legal_privacy_moves = λ r s. left_all s _ (document-KeepsAll legal_doc_privacy r s.admin);
        admin_login_moves = λ r s. left s _ (login-Keeps p d callback r (admin_part s) tt);
        admin_logout_moves = λ r s. left s _ (logout-Keeps p d callback r (admin_part s));
        admin_me_moves = λ r s. left s _ (me-Keeps p d callback r (admin_part s));
        create_api_key_moves =
            λ r s. left s _ (create_api_key-Keeps p d callback r (admin_part s) tt);
        list_api_keys_moves = λ r s. left s _ (list_api_keys-Keeps p d callback r (admin_part s));
        revoke_api_key_moves =
            λ r s. left s _ (revoke_api_key-Keeps p d callback r (admin_part s) tt);
        get_upload_settings_moves =
            λ r s. left s _ (get_upload_settings-Keeps p d callback r (admin_part s));
        update_upload_settings_moves = λ r s. handle_update-HasSoundSettings p d r (admin_part s);
        get_terms_moves =
            λ r s. left s _ (get_document-Keeps p d callback r (admin_part s) legal_doc_terms);
        update_terms_moves = λ r s.
            left s _ (update_document-Keeps p d callback r (admin_part s) tt legal_doc_terms);
        get_privacy_moves =
            λ r s. left s _ (get_document-Keeps p d callback r (admin_part s) legal_doc_privacy);
        update_privacy_moves = λ r s.
            left s _ (update_document-Keeps p d callback r (admin_part s) tt legal_doc_privacy);
      }

  request-StaysSound :
      (c : Registration (ServerState S) ServerReply) (r : Request) (s : ServerState S)
      → In c (server_router o cfg).calls
      → HasSoundSettings (admin_part s)
      → HasSoundSettings (admin_part (c.handler r s).1)
  unfolding server_router server_deps
  request-StaysSound c r s i =
      All-In (λ c. Moves (StaysSound c.method c.pattern) c.handler) c (server_router o cfg).calls
        (new_router-Moves StaysSound sound-IsPreorder (server_deps o cfg) (server_service o cfg)
          refl required verified server_deps-StaysSound)
        i r s

  Step-StaysSound :
      (s t : ServerState S)
      → Step o cfg s t
      → HasSoundSettings (admin_part s)
      → HasSoundSettings (admin_part t)
  Step-StaysSound s _ (serves c r i) h = request-StaysSound c r s i h
  Step-StaysSound s _ (sweeps locked now) h = h
  Step-StaysSound s _ (forgets now) h = left_all s _ (janitor_tick-KeepsAll now s.admin) h
  Step-StaysSound s _ synchronizes h = sync_once-HasSoundSettings (admin_part s) h
  Step-StaysSound s _ (beats r now) h = h
  Step-StaysSound s _ (marks stale_after now) h = h

  Step-limiter : (s t : ServerState S) → Step o cfg s t → t.limiter ≡ s.limiter
  Step-limiter s _ (serves c r i) = (server_router-IsFramed o cfg c r s i).limiter
  Step-limiter s _ (sweeps locked now) = refl
  Step-limiter s _ (forgets now) = refl
  Step-limiter s _ synchronizes = refl
  Step-limiter s _ (beats r now) = refl
  Step-limiter s _ (marks stale_after now) = refl

  Steps-StaysSound :
      {s t : ServerState S}
      → Steps o cfg s t
      → HasSoundSettings (admin_part s)
      → HasSoundSettings (admin_part t)
  Steps-StaysSound stop h = h
  Steps-StaysSound (next {s} {t} step steps) h = Steps-StaysSound steps (Step-StaysSound s t step h)

  Steps-limiter : {s t : ServerState S} → Steps o cfg s t → t.limiter ≡ s.limiter
  Steps-limiter stop = refl
  Steps-limiter (next {s} {t} step steps) = Steps-limiter steps ∙ Step-limiter s t step

-- Rules that accept uploads: a content type is allowed, the blocked extensions begin with a dot, and
-- the limit is the exact number of bytes of 1 to 10240 megabytes.
pub record IsWorkable (r : Rules) : Type 0 where
  pub some_allowed : r.allowed_mime_types ≢ []
  pub dotted : All (λ e. has_prefix e (lit ".") ≡ true) r.blocked_extensions
  pub megabytes : ℕ
  pub at_least : 1 ≤ megabytes
  pub at_most : megabytes ≤ 10240
  pub limit : r.max_size_bytes ≡ pos (megabytes * 1048576)

HasSoundSettings-IsWorkable : (a : State) → HasSoundSettings a → IsWorkable a.rules
HasSoundSettings-IsWorkable a h =
    let (n, low, high, e) =
      in_range h.source.max_upload_size_mb h.source_sound.positive h.source_sound.bounded in
    rw h.followed (record {
      some_allowed = h.source_sound.some_allowed;
      dotted = h.source_sound.dotted;
      megabytes = n;
      at_least = low;
      at_most = high;
      limit = rw (e, size_in_bytes-pos n high) refl;
    })
  where
    in_range : (z : ℤ) → pos 1 ≤ℤ z → z ≤ℤ pos 10240 → (n : ℕ) × (1 ≤ n) × (n ≤ 10240) × (z ≡ pos n)
    in_range (pos n) low high = (n, omega arith, omega arith, refl)
    in_range (negsuc n) low high = absurd (omega arith)

module _ {S : Type 0} (o : Outside S) (cfg : Config) where
  -- Let an instance have sound settings in its table and the rules of sound settings in its validator.
  -- Whatever requests it serves and whatever its loops do, in any order and however the database
  -- answers, this stays so: its limit is always the exact number of bytes of 1 to 10240 megabytes, a
  -- content type is allowed, and between two requests every place of the limiter is given back.
  pub Steps-IsWorkable :
      (s t : ServerState S)
      → Steps o cfg s t
      → HasSoundSettings (admin_part s)
      → HasSoundSettings (admin_part t) × IsWorkable t.rules × (t.limiter ≡ s.limiter)
  Steps-IsWorkable s t steps h =
      let sound = Steps-StaysSound o cfg steps h in
      (sound, HasSoundSettings-IsWorkable (admin_part t) sound, Steps-limiter o cfg steps)

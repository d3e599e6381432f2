-- ===== src/Admin/Sessions/Logout.antt =====
-- What a logout does to the session's token.
use tempcdn.Prelude.{◌≡◌, ◌≢◌, refl, none, some, [], ◌∷◌, ◌∙◌, sym, arith}
use tempcdn.Text.{Text}
use tempcdn.Action.{ok}
use tempcdn.Action.Keeps.{wrap-eq-ok}
use tempcdn.IdGen.{hash_session_token}
use tempcdn.Metadata.Model.{Time}
use tempcdn.Metadata.Sql.{first_where}
use tempcdn.Metadata.Tables.{AdminDb}
use tempcdn.Metadata.Admins.{has_token, delete_admin_session}
use tempcdn.Metadata.Admins.Effects.{delete_admin_session-eq-ok, first_where_without}
use tempcdn.Admin.Model.{repository, Platform}
use tempcdn.Admin.Sessions.{Session, verify_session, logout}
use tempcdn.Admin.Sessions.Valid.{verify_session-IsValid}

module _ (p : Platform) where
  logout-stored :
      (token : Text) (c : AdminDb) (u : Unit {0})
      → token ≢ []
      → (logout p token c).0 ≡ ok u
      → first_where
          (has_token (hash_session_token p.sha256_hex token))
          (logout p token c).1.tables.sessions
        ≡ none
  unfolding logout
  logout-stored [] c u ne h = absurd (ne refl)
  logout-stored (t ∷ ts) c u ne h =
      let k = hash_session_token p.sha256_hex (t ∷ ts) in
      rw (delete_admin_session-eq-ok k c u (wrap-eq-ok repository (delete_admin_session k) c u h))
        (first_where_without k c.tables.sessions)

  -- A token is never accepted again while the sessions are as a logout with it that reported no error
  -- left them, at whatever time and however the database answers.
  pub verify_session_of_logout :
      (token : Text) (now : Time) (c d : AdminDb) (u : Unit {0}) (s : Session)
      → (logout p token c).0 ≡ ok u
      → d.tables.sessions ≡ (logout p token c).1.tables.sessions
      → (verify_session p token now d).0 ≢ ok s
  verify_session_of_logout token now c d u s h e k =
      let v = verify_session-IsValid p token now d s k in
      let gone = logout-stored token c u v.given h in
      let l : some s.session ≡ none = sym v.stored ∙ rw e gone in ground arith

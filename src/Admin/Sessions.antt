-- ===== src/Admin/Sessions.antt =====
-- internal/admin/service.go: `Login`, `VerifySession` and `Logout`, and the pass of
-- internal/admin/janitor.go. What the clock and the random source answer are arguments.
pub mod Valid
pub mod Login
pub mod Logout
use tempcdn.Prelude.{
  ℕ, ◌+◌, ◌*◌, Bool, true, false, not, ◌&&◌, ◌||◌, Option, none, some, List, [], ◌∷◌, ◌++◌,
  if◌then◌else◌,
}
use tempcdn.Text.{Text, lit, is_empty, trim_space}
use tempcdn.Action.{Result, ok, err, Action, pure, raise, attempt, wrap, ◌>>=◌, ◌>>◌}
use tempcdn.IdGen.{hash_session_token}
use tempcdn.Metadata.Model.{
  Time, hour, Admin, AdminSession, session_is_expired, Error, admin_not_found,
  admin_session_not_found,
}
use tempcdn.Metadata.Tables.{AdminDb}
use tempcdn.Metadata.Admins.{
  find_admin_by_username, find_admin_by_id, touch_admin_last_login, insert_admin_session,
  find_admin_session_by_token_hash, touch_admin_session, delete_admin_session,
  delete_expired_admin_sessions,
}
use tempcdn.Admin.Model.{
  AdminError, invalid_credentials, session_invalid, token_generation, repository, Platform,
}

abbrev pub session_ttl : ℕ
session_ttl = 24 * hour

abbrev pub dummy_password_hash : Text
dummy_password_hash = lit "$2a$12$CwTycUXWue0Thq9StjUM0uJ8p1M4gk1EYr9y7Wz4qOfNaqCzWn9E."

pub record Session : Type 0 where
  pub admin : Admin
  pub session : AdminSession

pub record LoginResult : Type 0 where
  pub token : Text
  pub admin : Admin
  pub session : AdminSession

module _ (p : Platform) where
  abbrev pub new_session : Text → Time → Admin → AdminSession
  new_session token now acct = record {
    token_hash = hash_session_token p.sha256_hex token;
    admin_id = acct.id;
    created_at = now;
    expires_at = now + session_ttl;
    last_used_at = now;
  }

  -- From the new token to the end of `Login`.
  unfoldable pub start_session : Option Text → Time → Admin → Action AdminDb AdminError LoginResult
  start_session none now acct = raise token_generation
  start_session (some token) now acct = do
    wrap repository (insert_admin_session (new_session token now acct))
    wrap repository (touch_admin_last_login acct.id now)
    pure (record { token = token; admin = acct; session = new_session token now acct })

  -- The comparison of the password, with the dummy hash where there is no account.
  abbrev pub check_password :
      Text → Option Text → Time → Option Admin → Action AdminDb AdminError LoginResult
  check_password password token now none =
      if p.password_matches dummy_password_hash password
      then raise invalid_credentials
      else raise invalid_credentials
  check_password password token now (some acct) =
      if p.password_matches acct.password_hash password
      then start_session token now acct
      else raise invalid_credentials

  -- What is done with the answer of `FindAdminByUsername`.
  unfoldable pub after_account :
      Text → Option Text → Time → Result Error Admin → Action AdminDb AdminError LoginResult
  after_account password token now (ok acct) = check_password password token now (some acct)
  after_account password token now (err admin_not_found) = check_password password token now none
  after_account password token now (err e) = raise (repository e)

  unfoldable pub login : Text → Text → Option Text → Time → Action AdminDb AdminError LoginResult
  unfolding trim_space
  login username password token now =
      if is_empty (trim_space username) || is_empty password then raise invalid_credentials else do
        account ← attempt (find_admin_by_username (trim_space username))
        after_account password token now account

  -- A session that is no longer valid is deleted; the error of that deletion is ignored.
  unfoldable pub forget_session : Text → Action AdminDb AdminError Session
  forget_session token_hash = do
    _ ← attempt (delete_admin_session token_hash)
    raise session_invalid

  -- What is done with the answer of `FindAdminByID`.
  unfoldable pub after_admin :
      Text → Time → AdminSession → Result Error Admin → Action AdminDb AdminError Session
  after_admin token_hash now session (ok admin) = do
    wrap repository (touch_admin_session token_hash now)
    pure (record { admin = admin; session = session })
  after_admin token_hash now session (err admin_not_found) = forget_session token_hash
  after_admin token_hash now session (err e) = raise (repository e)

  unfoldable pub with_session : Text → Time → AdminSession → Action AdminDb AdminError Session
  unfolding session_is_expired
  with_session token_hash now session =
      if session_is_expired session now then forget_session token_hash else do
        admin ← attempt (find_admin_by_id session.admin_id)
        after_admin token_hash now session admin

  -- What is done with the answer of `FindAdminSessionByTokenHash`.
  unfoldable pub after_session :
      Text → Time → Result Error AdminSession → Action AdminDb AdminError Session
  after_session token_hash now (ok session) = with_session token_hash now session
  after_session token_hash now (err admin_session_not_found) = raise session_invalid
  after_session token_hash now (err e) = raise (repository e)

  unfoldable pub verify_session : Text → Time → Action AdminDb AdminError Session
  verify_session token now = if is_empty token then raise session_invalid else do
    found ← attempt (find_admin_session_by_token_hash (hash_session_token p.sha256_hex token))
    after_session (hash_session_token p.sha256_hex token) now found

  unfoldable pub logout : Text → Action AdminDb AdminError (Unit {0})
  logout token =
      if is_empty token
      then pure tt
      else wrap repository (delete_admin_session (hash_session_token p.sha256_hex token))

-- One tick of `SessionJanitor.Run`; an error is only logged.
unfoldable pub janitor_tick : Time → AdminDb → AdminDb
janitor_tick now c = (delete_expired_admin_sessions now c).1

-- `SessionJanitor.Run`: no pass at the start, and one at every tick.
unfoldable pub run_session_janitor : List Time → AdminDb → AdminDb
unfolding janitor_tick
run_session_janitor [] c = c
run_session_janitor (now ∷ times) c = run_session_janitor times (janitor_tick now c)

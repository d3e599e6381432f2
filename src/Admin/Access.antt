-- ===== src/Admin/Access.antt =====
-- internal/admin/middleware.go: who may see the metrics, and who the admin API.
pub mod Sound
use tempcdn.Prelude.{Bool, true, false, if◌then◌else◌}
use tempcdn.Text.{Text, is_empty}
use tempcdn.Action.{Result, ok, err}
use tempcdn.Metadata.Model.{Time, ApiKey}
use tempcdn.Metadata.Tables.{AdminDb}
use tempcdn.Admin.Model.{AdminError, session_invalid, Platform}
use tempcdn.Admin.Sessions.{Session, verify_session}
use tempcdn.Admin.Keys.{verify_api_key}

-- What `RequireAdminSession` does with a request: the next handler gets the session, or the
-- response has this status.
pub data Access : Type 0 where
  admitted : Session → Access
  unauthorized internal_error : Access

abbrev pub access_of : Result AdminError Session → Access
access_of (ok s) = admitted s
access_of (err session_invalid) = unauthorized
access_of (err e) = internal_error

module _ (p : Platform) where
  unfoldable pub session_access : Text → Time → AdminDb → Access × AdminDb
  session_access token now c =
      let (answer, d) = verify_session p token now c in (access_of answer, d)

  abbrev pub after_verify_key : Result AdminError ApiKey × AdminDb → Bool × AdminDb
  after_verify_key (ok k, c) = (true, c)
  after_verify_key (err e, c) = (false, c)

  abbrev pub after_verify_session :
      Text → Time → Result AdminError Session × AdminDb → Bool × AdminDb
  after_verify_session credential now (ok s, c) = (true, c)
  after_verify_session credential now (err e, c) =
      after_verify_key (verify_api_key p credential now c)

  -- `now` is read by each verification; the first reads it before the second.
  unfoldable pub verify_api_key_or_admin_session : Text → Time → Time → AdminDb → Bool × AdminDb
  verify_api_key_or_admin_session credential now later c =
      if is_empty credential
      then (false, c)
      else after_verify_session credential later (verify_session p credential now c)

-- ===== src/Http/Router.antt =====
-- internal/httpserver/router.go, and `RequireAdminSession` and `extractBearerToken` of
-- internal/admin. The router of github.com/go-chi/chi is outside: `new_router` gives the calls that
-- the program makes of it, with the pattern of a `Route` before those of the calls inside it.
pub mod Table
use tempcdn.Prelude.{
  ◌&&◌, Bool, true, false, Option, none, some, List, [], ◌∷◌, ◌++◌, length, drop, take, ltb, map,
  if◌then◌else◌,
}
use tempcdn.Text.{Text, lit, same, is_empty, has_prefix}
use tempcdn.Metadata.Model.{Time}
use tempcdn.Admin.Access.{Access, admitted, unauthorized, internal_error}
use tempcdn.Http.{
  Request, set_header, write_header, write, Answer, Handler, Middleware, Body, text_body, error,
  returned, method_options,
}
use tempcdn.Http.Middleware.{recovery, request_logging, cors, noop_handler}
use tempcdn.Http.Registry.{new_route_registry, Registration, Endpoint, wrapped, route_all}

abbrev pub method_get : Text
method_get = lit "GET"

abbrev pub method_head : Text
method_head = lit "HEAD"

abbrev pub method_post : Text
method_post = lit "POST"

abbrev pub method_put : Text
method_put = lit "PUT"

abbrev pub method_delete : Text
method_delete = lit "DELETE"

abbrev pub bearer : Text
bearer = lit "Bearer "

-- `extractBearerToken` of internal/admin/handler.go
unfoldable pub extract_bearer_token : (Text → Text) → Text
extract_bearer_token header =
    let auth : Text = header (lit "Authorization") in
    if ltb (length bearer) (length auth) && same (take (length bearer) auth) bearer
    then drop (length bearer) auth
    else []

unfoldable pub extract_bearer_or_header_token : (Text → Text) → Text
extract_bearer_or_header_token header =
    if is_empty (header (lit "X-Metrics-Token"))
    then if has_prefix (header (lit "Authorization")) bearer
      then drop (length bearer) (header (lit "Authorization"))
      else []
    else header (lit "X-Metrics-Token")

-- What the router needs of `admin.Service`, over the state of the server: what becomes of a request
-- with a session token, and whether a credential opens the metrics.
pub record AdminService (S : Type 0) : Type 0 where
  pub require_session : Text → Time → S → Access × S
  pub verify_credential : Text → Time → Time → S → Bool × S

pub record RouterDependencies (S P : Type 0) : Type 0 where
  pub upload_serve : Handler S (Body P)
  pub file_get_info : Handler S (Body P)
  pub file_delete : Handler S (Body P)
  pub config_serve : Handler S (Body P)
  pub stats_serve : Handler S (Body P)
  pub node_status_serve : Handler S (Body P)
  pub legal_terms : Handler S (Body P)
  pub legal_privacy : Handler S (Body P)
  pub metrics_serve : Handler S (Body P)
  pub admin_login : Handler S (Body P)
  pub admin_logout : Handler S (Body P)
  pub admin_me : Handler S (Body P)
  pub admin_create_api_key : Handler S (Body P)
  pub admin_list_api_keys : Handler S (Body P)
  pub admin_revoke_api_key : Handler S (Body P)
  pub admin_get_upload_settings : Handler S (Body P)
  pub admin_update_upload_settings : Handler S (Body P)
  pub admin_get_terms : Handler S (Body P)
  pub admin_update_terms : Handler S (Body P)
  pub admin_get_privacy : Handler S (Body P)
  pub admin_update_privacy : Handler S (Body P)
  pub admin_service : Option (AdminService S)
  pub allowed_origin : Text
  pub timed : Bool

module _ {S P : Type 0} where
  -- What `RequireAdminSession` does with the answer of the verification.
  unfoldable pub after_require : Handler S (Body P) → Request → Access × S → Answer (Body P) × S
  after_require next r (admitted session, s) = next (record r { session = some session }) s
  after_require next r (unauthorized, s) =
      (returned (error 401 (lit "missing or invalid session token")), s)
  after_require next r (internal_error, s) =
      (returned (error 500 (lit "failed to verify session")), s)

  -- A call of a method of a nil service, which dereferences it unless the token is empty.
  abbrev pub without_service : Text → S → Answer (Body P) × S
  without_service token s =
      if is_empty token
      then (returned (error 401 (lit "missing or invalid session token")), s)
      else (record { events = []; entries = []; panicked = true }, s)

  unfoldable pub require_admin_session : Option (AdminService S) → Middleware S (Body P)
  unfolding after_require extract_bearer_token
  require_admin_session none next r s = without_service (extract_bearer_token r.header) s
  require_admin_session (some service) next r s =
      after_require next r (service.require_session (extract_bearer_token r.header) r.chance.now s)

  -- What `metricsAuth` does with the answer of the verification.
  abbrev pub after_metrics : Handler S (Body P) → Request → Bool × S → Answer (Body P) × S
  after_metrics next r (true, s) = next r s
  after_metrics next r (false, s) =
      (returned (error 401 (lit "missing or invalid metrics credentials")), s)

  unfoldable pub metrics_auth : Option (AdminService S) → Middleware S (Body P)
  unfolding extract_bearer_or_header_token
  metrics_auth none next = next
  metrics_auth (some service) next = λ r s. after_metrics next r (
      service.verify_credential (extract_bearer_or_header_token r.header) r.chance.now
        r.chance.later s)

  abbrev pub handle_health_check : Handler S (Body P)
  handle_health_check r s = (
    returned (
        set_header (lit "Content-Type") (lit "application/json")
        ∷ write_header 200
        ∷ write (text_body (lit "{\"status\":\"ok\"}"))
        ∷ []),
    s,
  )

  abbrev pub handle_health_check_head : Handler S (Body P)
  handle_health_check_head r s = (
    returned (set_header (lit "Content-Type") (lit "application/json") ∷ write_header 200 ∷ []),
    s,
  )

  unfoldable pub file_preflight_cors :
      Middleware S (Body P) → Middleware S (Body P) → Middleware S (Body P)
  file_preflight_cors get_cors delete_cors next r s =
      if same (r.header (lit "Access-Control-Request-Method")) method_delete
      then delete_cors next r s
      else get_cors next r s

-- ===== src/Http/Router/Table.antt =====
-- internal/httpserver/router.go: `NewRouter`, the table of the server's routes.
pub mod Covered
pub mod Guards
pub mod Moves
pub mod Routes
use tempcdn.Prelude.{Bool, Option, List, [], ◌∷◌, ◌++◌, map}
use tempcdn.Text.{Text, lit}
use tempcdn.Http.{Handler, Middleware, Body, method_options}
use tempcdn.Http.Middleware.{recovery, request_logging, cors, noop_handler}
use tempcdn.Http.Registry.{
  new_route_registry, RouteRegistry, Registration, Endpoint, wrapped, route_all,
}
use tempcdn.Http.Router.{
  RouterDependencies, AdminService, method_get, method_head, method_post, method_put, method_delete,
  require_admin_session, metrics_auth, handle_health_check, handle_health_check_head,
  file_preflight_cors,
}

-- `Handle` registers a handler for every method.
abbrev pub every_method : Text
every_method = lit "*"

module _ {S P : Type 0} where
  -- `Route(prefix, ...)`: the calls inside are for patterns behind the prefix.
  abbrev pub below : Text → List (Registration S P) → List (Registration S P)
  below prefix [] = []
  below prefix (c ∷ calls) = record c { pattern = prefix ++ c.pattern } ∷ below prefix calls

  abbrev pub endpoint :
      Text → Text → Handler S (Body P) → List (Middleware S (Body P)) → Endpoint S P
  endpoint method pattern handler extra = record {
    method = method;
    pattern = pattern;
    handler = handler;
    extra_middleware = extra;
  }

  abbrev pub registration : Text → Text → Handler S (Body P) → Registration S P
  registration method pattern handler = record {
    method = method;
    pattern = pattern;
    handler = handler;
  }

-- The router: the middleware of `Use`, around every handler, and the calls that register.
pub record Router (S P : Type 0) : Type 0 where
  pub middlewares : List (Middleware S (Body P))
  pub calls : List (Registration S P)

module _ {S P : Type 0} (deps : RouterDependencies S P) where
  abbrev pub origin : Text
  origin = deps.allowed_origin

  abbrev pub require_admin : Middleware S (Body P)
  require_admin = require_admin_session deps.admin_service

  unfoldable pub root_calls : List (Registration S P)
  unfolding wrapped metrics_auth
  root_calls =
      let health_cors : Middleware S (Body P) = cors origin (lit "GET, HEAD, OPTIONS") in
      let metrics_cors : Middleware S (Body P) = cors origin (lit "GET, OPTIONS") in
      registration method_get (lit "/healthz") (wrapped (health_cors ∷ []) handle_health_check)
      ∷ registration method_head (lit "/healthz")
          (wrapped (health_cors ∷ []) handle_health_check_head)
      ∷ registration method_options (lit "/healthz") (health_cors noop_handler)
      ∷ registration every_method (lit "/metrics")
          (wrapped (metrics_cors ∷ metrics_auth deps.admin_service ∷ []) deps.metrics_serve)
      ∷ registration method_options (lit "/metrics") (metrics_cors noop_handler)
      ∷ []

  unfoldable pub file_calls : List (Registration S P)
  unfolding wrapped file_preflight_cors
  file_calls =
      let file_get_cors : Middleware S (Body P) = cors (lit "*") (lit "GET, OPTIONS") in
      let file_delete_cors : Middleware S (Body P) = cors origin (lit "DELETE, OPTIONS") in
      registration method_get (lit "/files/{id}") (wrapped (file_get_cors ∷ []) deps.file_get_info)
      ∷ registration method_delete (lit "/files/{id}")
          (wrapped (file_delete_cors ∷ []) deps.file_delete)
      ∷ registration method_options (lit "/files/{id}")
          (file_preflight_cors file_get_cors file_delete_cors noop_handler)
      ∷ []

  unfoldable pub public_endpoints : List (Endpoint S P)
  public_endpoints =
      endpoint method_get (lit "/config") deps.config_serve []
      ∷ endpoint method_get (lit "/stats") deps.stats_serve []
      ∷ endpoint method_get (lit "/nodes") deps.node_status_serve []
      ∷ endpoint method_get (lit "/legal/terms") deps.legal_terms []
      ∷ endpoint method_get (lit "/legal/privacy") deps.legal_privacy []
      ∷ []

  unfoldable pub admin_endpoints : List (Endpoint S P)
  admin_endpoints =
      endpoint method_post (lit "/login") deps.admin_login []
      ∷ endpoint method_post (lit "/logout") deps.admin_logout (require_admin ∷ [])
      ∷ endpoint method_get (lit "/me") deps.admin_me (require_admin ∷ [])
      ∷ endpoint method_post (lit "/api-keys") deps.admin_create_api_key (require_admin ∷ [])
      ∷ endpoint method_get (lit "/api-keys") deps.admin_list_api_keys (require_admin ∷ [])
      ∷ endpoint method_delete (lit "/api-keys/{id}") deps.admin_revoke_api_key (require_admin ∷ [])
      ∷ endpoint method_get (lit "/upload-settings") deps.admin_get_upload_settings
          (require_admin ∷ [])
      ∷ endpoint method_put (lit "/upload-settings") deps.admin_update_upload_settings
          (require_admin ∷ [])
      ∷ endpoint method_get (lit "/legal/terms") deps.admin_get_terms (require_admin ∷ [])
      ∷ endpoint method_put (lit "/legal/terms") deps.admin_update_terms (require_admin ∷ [])
      ∷ endpoint method_get (lit "/legal/privacy") deps.admin_get_privacy (require_admin ∷ [])
      ∷ endpoint method_put (lit "/legal/privacy") deps.admin_update_privacy (require_admin ∷ [])
      ∷ []

  -- The calls inside `Route("/admin", ...)`.
  unfoldable pub admin_calls : List (Registration S P)
  unfolding route_all admin_endpoints
  admin_calls = (route_all origin admin_endpoints (new_route_registry, [])).1

  -- The calls inside `Route("/api/v1", ...)`; the registry goes on through them.
  unfoldable pub api_calls : List (Registration S P)
  unfolding route_all public_endpoints file_calls admin_calls
  api_calls =
      let (reg, calls) =
        route_all origin (endpoint method_post (lit "/upload") deps.upload_serve [] ∷ [])
          (new_route_registry, []) in
      (route_all origin public_endpoints (reg, calls ++ file_calls)).1
      ++ below (lit "/admin") admin_calls

  unfoldable pub new_router : Router S P
  unfolding recovery request_logging root_calls api_calls
  new_router = record {
    middlewares = recovery ∷ request_logging deps.timed ∷ [];
    calls = root_calls ++ below (lit "/api/v1") api_calls;
  }

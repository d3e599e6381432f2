-- ===== src/Http/Router/Table/Routes.antt =====
-- The rule for all routes: from the handlers of the dependencies to those that are registered.
use tempcdn.Prelude.{◌≡◌, some, List, [], ◌∷◌, ◌++◌, All, All-append}
use tempcdn.Text.{Text, lit}
use tempcdn.Http.{Handler, Body}
use tempcdn.Http.Middleware.{cors, noop_handler}
use tempcdn.Http.Registry.{
  Registration, RouteRegistry, wrapped, preflight, route_all, new_route_registry,
}
use tempcdn.Http.Router.{
  AdminService, RouterDependencies, handle_health_check, handle_health_check_head, method_post,
}
use tempcdn.Http.Router.Table.{
  below, endpoint, new_router, root_calls, file_calls, api_calls, admin_calls, admin_endpoints,
  public_endpoints, require_admin,
}
use tempcdn.Http.Router.Table.Covered.{route_all-All, All-below}
use tempcdn.Http.Router.Table.Moves.{
  Moves, IsPreorder, Requires, Verifies, cors-Moves, noop-Moves, require-Moves, metrics-Moves,
  file_preflight-Moves,
}

module _ {S P : Type 0} where
  -- What each handler may do, by the method and the pattern that it serves.
  pub record DepsMove (R : Text → Text → S → S → Type 0) (deps : RouterDependencies S P)
      : Type 0 where
    pub upload_moves : Moves (R (lit "POST") (lit "/api/v1/upload")) deps.upload_serve
    pub file_info : Moves (R (lit "GET") (lit "/api/v1/files/{id}")) deps.file_get_info
    pub file_deletion : Moves (R (lit "DELETE") (lit "/api/v1/files/{id}")) deps.file_delete
    pub metrics : Moves (R (lit "*") (lit "/metrics")) deps.metrics_serve
    pub config_serve_moves : Moves (R (lit "GET") (lit "/api/v1/config")) deps.config_serve
    pub stats_serve_moves : Moves (R (lit "GET") (lit "/api/v1/stats")) deps.stats_serve
    pub node_status_serve_moves : Moves (R (lit "GET") (lit "/api/v1/nodes")) deps.node_status_serve
    pub legal_terms_moves : Moves (R (lit "GET") (lit "/api/v1/legal/terms")) deps.legal_terms
    pub legal_privacy_moves : Moves (R (lit "GET") (lit "/api/v1/legal/privacy")) deps.legal_privacy
    pub admin_login_moves : Moves (R (lit "POST") (lit "/api/v1/admin/login")) deps.admin_login
    pub admin_logout_moves : Moves (R (lit "POST") (lit "/api/v1/admin/logout")) deps.admin_logout
    pub admin_me_moves : Moves (R (lit "GET") (lit "/api/v1/admin/me")) deps.admin_me
    pub create_api_key_moves :
        Moves (R (lit "POST") (lit "/api/v1/admin/api-keys")) deps.admin_create_api_key
    pub list_api_keys_moves :
        Moves (R (lit "GET") (lit "/api/v1/admin/api-keys")) deps.admin_list_api_keys
    pub revoke_api_key_moves :
        Moves (R (lit "DELETE") (lit "/api/v1/admin/api-keys/{id}")) deps.admin_revoke_api_key
    pub get_upload_settings_moves :
        Moves (R (lit "GET") (lit "/api/v1/admin/upload-settings")) deps.admin_get_upload_settings
    pub update_upload_settings_moves :
        Moves
          (R (lit "PUT") (lit "/api/v1/admin/upload-settings"))
          deps.admin_update_upload_settings
    pub get_terms_moves :
        Moves (R (lit "GET") (lit "/api/v1/admin/legal/terms")) deps.admin_get_terms
    pub update_terms_moves :
        Moves (R (lit "PUT") (lit "/api/v1/admin/legal/terms")) deps.admin_update_terms
    pub get_privacy_moves :
        Moves (R (lit "GET") (lit "/api/v1/admin/legal/privacy")) deps.admin_get_privacy
    pub update_privacy_moves :
        Moves (R (lit "PUT") (lit "/api/v1/admin/legal/privacy")) deps.admin_update_privacy

module _ {S P : Type 0} (R : Text → Text → S → S → Type 0)
    (steps : (m p : Text) → IsPreorder (R m p)) (deps : RouterDependencies S P)
    (service : AdminService S) (e : deps.admin_service ≡ some service)
    (required : (m p : Text) → Requires (R m p) service)
    (verified : Verifies (R (lit "*") (lit "/metrics")) service) (moves : DepsMove R deps) where
  -- A registered handler, by its method and its pattern behind a prefix.
  abbrev IsMoving : Text → Registration S P → Type 0
  IsMoving prefix c = Moves (R c.method (prefix ++ c.pattern)) c.handler

  plain :
      (method pattern methods : Text) (h : Handler S (Body P))
      → Moves (R method pattern) h
      → Moves (R method pattern) (wrapped (cors deps.allowed_origin methods ∷ []) h)
  unfolding wrapped
  plain method pattern methods h m =
      cors-Moves (R method pattern) (steps method pattern) deps.allowed_origin methods h m

  guarded :
      (method pattern methods : Text) (h : Handler S (Body P))
      → Moves (R method pattern) h
      → Moves
          (R method pattern)
          (wrapped (cors deps.allowed_origin methods ∷ require_admin deps ∷ []) h)
  unfolding wrapped
  guarded method pattern methods h m = rw e (
      cors-Moves (R method pattern) (steps method pattern) deps.allowed_origin methods _ (
        require-Moves (R method pattern) (steps method pattern) service h (required method pattern)
          m))

  options :
      (method pattern : Text) (ms : List Text)
      → Moves {S = S} {P = P} (R method pattern) (preflight deps.allowed_origin ms)
  options method pattern ms =
      cors-Moves (R method pattern) (steps method pattern) deps.allowed_origin _ noop_handler
        (noop-Moves P (R method pattern) (steps method pattern))

  admin_calls-IsMoving : All (IsMoving (lit "/api/v1/admin")) (admin_calls deps)
  unfolding admin_calls admin_endpoints
  admin_calls-IsMoving =
      route_all-All (IsMoving (lit "/api/v1/admin")) deps.allowed_origin (admin_endpoints deps)
        (new_route_registry, [])
        (
          plain (lit "POST") (lit "/api/v1/admin/login") (lit "POST, OPTIONS") deps.admin_login
              moves.admin_login_moves,
          (
            guarded (lit "POST") (lit "/api/v1/admin/logout") (lit "POST, OPTIONS")
                deps.admin_logout moves.admin_logout_moves,
            (
              guarded (lit "GET") (lit "/api/v1/admin/me") (lit "GET, OPTIONS") deps.admin_me
                  moves.admin_me_moves,
              (
                guarded (lit "POST") (lit "/api/v1/admin/api-keys") (lit "POST, OPTIONS")
                    deps.admin_create_api_key moves.create_api_key_moves,
                (
                  guarded (lit "GET") (lit "/api/v1/admin/api-keys") (lit "GET, OPTIONS")
                      deps.admin_list_api_keys moves.list_api_keys_moves,
                  (
                    guarded (lit "DELETE") (lit "/api/v1/admin/api-keys/{id}")
                        (lit "DELETE, OPTIONS") deps.admin_revoke_api_key
                        moves.revoke_api_key_moves,
                    (
                      guarded (lit "GET") (lit "/api/v1/admin/upload-settings") (lit "GET, OPTIONS")
                          deps.admin_get_upload_settings moves.get_upload_settings_moves,
                      (
                        guarded (lit "PUT") (lit "/api/v1/admin/upload-settings")
                            (lit "PUT, OPTIONS") deps.admin_update_upload_settings
                            moves.update_upload_settings_moves,
                        (
                          guarded (lit "GET") (lit "/api/v1/admin/legal/terms") (lit "GET, OPTIONS")
                              deps.admin_get_terms moves.get_terms_moves,
                          (
                            guarded (lit "PUT") (lit "/api/v1/admin/legal/terms")
                                (lit "PUT, OPTIONS") deps.admin_update_terms
                                moves.update_terms_moves,
                            (
                              guarded (lit "GET") (lit "/api/v1/admin/legal/privacy")
                                  (lit "GET, OPTIONS") deps.admin_get_privacy
                                  moves.get_privacy_moves,
                              (
                                guarded (lit "PUT") (lit "/api/v1/admin/legal/privacy")
                                    (lit "PUT, OPTIONS") deps.admin_update_privacy
                                    moves.update_privacy_moves,
                                tt,
                              ),
                            ),
                          ),
                        ),
                      ),
                    ),
                  ),
                ),
              ),
            ),
          ),
        )
        (
          options (lit "OPTIONS") (lit "/api/v1/admin/login"),
          (
            options (lit "OPTIONS") (lit "/api/v1/admin/logout"),
            (
              options (lit "OPTIONS") (lit "/api/v1/admin/me"),
              (
                options (lit "OPTIONS") (lit "/api/v1/admin/api-keys"),
                (
                  options (lit "OPTIONS") (lit "/api/v1/admin/api-keys"),
                  (
                    options (lit "OPTIONS") (lit "/api/v1/admin/api-keys/{id}"),
                    (
                      options (lit "OPTIONS") (lit "/api/v1/admin/upload-settings"),
                      (
                        options (lit "OPTIONS") (lit "/api/v1/admin/upload-settings"),
                        (
                          options (lit "OPTIONS") (lit "/api/v1/admin/legal/terms"),
                          (
                            options (lit "OPTIONS") (lit "/api/v1/admin/legal/terms"),
                            (
                              options (lit "OPTIONS") (lit "/api/v1/admin/legal/privacy"),
                              (options (lit "OPTIONS") (lit "/api/v1/admin/legal/privacy"), tt),
                            ),
                          ),
                        ),
                      ),
                    ),
                  ),
                ),
              ),
            ),
          ),
        )
        tt

  public_calls-IsMoving :
      (st : RouteRegistry × List (Registration S P))
      → All (IsMoving (lit "/api/v1")) st.1
      → All (IsMoving (lit "/api/v1")) (route_all deps.allowed_origin (public_endpoints deps) st).1
  unfolding public_endpoints
  public_calls-IsMoving st h =
      route_all-All (IsMoving (lit "/api/v1")) deps.allowed_origin (public_endpoints deps) st
        (
          plain (lit "GET") (lit "/api/v1/config") (lit "GET, OPTIONS") deps.config_serve
              moves.config_serve_moves,
          (
            plain (lit "GET") (lit "/api/v1/stats") (lit "GET, OPTIONS") deps.stats_serve
                moves.stats_serve_moves,
            (
              plain (lit "GET") (lit "/api/v1/nodes") (lit "GET, OPTIONS") deps.node_status_serve
                  moves.node_status_serve_moves,
              (
                plain (lit "GET") (lit "/api/v1/legal/terms") (lit "GET, OPTIONS") deps.legal_terms
                    moves.legal_terms_moves,
                (
                  plain (lit "GET") (lit "/api/v1/legal/privacy") (lit "GET, OPTIONS")
                      deps.legal_privacy moves.legal_privacy_moves,
                  tt,
                ),
              ),
            ),
          ),
        )
        (
          options (lit "OPTIONS") (lit "/api/v1/config"),
          (
            options (lit "OPTIONS") (lit "/api/v1/stats"),
            (
              options (lit "OPTIONS") (lit "/api/v1/nodes"),
              (
                options (lit "OPTIONS") (lit "/api/v1/legal/terms"),
                (options (lit "OPTIONS") (lit "/api/v1/legal/privacy"), tt),
              ),
            ),
          ),
        )
        h

  upload_calls-IsMoving : All (IsMoving (lit "/api/v1")) (
      (route_all deps.allowed_origin
        (endpoint method_post (lit "/upload") deps.upload_serve [] ∷ [])
        (new_route_registry, [])).1)
  upload_calls-IsMoving =
      route_all-All (IsMoving (lit "/api/v1")) deps.allowed_origin
        (endpoint method_post (lit "/upload") deps.upload_serve [] ∷ []) (new_route_registry, [])
        (
          plain (lit "POST") (lit "/api/v1/upload") (lit "POST, OPTIONS") deps.upload_serve
              moves.upload_moves,
          tt,
        )
        (options (lit "OPTIONS") (lit "/api/v1/upload"), tt) tt

  file_calls-IsMoving : All (IsMoving (lit "/api/v1")) (file_calls deps)
  unfolding file_calls wrapped
  file_calls-IsMoving =
      let p : Text = lit "/api/v1/files/{id}" in
      (
        cors-Moves (R (lit "GET") p) (steps (lit "GET") p) (lit "*") (lit "GET, OPTIONS")
            deps.file_get_info moves.file_info,
        (
          plain (lit "DELETE") p (lit "DELETE, OPTIONS") deps.file_delete moves.file_deletion,
          (
            file_preflight-Moves P (R (lit "OPTIONS") p) (steps (lit "OPTIONS") p) (lit "*")
                (lit "GET, OPTIONS") deps.allowed_origin (lit "DELETE, OPTIONS"),
            tt,
          ),
        ),
      )

  root_calls-IsMoving : All (IsMoving []) (root_calls deps)
  unfolding root_calls wrapped
  root_calls-IsMoving =
      let health : Text = lit "/healthz" in
      let metrics : Text = lit "/metrics" in
      (
        plain (lit "GET") health (lit "GET, HEAD, OPTIONS") handle_health_check
            (λ r s. (steps (lit "GET") health).here s),
        (
          plain (lit "HEAD") health (lit "GET, HEAD, OPTIONS") handle_health_check_head
              (λ r s. (steps (lit "HEAD") health).here s),
          (
            plain (lit "OPTIONS") health (lit "GET, HEAD, OPTIONS") noop_handler
                (noop-Moves P (R (lit "OPTIONS") health) (steps (lit "OPTIONS") health)),
            (
              rw e (
                  plain (lit "*") metrics (lit "GET, OPTIONS") _ (
                    metrics-Moves (R (lit "*") metrics) (steps (lit "*") metrics) service
                      deps.metrics_serve verified moves.metrics)),
              (
                plain (lit "OPTIONS") metrics (lit "GET, OPTIONS") noop_handler
                    (noop-Moves P (R (lit "OPTIONS") metrics) (steps (lit "OPTIONS") metrics)),
                tt,
              ),
            ),
          ),
        ),
      )

  api_calls-IsMoving : All (IsMoving (lit "/api/v1")) (api_calls deps)
  unfolding api_calls
  api_calls-IsMoving =
      let first : RouteRegistry × List (Registration S P) =
        route_all deps.allowed_origin
          (endpoint method_post (lit "/upload") deps.upload_serve [] ∷ [])
          (new_route_registry, []) in
      let public : List (Registration S P) =
        (route_all deps.allowed_origin (public_endpoints deps)
          (first.0, first.1 ++ file_calls deps)).1 in
      All-append (IsMoving (lit "/api/v1")) public (below (lit "/admin") (admin_calls deps))
        (public_calls-IsMoving (first.0, first.1 ++ file_calls deps)
          (All-append (IsMoving (lit "/api/v1")) first.1 (file_calls deps) upload_calls-IsMoving
            file_calls-IsMoving))
        (All-below (IsMoving (lit "/api/v1")) (lit "/admin") (admin_calls deps)
          admin_calls-IsMoving)

  -- Every registered handler does to the state no more than its method and its pattern allow.
  pub new_router-Moves : All (λ c. Moves (R c.method c.pattern) c.handler) (new_router deps).calls
  unfolding new_router
  new_router-Moves =
      All-append (IsMoving []) (root_calls deps) (below (lit "/api/v1") (api_calls deps))
        root_calls-IsMoving
        (All-below (IsMoving []) (lit "/api/v1") (api_calls deps) api_calls-IsMoving)

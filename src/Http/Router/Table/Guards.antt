-- ===== src/Http/Router/Table/Guards.antt =====
-- Which routes of the administration ask for a session.
use tempcdn.Prelude.{
  ℕ, ◌≡◌, refl, true, false, some, List, [], ◌∷◌, ◌++◌, All, All-append, All-In, In, arith,
}
use tempcdn.Text.{Text, lit, same, has_prefix}
use tempcdn.Text.Laws.{same_refl}
use tempcdn.Http.{Request, Handler, Body, method_options, status_of}
use tempcdn.Http.Middleware.{cors}
use tempcdn.Http.Registry.{
  Registration, RouteRegistry, wrapped, route, route_all, new_route_registry,
}
use tempcdn.Http.Router.{method_post, AdminService, RouterDependencies, require_admin_session}
use tempcdn.Http.Router.Table.{
  below, endpoint, new_router, root_calls, file_calls, api_calls, admin_calls, admin_endpoints,
  public_endpoints,
}
use tempcdn.Http.Router.Table.Covered.{
  refusal_status, session_check, IsGuarded, IsCovered, IsApiCovered, IsAdminCovered, IsElsewhere,
  route_all-All, require-IsGuarded, All-below, elsewhere-IsApiCovered, not_options,
}

module _ {S P : Type 0} (deps : RouterDependencies S P) (service : AdminService S)
    (e : deps.admin_service ≡ some service) where
  guarded :
      (next : Handler S (Body P)) (methods : Text)
      → IsGuarded service (
          wrapped
            (cors deps.allowed_origin methods ∷ require_admin_session deps.admin_service ∷ [])
            next)
  guarded next methods = rw e (require-IsGuarded service next deps.allowed_origin methods)

  admin_calls-IsAdminCovered : All (IsAdminCovered service) (admin_calls deps)
  unfolding admin_calls admin_endpoints
  admin_calls-IsAdminCovered =
      route_all-All (IsAdminCovered service) deps.allowed_origin (admin_endpoints deps)
        (new_route_registry, [])
        (
          (λ p o n. absurd (ground (arith, n, same_refl (lit "/api/v1/admin/login")))),
          (
            (λ p o n. guarded deps.admin_logout (lit "POST, OPTIONS")),
            (
              (λ p o n. guarded deps.admin_me (lit "GET, OPTIONS")),
              (
                (λ p o n. guarded deps.admin_create_api_key (lit "POST, OPTIONS")),
                (
                  (λ p o n. guarded deps.admin_list_api_keys (lit "GET, OPTIONS")),
                  (
                    (λ p o n. guarded deps.admin_revoke_api_key (lit "DELETE, OPTIONS")),
                    (
                      (λ p o n. guarded deps.admin_get_upload_settings (lit "GET, OPTIONS")),
                      (
                        (λ p o n. guarded deps.admin_update_upload_settings (lit "PUT, OPTIONS")),
                        (
                          (λ p o n. guarded deps.admin_get_terms (lit "GET, OPTIONS")),
                          (
                            (λ p o n. guarded deps.admin_update_terms (lit "PUT, OPTIONS")),
                            (
                              (λ p o n. guarded deps.admin_get_privacy (lit "GET, OPTIONS")),
                              (
                                (λ p o n. guarded deps.admin_update_privacy (lit "PUT, OPTIONS")),
                                tt,
                              ),
                            ),
                          ),
                        ),
                      ),
                    ),
                  ),
                ),
              ),
            ),
          ),
        )
        (
          (λ ms p o n. not_options o),
          (
            (λ ms p o n. not_options o),
            (
              (λ ms p o n. not_options o),
              (
                (λ ms p o n. not_options o),
                (
                  (λ ms p o n. not_options o),
                  (
                    (λ ms p o n. not_options o),
                    (
                      (λ ms p o n. not_options o),
                      (
                        (λ ms p o n. not_options o),
                        (
                          (λ ms p o n. not_options o),
                          (
                            (λ ms p o n. not_options o),
                            ((λ ms p o n. not_options o), ((λ ms p o n. not_options o), tt)),
                          ),
                        ),
                      ),
                    ),
                  ),
                ),
              ),
            ),
          ),
        )
        tt

  public_calls-IsElsewhere :
      (st : RouteRegistry × List (Registration S P))
      → All IsElsewhere st.1
      → All IsElsewhere (route_all deps.allowed_origin (public_endpoints deps) st).1
  unfolding has_prefix public_endpoints
  public_calls-IsElsewhere st h =
      route_all-All IsElsewhere deps.allowed_origin (public_endpoints deps) st
        (refl, (refl, (refl, (refl, (refl, tt)))))
        ((λ ms. refl), ((λ ms. refl), ((λ ms. refl), ((λ ms. refl), ((λ ms. refl), tt))))) h

  first_calls-IsElsewhere : All IsElsewhere (
      (route_all deps.allowed_origin
        (endpoint method_post (lit "/upload") deps.upload_serve [] ∷ [])
        (new_route_registry, [])).1
      ++ file_calls deps)
  unfolding has_prefix route_all route file_calls
  first_calls-IsElsewhere = (refl, (refl, (refl, (refl, (refl, tt)))))

  root_calls-IsCovered : All (IsCovered service) (root_calls deps)
  unfolding root_calls has_prefix
  root_calls-IsCovered = (
    (λ p o n. absurd (ground (arith, p))),
    (
      (λ p o n. absurd (ground (arith, p))),
      (
        (λ p o n. absurd (ground (arith, p))),
        ((λ p o n. absurd (ground (arith, p))), ((λ p o n. absurd (ground (arith, p))), tt)),
      ),
    ),
  )

  api_calls-IsApiCovered : All (IsApiCovered service) (api_calls deps)
  unfolding api_calls
  api_calls-IsApiCovered =
      let first : RouteRegistry × List (Registration S P) =
        route_all deps.allowed_origin
          (endpoint method_post (lit "/upload") deps.upload_serve [] ∷ [])
          (new_route_registry, []) in
      let public : List (Registration S P) =
        (route_all deps.allowed_origin (public_endpoints deps)
          (first.0, first.1 ++ file_calls deps)).1 in
      All-append (IsApiCovered service) public (below (lit "/admin") (admin_calls deps))
        (elsewhere-IsApiCovered service public
          (public_calls-IsElsewhere (first.0, first.1 ++ file_calls deps) first_calls-IsElsewhere))
        (All-below (IsApiCovered service) (lit "/admin") (admin_calls deps)
          admin_calls-IsAdminCovered)

  calls-IsCovered : All (IsCovered service) (new_router deps).calls
  unfolding new_router
  calls-IsCovered =
      All-append (IsCovered service) (root_calls deps) (below (lit "/api/v1") (api_calls deps))
        root_calls-IsCovered
        (All-below (IsCovered service) (lit "/api/v1") (api_calls deps) api_calls-IsApiCovered)

  -- With a service of the administration, every handler that the router registers for a pattern of the
  -- administration, but for those of OPTIONS and that of the login, asks for a session first: where the
  -- service refuses the token of a request, the client gets the status of the refusal, and the state is
  -- that after the verification. The request's method is not OPTIONS.
  pub new_router-guards :
      (c : Registration S P) (r : Request) (s : S) (code : ℕ)
      → In c (new_router deps).calls
      → has_prefix c.pattern (lit "/api/v1/admin") ≡ true
      → same c.method method_options ≡ false
      → same c.pattern (lit "/api/v1/admin/login") ≡ false
      → same r.method method_options ≡ false
      → refusal_status (session_check service r s).0 ≡ some code
      → (status_of (c.handler r s).0.events ≡ some code)
        × ((c.handler r s).1 ≡ (session_check service r s).1)
  unfolding IsGuarded
  new_router-guards c r s code i below_admin method not_login other refused =
      All-In (IsCovered service) c (new_router deps).calls calls-IsCovered i below_admin method
        not_login r s code other refused

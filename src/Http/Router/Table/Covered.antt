-- ===== src/Http/Router/Table/Covered.antt =====
-- What it means that a registration asks for a session, and how the calls of `route` keep it.
use tempcdn.Prelude.{
  ℕ, ◌≡◌, refl, true, false, Option, none, some, List, [], ◌∷◌, ◌++◌, All, All-append, arith,
}
use tempcdn.Text.{Text, lit, same, has_prefix}
use tempcdn.Text.Laws.{same_refl}
use tempcdn.Admin.Access.{Access, admitted, unauthorized, internal_error}
use tempcdn.Http.{Request, Handler, Body, method_options, status_of}
use tempcdn.Http.Middleware.{cors}
use tempcdn.Http.Registry.{
  Registration, RouteRegistry, Endpoint, wrapped, preflight, with_method, route, route_all,
}
use tempcdn.Http.Router.{AdminService, extract_bearer_token, require_admin_session, after_require}
use tempcdn.Http.Router.Table.{below}

-- The status of the refusal.
abbrev pub refusal_status : Access → Option ℕ
refusal_status (admitted s) = none
refusal_status unauthorized = some 401
refusal_status internal_error = some 500

module _ {S : Type 0} where
  -- What becomes of the session token of a request.
  abbrev pub session_check : AdminService S → Request → S → Access × S
  session_check service r s = service.require_session (extract_bearer_token r.header) r.chance.now s

module _ {S P : Type 0} where
  -- Where the session is refused, the client gets the refusal's status, and the state is that after
  -- the verification.
  unfoldable pub IsGuarded : AdminService S → Handler S (Body P) → Type 0
  IsGuarded service h =
      (r : Request) (s : S) (code : ℕ)
      → same r.method method_options ≡ false
      → refusal_status (session_check service r s).0 ≡ some code
      → (status_of (h r s).0.events ≡ some code) × ((h r s).1 ≡ (session_check service r s).1)

  -- The calls that must be guarded.
  abbrev pub IsCovered : AdminService S → Registration S P → Type 0
  IsCovered service c =
      has_prefix c.pattern (lit "/api/v1/admin") ≡ true
      → same c.method method_options ≡ false
      → same c.pattern (lit "/api/v1/admin/login") ≡ false
      → IsGuarded service c.handler

  pub route_all-All :
      (Q : Registration S P → Type 0) (allowed_origin : Text) (endpoints : List (Endpoint S P))
      (st : RouteRegistry × List (Registration S P))
      → All
          (λ e. Q (record {
            method = e.method;
            pattern = e.pattern;
            handler =
                wrapped
                  (cors allowed_origin (e.method ++ lit ", OPTIONS") ∷ e.extra_middleware)
                  e.handler;
          }))
          endpoints
      → All
          (λ e.
            (ms : List Text)
            → Q (record {
              method = method_options;
              pattern = e.pattern;
              handler = preflight allowed_origin ms;
            }))
          endpoints
      → All Q st.1
      → All Q (route_all allowed_origin endpoints st).1
  unfolding route_all route
  route_all-All Q allowed_origin [] st served options h = h
  route_all-All Q allowed_origin (e ∷ endpoints) st served options h =
      route_all-All Q allowed_origin endpoints (route allowed_origin e st) served.1 options.1 (
        All-append Q st.1 _ h
          (served.0, (options.0 (with_method e.pattern e.method st.0 e.pattern), tt)))

  refusal :
      (next : Handler S (Body P)) (r : Request) (code : ℕ) (q : Access × S)
      → refusal_status q.0 ≡ some code
      → (status_of (after_require next r q).0.events ≡ some code)
        × ((after_require next r q).1 ≡ q.1)
  unfolding after_require status_of
  refusal next r code (admitted session, s) h = absurd (ground arith)
  refusal next r code (unauthorized, s) h = (h, refl)
  refusal next r code (internal_error, s) h = (h, refl)

  pub require-IsGuarded :
      (service : AdminService S) (next : Handler S (Body P)) (origin methods : Text)
      → IsGuarded service
          (wrapped (cors origin methods ∷ require_admin_session (some service) ∷ []) next)
  unfolding IsGuarded wrapped cors require_admin_session status_of
  require-IsGuarded service next origin methods r s code other refused =
      rw other (refusal next r code (session_check service r s) refused)

  pub All-below :
      (Q : Registration S P → Type 0) (prefix : Text) (calls : List (Registration S P))
      → All (λ c. Q (record c { pattern = prefix ++ c.pattern })) calls
      → All Q (below prefix calls)
  All-below Q prefix [] h = tt
  All-below Q prefix (c ∷ calls) h = (h.0, All-below Q prefix calls h.1)

  -- A call of the API, by its pattern below `/api/v1`.
  abbrev pub IsApiCovered : AdminService S → Registration S P → Type 0
  IsApiCovered service c = IsCovered service (record c { pattern = lit "/api/v1" ++ c.pattern })

  -- A call of the administration, by its pattern below `/api/v1/admin`.
  abbrev pub IsAdminCovered : AdminService S → Registration S P → Type 0
  IsAdminCovered service c =
      IsCovered service (record c { pattern = lit "/api/v1" ++ lit "/admin" ++ c.pattern })

  -- A call with a pattern elsewhere.
  abbrev pub IsElsewhere : Registration S P → Type 0
  IsElsewhere c = has_prefix c.pattern (lit "/admin") ≡ false

  pub elsewhere-IsApiCovered :
      (service : AdminService S) (calls : List (Registration S P))
      → All IsElsewhere calls
      → All (IsApiCovered service) calls
  unfolding has_prefix
  elsewhere-IsApiCovered service [] h = tt
  elsewhere-IsApiCovered service (c ∷ calls) h = (
    (λ prefixed other not_login. absurd (ground (arith, h.0, prefixed))),
    elsewhere-IsApiCovered service calls h.1,
  )

pub not_options : {A : Type 0} → same method_options method_options ≡ false → A
not_options other = absurd (ground (arith, other, same_refl method_options))

-- ===== src/Http/Tests.antt =====
-- A handler that panics, two endpoints of one pattern, and a server whose sessions are all refused.
use tempcdn.Prelude.{ℕ, suc, ◌≡◌, refl, true, false, none, some, List, [], ◌∷◌, All}
use tempcdn.Text.{Text, lit, same}
use tempcdn.Http.{Request, set_header, Handler, Body, method_options, status_of, returned}
use tempcdn.Http.Recorder.Clean.{IsClean}
use tempcdn.Http.Middleware.{recovery, cors, noop_handler}
use tempcdn.Http.Middleware.Statuses.{recovery-answers}
use tempcdn.Http.Registry.{Endpoint, join, route_all, new_route_registry, last_for}
use tempcdn.Http.Registry.Preflight.{route_all-preflight}
use tempcdn.Http.Router.{method_get}

abbrev request : Request
request = record {
  method = method_get;
  path = lit "/api/v1/admin/api-keys";
  url_id = [];
  header = λ name. [];
  body = [];
  session = none;
  chance = record { now = 1; later = 2; elapsed = 3; random = none; new_id = lit "i" };
}

-- A handler that sets a header and panics.
abbrev panics : Handler ℕ (Body Text)
panics r s = (
  record { events = set_header (lit "Vary") (lit "Origin") ∷ []; entries = []; panicked = true },
  suc s,
)

recovery-answers_example :
    ((recovery panics request 0).0.panicked ≡ false)
    × ((recovery panics request 0).1 ≡ 1)
    × IsClean false (recovery panics request 0).0.events
    × (status_of (recovery panics request 0).0.events ≡ some 500)
unfolding status_of
recovery-answers_example = recovery-answers panics request 0

abbrev nothing : Handler ℕ (Body Text)
nothing r s = (returned [], s)

abbrev endpoints : List (Endpoint ℕ Text)
endpoints =
    record { method = lit "POST"; pattern = lit "/k"; handler = nothing; extra_middleware = [] }
    ∷ record { method = lit "GET"; pattern = lit "/m"; handler = nothing; extra_middleware = [] }
    ∷ record { method = lit "GET"; pattern = lit "/k"; handler = nothing; extra_middleware = [] }
    ∷ []

other_methods : All (λ (e : Endpoint ℕ Text). same method_options e.method ≡ false) endpoints
unfolding same
other_methods = (refl, (refl, (refl, tt)))

route_all-preflight_example :
    last_for method_options
      (lit "/k")
      none
      (route_all (lit "o") endpoints (new_route_registry, [])).1
    ≡ some (cors (lit "o") (lit "POST, GET, OPTIONS") noop_handler)
unfolding same join
route_all-preflight_example = route_all-preflight (lit "o") endpoints (lit "/k") other_methods

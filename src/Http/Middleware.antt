-- ===== src/Http/Middleware.antt =====
-- internal/httpserver/middleware.go: `Recovery`, `RequestLogging` and `CORS`.
pub mod Statuses
use tempcdn.Prelude.{ℕ, ◌/◌, Bool, true, false, List, [], ◌∷◌, ◌++◌, if◌then◌else◌}
use tempcdn.Text.{Text, lit, same}
use tempcdn.Http.{
  Request, Event, set_header, write_header, Entry, http_request, latency_observed, panic_recovered,
  Answer, Middleware, Handler, Body, error, returned, method_options,
}
use tempcdn.Http.Recorder.{Recorder, new_recorder, pass_all}

-- What is logged behind `next.ServeHTTP`, which a panic skips; `timed` says that there is a
-- histogram. A time has the unit nanosecond.
abbrev pub request_entries : Bool → Bool → Request → Recorder → List Entry
request_entries timed true r rec = []
request_entries timed false r rec =
    http_request r.method r.path rec.status_code (r.chance.elapsed / 1000000)
    ∷ (if timed then latency_observed r.path r.method r.chance.elapsed ∷ [] else [])

module _ {P : Type 0} where
  abbrev pub cors_headers : Text → Text → List (Event (Body P))
  cors_headers allowed_origin methods =
      set_header (lit "Access-Control-Allow-Origin") allowed_origin
      ∷ set_header (lit "Access-Control-Allow-Methods") methods
      ∷ set_header (lit "Access-Control-Allow-Headers")
          (lit "Content-Type, X-Delete-Token, X-Metrics-Token, Authorization")
      ∷ set_header (lit "Vary") (lit "Origin")
      ∷ []

  -- The deferred function of `Recovery`: what it still writes, where the handler panicked.
  unfoldable pub recover : Bool → Recorder → List (Event (Body P))
  unfolding pass_all
  recover panicked rec =
      if panicked
      then if rec.wrote_header
        then []
        else (pass_all (error 500 (lit "internal server error")) rec).0
      else []

module _ {S P : Type 0} where
  unfoldable pub recovery : Middleware S (Body P)
  unfolding pass_all
  recovery next r s =
      let (a, after) = next r s in
      let (events, rec) = pass_all a.events new_recorder in
      (
        record {
          events = events ++ recover a.panicked rec;
          entries = a.entries ++ (if a.panicked then panic_recovered r.path ∷ [] else []);
          panicked = false;
        },
        after,
      )

  unfoldable pub request_logging : Bool → Middleware S (Body P)
  unfolding pass_all
  request_logging timed next r s =
      let (a, after) = next r s in
      let (events, rec) = pass_all a.events new_recorder in
      (
        record {
          events = events;
          entries = a.entries ++ request_entries timed a.panicked r rec;
          panicked = a.panicked;
        },
        after,
      )

  -- What a handler does behind these calls.
  abbrev pub preceded : List (Event (Body P)) → Answer (Body P) × S → Answer (Body P) × S
  preceded events (a, s) = (record a { events = events ++ a.events }, s)

  unfoldable pub cors : Text → Text → Middleware S (Body P)
  cors allowed_origin methods next r s =
      let served = next r s in
      preceded (cors_headers allowed_origin methods)
        (if same r.method method_options then (returned (write_header 204 ∷ []), s) else served)

  unfoldable pub noop_handler : Handler S (Body P)
  noop_handler r s = (returned [], s)

-- ===== src/Http.antt =====
-- What a handler sees of a request, and what it does with the `http.ResponseWriter`; and
-- internal/response/response.go. A handler is a function of the request and of the state of the
-- server to the calls that it made of the writer, what it logged, and the state after it.
pub mod Recorder
pub mod Middleware
pub mod Registry
pub mod Router
mod Tests
use tempcdn.Prelude.{ℕ, Bool, true, false, Option, some, none, List, [], ◌∷◌, ◌++◌}
use tempcdn.Text.{Text, lit}
use tempcdn.Metadata.Model.{Time}
use tempcdn.Admin.Sessions.{Session}

-- What the clock and the random source answer while a request is served: the time, the time at the
-- second reading, the time that has passed at the end, the random text and a new identifier.
pub record Chance : Type 0 where
  pub now : Time
  pub later : Time
  pub elapsed : Time
  pub random : Option Text
  pub new_id : Text

-- `url_id` is what the router finds for `{id}`; `session` is the value in the context.
pub record Request : Type 0 where
  pub method : Text
  pub path : Text
  pub url_id : Text
  pub header : Text → Text
  pub body : Text
  pub session : Option Session
  pub chance : Chance

-- A call of the `http.ResponseWriter`; `B` is what a body holds before its encoding.
pub data Event (B : Type 0) : Type 0 where
  set_header : Text → Text → Event B
  write_header : ℕ → Event B
  write : B → Event B

-- What a middleware logs or observes: method, path, status and milliseconds; path, method and time.
pub data Entry : Type 0 where
  http_request : Text → Text → ℕ → ℕ → Entry
  latency_observed : Text → Text → Time → Entry
  panic_recovered : Text → Entry

pub record Answer (B : Type 0) : Type 0 where
  pub events : List (Event B)
  pub entries : List Entry
  pub panicked : Bool

abbrev pub Handler : Type 0 → Type 0 → Type 0
Handler S B = Request → S → Answer B × S

abbrev pub Middleware : Type 0 → Type 0 → Type 0
Middleware S B = Handler S B → Handler S B

-- The bodies of the server's JSON responses: those of a component, or an error's message.
pub data Body (P : Type 0) : Type 0 where
  error_body : Text → Body P
  payload : P → Body P
  text_body : Text → Body P

module _ {P : Type 0} where
  -- `response.JSON`, whose payload is never nil here
  abbrev pub json : ℕ → Body P → List (Event (Body P))
  json status body =
      set_header (lit "Content-Type") (lit "application/json")
      ∷ write_header status
      ∷ write body
      ∷ []

  -- `response.Error`
  abbrev pub error : ℕ → Text → List (Event (Body P))
  error status message = json status (error_body message)

-- A handler that returns after these calls.
abbrev pub returned : {B : Type 0} → List (Event B) → Answer B
returned events = record { events = events; entries = []; panicked = false }

abbrev pub method_options : Text
method_options = lit "OPTIONS"

-- The status that the client sees, by the contract of `http.ResponseWriter`: that of the first
-- `WriteHeader`, and 200 where a `Write` comes first.
unfoldable pub status_of : {B : Type 0} → List (Event B) → Option ℕ
status_of [] = none
status_of (set_header k v ∷ events) = status_of events
status_of (write_header code ∷ events) = some code
status_of (write b ∷ events) = some 200

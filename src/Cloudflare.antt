-- ===== src/Cloudflare.antt =====
-- internal/cloudflare/purger.go: one request of the cache purge. The HTTP client and the JSON
-- decoder are outside: `Exchange` is what they make of the request.
mod Tests
use tempcdn.Prelude.{
  ℕ, ◌||◌, Bool, true, false, Option, none, some, List, [], ◌∷◌, ltb, leb, if◌then◌else◌,
}
use tempcdn.Text.{Text}
use tempcdn.Action.{Result, ok, err}

-- The decoded body: whether it says success, and the messages of its errors.
pub record PurgeResponseBody : Type 0 where
  pub success : Bool
  pub messages : List Text

-- How the exchange ends: the request cannot be built, fails, its answer cannot be read, or it is
-- answered with a status and with a body, which is decoded or not.
pub data Exchange : Type 0 where
  not_built failed unread : Exchange
  answered : ℕ → Option PurgeResponseBody → Exchange

pub data PurgeError : Type 0 where
  build_request request_failed read_response : PurgeError
  bad_status bad_body unsuccessful : ℕ → PurgeError
  refused : Text → PurgeError

abbrev pub first_message : ℕ → List Text → PurgeError
first_message status [] = unsuccessful status
first_message status (m ∷ messages) = refused m

-- What is done with the decoded body.
abbrev pub body_answer : ℕ → Option PurgeResponseBody → Result PurgeError (Unit {0})
body_answer status none = err (bad_body status)
body_answer status (some b) = if b.success then ok tt else err (first_message status b.messages)

unfoldable pub exchange_answer : Exchange → Result PurgeError (Unit {0})
exchange_answer not_built = err build_request
exchange_answer failed = err request_failed
exchange_answer unread = err read_response
exchange_answer (answered status body) =
    if ltb status 200 || leb 300 status then err (bad_status status) else body_answer status body

-- With the requests that it sends: none for no URL, and otherwise one with all of them.
unfoldable pub purge_urls :
    (List Text → Exchange) → List Text → List (List Text) × Result PurgeError (Unit {0})
unfolding exchange_answer
purge_urls exchange [] = ([], ok tt)
purge_urls exchange (u ∷ urls) = ((u ∷ urls) ∷ [], exchange_answer (exchange (u ∷ urls)))

-- ===== src/Http/Router/Table/Moves.antt =====
-- A rule for all routes: what each handler may do to the state, and the verification of a session,
-- every handler that the router registers may do to it at most.
use tempcdn.Prelude.{Bool, true, false, some, Bool-cases, inl, inr}
use tempcdn.Text.{Text, lit, same}
use tempcdn.Metadata.Model.{Time}
use tempcdn.Admin.Access.{Access, admitted, unauthorized, internal_error}
use tempcdn.Http.{Request, Handler, Body, method_options}
use tempcdn.Http.Middleware.{cors, noop_handler}
use tempcdn.Http.Router.{
  AdminService, require_admin_session, after_require, after_metrics, metrics_auth,
  file_preflight_cors,
}

module _ {S P : Type 0} where
  -- Whatever the request, the state before and the state after are related.
  abbrev pub Moves : (S → S → Type 0) → Handler S (Body P) → Type 0
  Moves R h = (r : Request) (s : S) → R s (h r s).1

-- A relation of states that is one of steps that may be none, or several.
pub record IsPreorder {S : Type 0} (R : S → S → Type 0) : Type 0 where
  pub here : (s : S) → R s s
  pub then : (s t u : S) → R s t → R t u → R s u

module _ {S : Type 0} where
  -- The verification of a session moves the state within the relation, and that of a credential.
  abbrev pub Requires : (S → S → Type 0) → AdminService S → Type 0
  Requires R service =
      (token : Text) (now : Time) (s : S) → R s (service.require_session token now s).1

  abbrev pub Verifies : (S → S → Type 0) → AdminService S → Type 0
  Verifies R service =
      (credential : Text) (now later : Time) (s : S)
      → R s (service.verify_credential credential now later s).1

module _ {S P : Type 0} (R : S → S → Type 0) (steps : IsPreorder R) where
  pub cors-Moves :
      (origin methods : Text) (h : Handler S (Body P)) → Moves R h → Moves R (cors origin methods h)
  unfolding cors
  cors-Moves origin methods h moves r s = elim (Bool-cases (same r.method method_options)) [
    | inl e ↦ rw e (steps.here s)
    | inr e ↦ rw e (moves r s)
  ]

  after_require-Moves :
      (h : Handler S (Body P)) (r : Request) (a : Access) (s t : S)
      → Moves R h
      → R s t
      → R s (after_require h r (a, t)).1
  unfolding after_require
  after_require-Moves h r (admitted session) s t moves moved =
      steps.then s t _ moved (moves (record r { session = some session }) t)
  after_require-Moves h r unauthorized s t moves moved = moved
  after_require-Moves h r internal_error s t moves moved = moved

  pub require-Moves :
      (service : AdminService S) (h : Handler S (Body P))
      → Requires R service
      → Moves R h
      → Moves R (require_admin_session (some service) h)
  unfolding require_admin_session
  require-Moves service h required moves r s =
      after_require-Moves h r _ s _ moves (required _ r.chance.now s)

  after_metrics-Moves :
      (h : Handler S (Body P)) (r : Request) (b : Bool) (s t : S)
      → Moves R h
      → R s t
      → R s (after_metrics h r (b, t)).1
  after_metrics-Moves h r true s t moves moved = steps.then s t _ moved (moves r t)
  after_metrics-Moves h r false s t moves moved = moved

  pub metrics-Moves :
      (service : AdminService S) (h : Handler S (Body P))
      → Verifies R service
      → Moves R h
      → Moves R (metrics_auth (some service) h)
  unfolding metrics_auth
  metrics-Moves service h verified moves r s =
      after_metrics-Moves h r _ s _ moves (verified _ r.chance.now r.chance.later s)

module _ {S : Type 0} (P : Type 0) (R : S → S → Type 0) (steps : IsPreorder R) where
  pub noop-Moves : Moves {S = S} {P = P} R noop_handler
  unfolding noop_handler
  noop-Moves r s = steps.here s

  pub file_preflight-Moves :
      (a b : Text) (c d : Text)
      → Moves {S = S} {P = P} R (file_preflight_cors (cors a b) (cors c d) noop_handler)
  unfolding file_preflight_cors
  file_preflight-Moves a b c d r s =
      elim (Bool-cases (same (r.header (lit "Access-Control-Request-Method")) (lit "DELETE"))) [
        | inl e ↦ rw e (cors-Moves R steps c d noop_handler noop-Moves r s)
        | inr e ↦ rw e (cors-Moves R steps a b noop_handler noop-Moves r s)
      ]

-- ===== src/Server/Wiring/Sessions.antt =====
-- Who gets through to the administration of the server.
use tempcdn.Prelude.{ℕ, ◌≡◌, ◌⊎◌, inl, inr, refl, sym, ap, ◌∙◌, true, false, some, In, arith}
use tempcdn.Text.{Text, lit, same, has_prefix}
use tempcdn.Action.{err, Result-cases}
use tempcdn.Config.{Config}
use tempcdn.Admin.Model.{AdminError, Platform}
use tempcdn.Admin.Sessions.{Session, verify_session}
use tempcdn.Admin.Sessions.Valid.{IsValid, verify_session-IsValid}
use tempcdn.Admin.Access.{access_of, session_access}
use tempcdn.Metadata.Tables.{AdminDb}
use tempcdn.Admin.Frame.{KeepsAll, verify_session-KeepsAll}
use tempcdn.Http.{Request, Answer, Body, method_options, status_of}
use tempcdn.Http.Registry.{Registration}
use tempcdn.Http.Router.{extract_bearer_token}
use tempcdn.Http.Router.Table.Covered.{refusal_status, session_check}
use tempcdn.Http.Router.Table.Guards.{new_router-guards}
use tempcdn.Server.{session_service}
use tempcdn.Server.Shared.{ServerState, ServerReply}
use tempcdn.Server.Wiring.{Outside, admin_platform, server_service, server_deps, server_router}

refusal_of_err :
    (e : AdminError)
    → (refusal_status (access_of (err e)) ≡ some 401)
      ⊎ (refusal_status (access_of (err e)) ≡ some 500)
refusal_of_err e = ground arith

module _ {S : Type 0} (o : Outside S) (cfg : Config) where
  -- The state behind a verification of a session.
  abbrev verified : Request → ServerState S → AdminDb
  verified r s =
      (verify_session (admin_platform o cfg) (extract_bearer_token r.header) r.chance.now s.admin).1

  session_check-access :
      (r : Request) (s : ServerState S)
      → session_check (server_service o cfg) r s ≡ (
        access_of
            (verify_session
              (admin_platform o cfg)
              (extract_bearer_token r.header)
              r.chance.now
              s.admin).0,
        record s { admin = verified r s },
      )
  unfolding server_service session_service session_access
  session_check-access r s = refl

  -- The request was refused: the client got status 401 or 500, and at most the table of sessions has
  -- changed.
  pub record IsRefused (s : ServerState S) (a : Answer (Body ServerReply) × ServerState S)
      : Type 0 where
    pub status : (status_of a.0.events ≡ some 401) ⊎ (status_of a.0.events ≡ some 500)
    pub elsewhere : a.1 ≡ record s { admin = a.1.admin }
    pub kept : KeepsAll s.admin a.1.admin

  -- A request to the administration, other than a login or a preflight, either came with the token of a
  -- session that is stored, has not expired and belongs to an account; or it is answered with status
  -- 401 or 500, and has changed nothing but, perhaps, the table of sessions.
  pub server_router-guards :
      (c : Registration (ServerState S) ServerReply) (r : Request) (s : ServerState S)
      → In c (server_router o cfg).calls
      → has_prefix c.pattern (lit "/api/v1/admin") ≡ true
      → same c.method method_options ≡ false
      → same c.pattern (lit "/api/v1/admin/login") ≡ false
      → same r.method method_options ≡ false
      → ((x : Session) × IsValid
            (admin_platform o cfg)
            (extract_bearer_token r.header)
            r.chance.now
            s.admin.tables
            x)
        ⊎ IsRefused s (c.handler r s)
  unfolding server_router server_deps
  server_router-guards c r s i prefixed method login preflight =
      elim (Result-cases (verify_session p token r.chance.now s.admin).0) [
        | inl (x, e) ↦ inl (x, verify_session-IsValid p token r.chance.now s.admin x e)
        | inr (e, h) ↦ inr (elim (refusal_of_err e) [
          | inl k ↦
              let (status, after) = refused 401 (by_answer e h k) in
              record { status = inl status; elsewhere = same_state after; kept = kept after }
          | inr k ↦
              let (status, after) = refused 500 (by_answer e h k) in
              record { status = inr status; elsewhere = same_state after; kept = kept after }
        ])
      ]
    where
      p : Platform
      p = admin_platform o cfg

      token : Text
      token = extract_bearer_token r.header

      refused :
          (n : ℕ)
          → refusal_status (session_check (server_service o cfg) r s).0 ≡ some n
          → (status_of (c.handler r s).0.events ≡ some n)
            × ((c.handler r s).1 ≡ record s { admin = verified r s })
      refused n k =
          let (status, after) =
            new_router-guards (server_deps o cfg) (server_service o cfg) refl c r s n i prefixed
              method login preflight k in
          (status, after ∙ ap (λ q. q.1) (session_check-access r s))

      by_answer :
          {n : ℕ} (e : AdminError)
          → (verify_session p token r.chance.now s.admin).0 ≡ err e
          → refusal_status (access_of (err e)) ≡ some n
          → refusal_status (session_check (server_service o cfg) r s).0 ≡ some n
      by_answer e h k =
          ap (λ q. refusal_status q.0) (session_check-access r s)
          ∙ ap (λ a. refusal_status (access_of a)) h
          ∙ k

      same_state :
          (c.handler r s).1 ≡ record s { admin = verified r s }
          → (c.handler r s).1 ≡ record s { admin = (c.handler r s).1.admin }
      same_state after = after ∙ sym (ap (λ t. record s { admin = t.admin }) after)

      kept :
          (c.handler r s).1 ≡ record s { admin = verified r s }
          → KeepsAll s.admin (c.handler r s).1.admin
      kept after = rw after (verify_session-KeepsAll p token r.chance.now s.admin)

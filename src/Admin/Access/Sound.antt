-- ===== src/Admin/Access/Sound.antt =====
-- Whom the metrics and the admin API admit.
use tempcdn.Prelude.{◌≡◌, ◌∙◌, ap, Bool-cases, ◌⊎◌, inl, inr, refl, true, [], ◌∷◌, arith}
use mathlib.Core.Path.{subst}
use tempcdn.Text.{Text}
use tempcdn.Action.{Result, ok, err}
use tempcdn.Metadata.Model.{Time, Admin, AdminSession, ApiKey, session_is_expired, Error}
use tempcdn.Metadata.Tables.{AdminDb}
use tempcdn.Metadata.Admins.{
  find_admin_by_id, find_admin_session_by_token_hash, touch_admin_session, delete_admin_session,
}
use tempcdn.Metadata.Admins.Effects.{
  find_admin_by_id-tables, find_admin_session_by_token_hash-tables,
}
use tempcdn.IdGen.{hash_session_token}
use tempcdn.Admin.Model.{AdminError, Platform}
use tempcdn.Admin.Sessions.{
  Session, forget_session, after_admin, with_session, after_session, verify_session,
}
use tempcdn.Admin.Sessions.Valid.{IsValid, verify_session-IsValid}
use tempcdn.Admin.Keys.{verify_api_key}
use tempcdn.Admin.Keys.Valid.{IsLive, verify_api_key-IsLive}
use tempcdn.Admin.Access.{after_verify_session, after_verify_key, verify_api_key_or_admin_session}

module _ (p : Platform) where
  forget_session-api_keys :
      (h : Text) (c : AdminDb) → (forget_session p h c).1.tables.api_keys ≡ c.tables.api_keys
  unfolding forget_session delete_admin_session
  forget_session-api_keys h c = ground arith

  after_admin-api_keys :
      (h : Text) (now : Time) (x : AdminSession) (a : Result Error Admin) (c : AdminDb)
      → (after_admin p h now x a c).1.tables.api_keys ≡ c.tables.api_keys
  unfolding after_admin touch_admin_session forget_session delete_admin_session
  after_admin-api_keys h now x a c = ground arith

  after_session-api_keys :
      (h : Text) (now : Time) (x : Result Error AdminSession) (c : AdminDb)
      → (after_session p h now x c).1.tables.api_keys ≡ c.tables.api_keys
  unfolding after_session with_session
  after_session-api_keys h now (ok x) c = elim (Bool-cases (session_is_expired x now)) [
    | inl old ↦ rw old (forget_session-api_keys h c)
    | inr live ↦ rw live (
        after_admin-api_keys h now x (find_admin_by_id x.admin_id c).0
          (find_admin_by_id x.admin_id c).1
        ∙ ap (λ t. t.api_keys) (find_admin_by_id-tables x.admin_id c))
  ]
  after_session-api_keys h now (err e) c = ground arith

  verify_session-api_keys :
      (token : Text) (now : Time) (c : AdminDb)
      → (verify_session p token now c).1.tables.api_keys ≡ c.tables.api_keys
  unfolding verify_session
  verify_session-api_keys [] now c = refl
  verify_session-api_keys (t ∷ ts) now c =
      let h = hash_session_token p.sha256_hex (t ∷ ts) in
      after_session-api_keys h now (find_admin_session_by_token_hash h c).0
        (find_admin_session_by_token_hash h c).1
      ∙ ap (λ t. t.api_keys) (find_admin_session_by_token_hash-tables h c)

  -- A credential that opens the metrics is the token of a session that is valid, or an API key whose
  -- row is stored and not revoked.
  pub verify_api_key_or_admin_session-eq-true :
      (credential : Text) (now later : Time) (c : AdminDb)
      → (verify_api_key_or_admin_session p credential now later c).0 ≡ true
      → ((s : Session) × IsValid p credential now c.tables s)
        ⊎ ((k : ApiKey) × IsLive p credential c.tables.api_keys k)
  unfolding verify_api_key_or_admin_session
  verify_api_key_or_admin_session-eq-true [] now later c h = absurd (ground arith)
  verify_api_key_or_admin_session-eq-true (t ∷ ts) now later c h =
      by_session (verify_session p (t ∷ ts) now c).0 refl h
    where
      c₁ : AdminDb
      c₁ = (verify_session p (t ∷ ts) now c).1

      by_key :
          (x : Result AdminError ApiKey)
          → (verify_api_key p (t ∷ ts) later c₁).0 ≡ x
          → (after_verify_key p (x, (verify_api_key p (t ∷ ts) later c₁).1)).0 ≡ true
          → (k : ApiKey) × IsLive p (t ∷ ts) c.tables.api_keys k
      by_key (ok k) e g = (
        k,
        subst (λ rows. IsLive p (t ∷ ts) rows k) (verify_session-api_keys (t ∷ ts) now c)
            (verify_api_key-IsLive p (t ∷ ts) later c₁ k e),
      )
      by_key (err x) e g = absurd (ground arith)

      by_session :
          (x : Result AdminError Session)
          → (verify_session p (t ∷ ts) now c).0 ≡ x
          → (after_verify_session p (t ∷ ts) later (x, c₁)).0 ≡ true
          → ((s : Session) × IsValid p (t ∷ ts) now c.tables s)
            ⊎ ((k : ApiKey) × IsLive p (t ∷ ts) c.tables.api_keys k)
      by_session (ok s) e g = inl (s, verify_session-IsValid p (t ∷ ts) now c s e)
      by_session (err x) e g = inr (by_key (verify_api_key p (t ∷ ts) later c₁).0 refl g)

-- ===== src/Admin/Sessions/Valid.antt =====
-- When a session token is accepted.
use tempcdn.Prelude.{◌≤◌, ◌≡◌, ◌≢◌, ap, refl, false, some, [], ◌∷◌, arith, inl, inr, Bool-cases}
use tempcdn.Text.{Text, same}
use tempcdn.Action.{Result, ok, err, wrap, pure}
use tempcdn.Action.Keeps.{bind_of_ok, wrap_of_ok}
use tempcdn.IdGen.{hash_session_token}
use tempcdn.Metadata.Model.{Time, Admin, AdminSession, session_is_expired, Error}
use tempcdn.Metadata.Sql.{first_where}
use tempcdn.Metadata.Tables.{AdminTables, AdminDb}
use tempcdn.Metadata.Admins.{
  has_token, find_admin_by_id, find_admin_session_by_token_hash, touch_admin_session,
  delete_admin_session,
}
use tempcdn.Metadata.Admins.Effects.{
  Working, find_admin_by_id-eq-ok, find_admin_by_id_of_some, find_admin_by_id-Working,
  find_admin_session_by_token_hash-eq-ok, find_admin_session_by_token_hash_of_some,
  find_admin_session_by_token_hash-tables, find_admin_session_by_token_hash-Working,
  touch_admin_session_of_Working,
}
use tempcdn.Admin.Model.{AdminError, repository, Platform}
use tempcdn.Admin.Sessions.{
  Session, forget_session, after_admin, with_session, after_session, verify_session,
}

module _ (p : Platform) where
  -- The token's session is stored, it has not expired, and its account is there.
  pub record IsValid (token : Text) (now : Time) (t : AdminTables) (s : Session) : Type 0 where
    pub given : token ≢ []
    pub stored :
        first_where (has_token (hash_session_token p.sha256_hex token)) t.sessions ≡ some s.session
    pub account : first_where (λ a. same a.id s.session.admin_id) t.admins ≡ some s.admin
    pub not_expired : now ≤ s.session.expires_at

  after_admin-eq-ok :
      (token_hash : Text) (now : Time) (x : AdminSession) (a : Result Error Admin) (c : AdminDb)
      (s : Session)
      → (after_admin p token_hash now x a c).0 ≡ ok s
      → (a ≡ ok s.admin) × (x ≡ s.session)
  unfolding after_admin forget_session touch_admin_session delete_admin_session
  after_admin-eq-ok token_hash now x a c s h = ground arith

  -- A token that is accepted is valid.
  pub verify_session-IsValid :
      (token : Text) (now : Time) (c : AdminDb) (s : Session)
      → (verify_session p token now c).0 ≡ ok s
      → IsValid token now c.tables s
  unfolding verify_session after_session with_session session_is_expired forget_session
      delete_admin_session
  verify_session-IsValid [] now c s h = absurd (ground arith)
  verify_session-IsValid (t ∷ ts) now c s h =
      go (find_admin_session_by_token_hash token_hash c).0 refl h
    where
      token_hash : Text
      token_hash = hash_session_token p.sha256_hex (t ∷ ts)

      c₁ : AdminDb
      c₁ = (find_admin_session_by_token_hash token_hash c).1

      go :
          (r : Result Error AdminSession)
          → (find_admin_session_by_token_hash token_hash c).0 ≡ r
          → (after_session p token_hash now r c₁).0 ≡ ok s
          → IsValid (t ∷ ts) now c.tables s
      go (err e) q k = absurd (ground arith)
      go (ok x) q k = elim (Bool-cases (session_is_expired x now)) [
        | inl old ↦ absurd (ground arith)
        | inr live ↦
            let (a, e) =
              after_admin-eq-ok token_hash now x (find_admin_by_id x.admin_id c₁).0
                (find_admin_by_id x.admin_id c₁).1 s (ground arith) in
            let at = find_admin_by_id-eq-ok x.admin_id c₁ s.admin a in
            record {
              given = λ n. cc;
              stored = rw (← e) (find_admin_session_by_token_hash-eq-ok token_hash c x q);
              account = rw (← e, ← find_admin_session_by_token_hash-tables token_hash c) at;
              not_expired = rw (← e) (ground arith);
            }
      ]

  -- Over a working database a valid token is accepted.
  pub verify_session_of_IsValid :
      (token : Text) (now : Time) (c : AdminDb) (s : Session)
      → Working c
      → IsValid token now c.tables s
      → (verify_session p token now c).0 ≡ ok s
  unfolding verify_session after_session with_session session_is_expired after_admin
  verify_session_of_IsValid [] now c s w v = absurd (v.given refl)
  verify_session_of_IsValid (t ∷ ts) now c s w v =
      rw (found, live, account)
        (ap {B = Result AdminError Session} (λ q. q.0)
          (bind_of_ok (wrap repository (touch_admin_session token_hash now)) (λ _. pure s) c₂ tt
            touched))
    where
      token_hash : Text
      token_hash = hash_session_token p.sha256_hex (t ∷ ts)

      c₁ : AdminDb
      c₁ = (find_admin_session_by_token_hash token_hash c).1

      c₂ : AdminDb
      c₂ = (find_admin_by_id s.session.admin_id c₁).1

      found : (find_admin_session_by_token_hash token_hash c).0 ≡ ok s.session
      found = find_admin_session_by_token_hash_of_some token_hash c s.session w v.stored

      w₁ : Working c₁
      w₁ = find_admin_session_by_token_hash-Working token_hash c w

      live : session_is_expired s.session now ≡ false
      live = ground (arith, v.not_expired)

      account : (find_admin_by_id s.session.admin_id c₁).0 ≡ ok s.admin
      account =
          find_admin_by_id_of_some s.session.admin_id c₁ s.admin w₁
            (rw (find_admin_session_by_token_hash-tables token_hash c) v.account)

      touched : (wrap {F = AdminError} repository (touch_admin_session token_hash now) c₂).0 ≡ ok tt
      touched = wrap_of_ok repository (touch_admin_session token_hash now) c₂ tt (
          touch_admin_session_of_Working token_hash now c₂
            (find_admin_by_id-Working s.session.admin_id c₁ w₁))

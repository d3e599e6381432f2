-- ===== src/Admin/Sessions/Login.antt =====
-- What a login creates.
use tempcdn.Prelude.{
  ◌+◌, ◌≤◌, ◌≡◌, ◌≢◌, ◌∙◌, sym, ap, refl, true, false, ◌||◌, Option, none, some, [], ◌∷◌, ◌++◌,
  arith, inl, inr, Bool-cases, any,
}
use tempcdn.Text.{Text, same, trim_space, is_empty}
use tempcdn.Text.Laws.{same_iff, same_refl}
use mathlib.Core.Path.{subst}
use tempcdn.Action.{Result, ok, err, Action, wrap, pure, ◌>>=◌}
use tempcdn.Action.Keeps.{bind-eq-ok, bind_of_ok, wrap-eq-ok}
use tempcdn.IdGen.{hash_session_token}
use tempcdn.Metadata.Model.{Time, stored_time, Admin, Error}
use tempcdn.Metadata.Sql.{first_where, update_where}
use tempcdn.Metadata.Tables.{AdminTables, AdminDb}
use tempcdn.Metadata.Admins.{
  has_token, stored_session, find_admin_by_username, insert_admin_session, touch_admin_last_login,
  logged_in,
}
use tempcdn.Metadata.Admins.Effects.{
  Working, find_admin_by_username-eq-ok, find_admin_by_username-tables, insert_admin_session-eq-ok,
  touch_admin_last_login-eq-ok, first_where_append, first_where_update,
}
use tempcdn.Admin.Model.{AdminError, repository, Platform}
use tempcdn.Admin.Sessions.{
  session_ttl, Session, LoginResult, new_session, start_session, after_account, login,
  verify_session,
}
use tempcdn.Admin.Sessions.Valid.{verify_session_of_IsValid}

module _ (p : Platform) where
  -- The tables after the session of this token was started for this account.
  pub record IsStarted (token : Text) (now : Time) (a : Admin) (t t' : AdminTables) : Type 0 where
    pub new_token : any (has_token (hash_session_token p.sha256_hex token)) t.sessions ≡ false
    pub has_account : any (λ b. same b.id a.id) t.admins ≡ true
    pub sessions : t'.sessions ≡ t.sessions ++ stored_session (new_session p token now a) ∷ []
    pub admins : t'.admins ≡ update_where (λ b. same b.id a.id) (logged_in now) t.admins

  abbrev result_of : Text → Time → Admin → LoginResult
  result_of token now a = record { token = token; admin = a; session = new_session p token now a }

  -- The two statements of a session that is started have succeeded.
  start_session-IsStarted :
      (token : Option Text) (now : Time) (a : Admin) (c : AdminDb) (r : LoginResult)
      → (start_session p token now a c).0 ≡ ok r
      → (token ≡ some r.token)
        × (result_of r.token now a ≡ r)
        × IsStarted r.token now a c.tables (start_session p token now a c).1.tables
  unfolding start_session
  start_session-IsStarted none now a c r h = absurd (ground arith)
  start_session-IsStarted (some t) now a c r h =
      subst
        (λ r.
          (some t ≡ some r.token)
          × (result_of r.token now a ≡ r)
          × IsStarted r.token now a c.tables (start_session p (some t) now a c).1.tables)
        same_result (refl, refl, rw (ap {B = AdminDb} (λ q. q.1) run_eq) started)
    where
      insertion : Action AdminDb AdminError (Unit {0})
      insertion = wrap repository (insert_admin_session (new_session p t now a))

      touch : Action AdminDb AdminError (Unit {0})
      touch = wrap repository (touch_admin_last_login a.id now)

      rest : Unit {0} → Action AdminDb AdminError LoginResult
      rest _ = touch >>= λ _. pure (result_of t now a)

      c₁ : AdminDb
      c₁ = (insert_admin_session (new_session p t now a) c).1

      c₂ : AdminDb
      c₂ = (touch_admin_last_login a.id now c₁).1

      first : (u : Unit {0}) × ((insertion c).0 ≡ ok u) × ((rest u c₁).0 ≡ ok r)
      first = bind-eq-ok insertion rest c r h

      second :
          (u : Unit {0}) × ((touch c₁).0 ≡ ok u)
          × (◌≡◌ {A = Result AdminError LoginResult} (ok (result_of t now a)) (ok r))
      second = bind-eq-ok touch (λ _. pure (result_of t now a)) c₁ r first.2

      same_result : result_of t now a ≡ r
      same_result = let e = second.2 in ground arith

      run_eq : start_session p (some t) now a c ≡ (ok (result_of t now a), c₂)
      run_eq =
          bind_of_ok insertion rest c first.0 first.1
          ∙ bind_of_ok touch (λ _. pure (result_of t now a)) c₁ second.0 second.1

      inserted :
          (c₁.tables ≡ record c.tables {
            sessions = c.tables.sessions ++ stored_session (new_session p t now a) ∷ [];
          })
          × (any (has_token (hash_session_token p.sha256_hex t)) c.tables.sessions ≡ false)
          × (any (λ b. same b.id a.id) c.tables.admins ≡ true)
      inserted =
          insert_admin_session-eq-ok (new_session p t now a) c first.0
            (wrap-eq-ok repository (insert_admin_session (new_session p t now a)) c first.0 first.1)

      touched : c₂.tables ≡ record c₁.tables {
        admins = update_where (λ b. same b.id a.id) (logged_in now) c₁.tables.admins;
      }
      touched =
          touch_admin_last_login-eq-ok a.id now c₁ second.0
            (wrap-eq-ok repository (touch_admin_last_login a.id now) c₁ second.0 second.1)

      started : IsStarted t now a c.tables c₂.tables
      started = record {
        new_token = inserted.1;
        has_account = inserted.2;
        sessions = rw (touched, inserted.0) refl;
        admins = rw (touched, inserted.0) refl;
      }

  -- The credentials of an account.
  pub record IsCredentials (username password : Text) (t : AdminTables) (a : Admin) : Type 0 where
    pub has_password : password ≢ []
    pub account : first_where (λ b. same b.username (trim_space username)) t.admins ≡ some a
    pub right_password : p.password_matches a.password_hash password ≡ true

  -- A login that succeeds was given the credentials of an account. It has added one session, for the
  -- new token and this account, which expires a day later, and stamped the account, each time to the
  -- microsecond; the token's hash
  -- was not in use.
  pub login-eq-ok :
      (username password : Text) (token : Option Text) (now : Time) (c : AdminDb) (r : LoginResult)
      → (login p username password token now c).0 ≡ ok r
      → IsCredentials username password c.tables r.admin
        × (token ≡ some r.token)
        × (r.session ≡ new_session p r.token now r.admin)
        × IsStarted r.token now r.admin c.tables (login p username password token now c).1.tables
  unfolding login after_account
  login-eq-ok username password token now c r h =
      elim (Bool-cases (is_empty (trim_space username) || is_empty password)) [
        | inl bad ↦ absurd (ground arith)
        | inr fine ↦ rw fine (
            go (find_admin_by_username (trim_space username) c).0 (λ n. ground (arith, n)) refl
              (rw fine at h))
      ]
    where
      c₁ : AdminDb
      c₁ = (find_admin_by_username (trim_space username) c).1

      begin :
          (a : Admin)
          → password ≢ []
          → (find_admin_by_username (trim_space username) c).0 ≡ ok a
          → p.password_matches a.password_hash password ≡ true
          → (start_session p token now a c₁).0 ≡ ok r
          → IsCredentials username password c.tables r.admin
            × (token ≡ some r.token)
            × (r.session ≡ new_session p r.token now r.admin)
            × IsStarted r.token now r.admin c.tables (start_session p token now a c₁).1.tables
      begin a ne e m k =
          let (t, q, s) = start_session-IsStarted token now a c₁ r k in
          let ea : a ≡ r.admin = ap (λ x. x.admin) q in
          let es : new_session p r.token now a ≡ r.session = ap (λ x. x.session) q in
          (
            record {
              has_password = ne;
              account = rw (← ea) (find_admin_by_username-eq-ok (trim_space username) c a e);
              right_password = rw (← ea) m;
            },
            t,
            rw (← ea) (sym es),
            rw (← ea) (
                subst (λ x. IsStarted r.token now a x (start_session p token now a c₁).1.tables)
                  (find_admin_by_username-tables (trim_space username) c) s),
          )

      go :
          (x : Result Error Admin)
          → password ≢ []
          → (find_admin_by_username (trim_space username) c).0 ≡ x
          → (after_account p password token now x c₁).0 ≡ ok r
          → IsCredentials username password c.tables r.admin
            × (token ≡ some r.token)
            × (r.session ≡ new_session p r.token now r.admin)
            × IsStarted r.token now r.admin c.tables
                (after_account p password token now x c₁).1.tables
      go (ok a) ne e k = elim (Bool-cases (p.password_matches a.password_hash password)) [
        | inl m ↦ rw m (begin a ne e m (rw m at k))
        | inr m ↦ absurd (ground arith)
      ]
      go (err e) ne q k = absurd (ground arith)

  -- A login that succeeds gives a token that is accepted for the same account: let the token not be
  -- empty, let the tables be as the login left them, and let the stored time of the session's expiry,
  -- a day after the login to the microsecond, not have passed. Over a working database the token is
  -- then accepted, for the session as it is stored, its times to the microsecond.
  pub verify_session_of_login :
      (username password : Text) (token : Option Text) (now later : Time) (c d : AdminDb)
      (r : LoginResult)
      → (login p username password token now c).0 ≡ ok r
      → r.token ≢ []
      → later ≤ stored_time (now + session_ttl)
      → Working d
      → d.tables ≡ (login p username password token now c).1.tables
      → (s : Session) × ((verify_session p r.token later d).0 ≡ ok s)
        × (s.session ≡ stored_session r.session)
        × (s.admin.id ≡ r.admin.id)
  verify_session_of_login username password token now later c d r h ne soon w same_tables =
      let (_, _, es, st) = login-eq-ok username password token now c r h in
      let (a, found, same_id) =
        first_where_update (λ b. same b.id r.admin.id) (λ b. same b.id r.admin.id) (logged_in now)
          c.tables.admins (λ b. refl) st.has_account in
      let s : Session = record { admin = a; session = stored_session r.session } in
      (
        s,
        verify_session_of_IsValid p r.token later d s w (record {
          given = ne;
          stored =
              rw (same_tables, st.sessions, es)
                (first_where_append (has_token (hash_session_token p.sha256_hex r.token))
                  c.tables.sessions (stored_session (new_session p r.token now r.admin))
                  st.new_token (same_refl _));
          account = rw (same_tables, st.admins, es) found;
          not_expired = rw es soon;
        }),
        refl,
        (same_iff a.id r.admin.id).0 same_id,
      )

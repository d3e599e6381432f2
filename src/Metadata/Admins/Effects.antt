-- ===== src/Metadata/Admins/Effects.antt =====
-- What the statements on accounts and sessions answer and leave behind.
use tempcdn.Prelude.{
  ◌≡◌, refl, Bool, true, false, not, none, some, List, [], ◌∷◌, ◌++◌, All, any, filter, arith,
  Bool-cases, inl, inr,
}
use tempcdn.Text.{Text, same}
use tempcdn.Action.{ok}
use tempcdn.Metadata.Model.{Time, Admin, AdminSession}
use tempcdn.Metadata.Sql.{first_where, update_where}
use tempcdn.Metadata.Conn.{IsDone}
use tempcdn.Metadata.Tables.{AdminDb}
use tempcdn.Metadata.Admins.{
  stored_session, find_admin_by_username, find_admin_by_id, touch_admin_last_login, logged_in,
  insert_admin_session, has_token, find_admin_session_by_token_hash, touch_admin_session,
  delete_admin_session, without_session,
}

abbrev pub Working : AdminDb → Type 0
Working c = All IsDone c.outcomes

pub find_admin_by_username-eq-ok :
    (username : Text) (c : AdminDb) (a : Admin)
    → (find_admin_by_username username c).0 ≡ ok a
    → first_where (λ b. same b.username username) c.tables.admins ≡ some a
unfolding find_admin_by_username
find_admin_by_username-eq-ok username c a h = ground arith

pub find_admin_by_username-tables :
    (username : Text) (c : AdminDb) → (find_admin_by_username username c).1.tables ≡ c.tables
unfolding find_admin_by_username
find_admin_by_username-tables username c = ground arith

pub find_admin_by_id-eq-ok :
    (id : Text) (c : AdminDb) (a : Admin)
    → (find_admin_by_id id c).0 ≡ ok a
    → first_where (λ b. same b.id id) c.tables.admins ≡ some a
unfolding find_admin_by_id
find_admin_by_id-eq-ok id c a h = ground arith

pub find_admin_by_id_of_some :
    (id : Text) (c : AdminDb) (a : Admin)
    → Working c
    → first_where (λ b. same b.id id) c.tables.admins ≡ some a
    → (find_admin_by_id id c).0 ≡ ok a
unfolding find_admin_by_id
find_admin_by_id_of_some id c a w h = ground arith

pub find_admin_by_id-tables :
    (id : Text) (c : AdminDb) → (find_admin_by_id id c).1.tables ≡ c.tables
unfolding find_admin_by_id
find_admin_by_id-tables id c = ground arith

pub find_admin_by_id-Working :
    (id : Text) (c : AdminDb) → Working c → Working (find_admin_by_id id c).1
unfolding find_admin_by_id
find_admin_by_id-Working id c h = ground arith

pub find_admin_session_by_token_hash-eq-ok :
    (token_hash : Text) (c : AdminDb) (s : AdminSession)
    → (find_admin_session_by_token_hash token_hash c).0 ≡ ok s
    → first_where (has_token token_hash) c.tables.sessions ≡ some s
unfolding find_admin_session_by_token_hash
find_admin_session_by_token_hash-eq-ok token_hash c s h = ground arith

pub find_admin_session_by_token_hash_of_some :
    (token_hash : Text) (c : AdminDb) (s : AdminSession)
    → Working c
    → first_where (has_token token_hash) c.tables.sessions ≡ some s
    → (find_admin_session_by_token_hash token_hash c).0 ≡ ok s
unfolding find_admin_session_by_token_hash
find_admin_session_by_token_hash_of_some token_hash c s w h = ground arith

pub find_admin_session_by_token_hash-tables :
    (token_hash : Text) (c : AdminDb)
    → (find_admin_session_by_token_hash token_hash c).1.tables ≡ c.tables
unfolding find_admin_session_by_token_hash
find_admin_session_by_token_hash-tables token_hash c = ground arith

pub find_admin_session_by_token_hash-Working :
    (token_hash : Text) (c : AdminDb)
    → Working c
    → Working (find_admin_session_by_token_hash token_hash c).1
unfolding find_admin_session_by_token_hash
find_admin_session_by_token_hash-Working token_hash c h = ground arith

pub touch_admin_session_of_Working :
    (token_hash : Text) (now : Time) (c : AdminDb)
    → Working c
    → (touch_admin_session token_hash now c).0 ≡ ok tt
unfolding touch_admin_session
touch_admin_session_of_Working token_hash now c h = ground arith

pub delete_admin_session-eq-ok :
    (token_hash : Text) (c : AdminDb) (u : Unit {0})
    → (delete_admin_session token_hash c).0 ≡ ok u
    → (delete_admin_session token_hash c).1.tables ≡ without_session token_hash c.tables
unfolding delete_admin_session
delete_admin_session-eq-ok token_hash c u h = ground arith

-- A session that was inserted is the only one of its token, and its account is there.
pub insert_admin_session-eq-ok :
    (s : AdminSession) (c : AdminDb) (u : Unit {0})
    → (insert_admin_session s c).0 ≡ ok u
    → ((insert_admin_session s c).1.tables
        ≡ record c.tables { sessions = c.tables.sessions ++ stored_session s ∷ [] })
      × (any (has_token s.token_hash) c.tables.sessions ≡ false)
      × (any (λ a. same a.id s.admin_id) c.tables.admins ≡ true)
unfolding insert_admin_session
insert_admin_session-eq-ok s c u h = ground arith

pub touch_admin_last_login-eq-ok :
    (id : Text) (now : Time) (c : AdminDb) (u : Unit {0})
    → (touch_admin_last_login id now c).0 ≡ ok u
    → (touch_admin_last_login id now c).1.tables ≡ record c.tables {
      admins = update_where (λ a. same a.id id) (logged_in now) c.tables.admins;
    }
unfolding touch_admin_last_login
touch_admin_last_login-eq-ok id now c u h = ground arith

pub first_where_without :
    (token_hash : Text) (rows : List AdminSession)
    → first_where (has_token token_hash) (filter (λ s. not (has_token token_hash s)) rows) ≡ none
unfolding first_where
first_where_without token_hash [] = refl
first_where_without token_hash (q ∷ rows) = elim (Bool-cases (has_token token_hash q)) [
  | inl t ↦ rw t (first_where_without token_hash rows)
  | inr f ↦ rw (f, f) (first_where_without token_hash rows)
]

pub first_where_append :
    {A : Type 0} (test : A → Bool) (rows : List A) (x : A)
    → any test rows ≡ false
    → test x ≡ true
    → first_where test (rows ++ x ∷ []) ≡ some x
unfolding first_where
first_where_append test [] x h t = rw t
first_where_append test (q ∷ rows) x h t = ground (arith, first_where_append test rows x)

-- A change that keeps the tested property.
pub first_where_update :
    {A : Type 0} (test at : A → Bool) (change : A → A) (rows : List A)
    → ((a : A) → test (change a) ≡ test a)
    → any test rows ≡ true
    → (a : A) × (first_where test (update_where at change rows) ≡ some a) × (test a ≡ true)
unfolding first_where update_where
first_where_update test at change [] k h = absurd (ground arith)
first_where_update test at change (q ∷ rows) k h = elim (Bool-cases (test q)) [
  | inl t ↦ elim (Bool-cases (at q)) [
    | inl e ↦ (change q, rw (e, k q, t), rw (k q, t))
    | inr e ↦ (q, rw (e, t), t)
  ]
  | inr f ↦
      let (a, e, t) = first_where_update test at change rows k (ground arith) in
      elim (Bool-cases (at q)) [ inl b ↦ (a, rw (b, k q, f) e, t) | inr b ↦ (a, rw (b, f) e, t) ]
]

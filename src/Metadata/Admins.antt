-- ===== src/Metadata/Admins.antt =====
-- internal/metadata/postgres_repository_admin.go: the statements on the tables `admins` and
-- `admin_sessions`.
pub mod Effects
use tempcdn.Prelude.{
  ℕ, Bool, true, false, not, ◌||◌, Option, none, some, List, [], ◌∷◌, ◌++◌, leb, if◌then◌else◌, any,
  filter, length,
}
use tempcdn.Text.{Text, same}
use tempcdn.Action.{Action, pure, raise, wrap, or_raise, ◌>>=◌, ◌>>◌}
use tempcdn.Metadata.Model.{
  Time, stored_time, stored_option, Admin, AdminSession, Cause, Error, admin_not_found,
  admin_username_taken, admin_session_not_found, unique_violation, database,
}
use tempcdn.Metadata.Sql.{first_where, update_where}
use tempcdn.Metadata.Conn.{run, query}
use tempcdn.Metadata.Tables.{AdminTables, AdminDb}

abbrev pub stored_admin : Admin → Admin
stored_admin a = record a {
  created_at = stored_time a.created_at;
  last_login_at = stored_option a.last_login_at;
}

-- False says that the primary key or the name is taken.
abbrev pub insert_admin_row : Admin → AdminTables → Bool × AdminTables
insert_admin_row a t =
    if any (λ b. same b.id a.id || same b.username a.username) t.admins
    then (false, t)
    else (true, record t { admins = t.admins ++ stored_admin a ∷ [] })

unfoldable pub insert_admin : Admin → Action AdminDb Error (Unit {0})
unfolding run
insert_admin a = do
  inserted ← wrap database (run (insert_admin_row a))
  if inserted then pure tt else raise admin_username_taken

unfoldable pub find_admin_by_username : Text → Action AdminDb Error Admin
unfolding query
find_admin_by_username username = do
  row ← wrap database (query (λ t. first_where (λ a. same a.username username) t.admins))
  or_raise row admin_not_found

unfoldable pub find_admin_by_id : Text → Action AdminDb Error Admin
unfolding query
find_admin_by_id id = do
  row ← wrap database (query (λ t. first_where (λ a. same a.id id) t.admins))
  or_raise row admin_not_found

unfoldable pub count_admins : Action AdminDb Error ℕ
unfolding query
count_admins = wrap database (query (λ t. length t.admins))

abbrev pub logged_in : Time → Admin → Admin
logged_in now a = record a { last_login_at = some (stored_time now) }

unfoldable pub touch_admin_last_login : Text → Time → Action AdminDb Error (Unit {0})
unfolding run
touch_admin_last_login admin_id now = wrap database (
    run (λ t.
      (tt, record t { admins = update_where (λ a. same a.id admin_id) (logged_in now) t.admins })))

-- What the insertion of a session meets: the constraints of the table, or none of them.
pub data Inserted : Type 0 where
  inserted token_taken no_such_admin : Inserted

abbrev pub has_token : Text → AdminSession → Bool
has_token token_hash s = same s.token_hash token_hash

abbrev pub stored_session : AdminSession → AdminSession
stored_session s = record s {
  created_at = stored_time s.created_at;
  expires_at = stored_time s.expires_at;
  last_used_at = stored_time s.last_used_at;
}

abbrev pub insert_session_row : AdminSession → AdminTables → Inserted × AdminTables
insert_session_row s t =
    if any (has_token s.token_hash) t.sessions
    then (token_taken, t)
    else if any (λ a. same a.id s.admin_id) t.admins
    then (inserted, record t { sessions = t.sessions ++ stored_session s ∷ [] })
    else (no_such_admin, t)

abbrev pub inserted_answer : Inserted → Action AdminDb Error (Unit {0})
inserted_answer inserted = pure tt
inserted_answer token_taken = raise unique_violation
inserted_answer no_such_admin = raise (database Cause.other)

unfoldable pub insert_admin_session : AdminSession → Action AdminDb Error (Unit {0})
unfolding run
insert_admin_session s = do
  answer ← wrap database (run (insert_session_row s))
  inserted_answer answer

unfoldable pub find_admin_session_by_token_hash : Text → Action AdminDb Error AdminSession
unfolding query
find_admin_session_by_token_hash token_hash = do
  row ← wrap database (query (λ t. first_where (has_token token_hash) t.sessions))
  or_raise row admin_session_not_found

abbrev pub used : Time → AdminSession → AdminSession
used now s = record s { last_used_at = stored_time now }

unfoldable pub touch_admin_session : Text → Time → Action AdminDb Error (Unit {0})
unfolding run
touch_admin_session token_hash now = wrap database (
    run (λ t.
      (tt, record t { sessions = update_where (has_token token_hash) (used now) t.sessions })))

abbrev pub without_session : Text → AdminTables → AdminTables
without_session token_hash t = record t {
  sessions = filter (λ s. not (has_token token_hash s)) t.sessions;
}

unfoldable pub delete_admin_session : Text → Action AdminDb Error (Unit {0})
unfolding run
delete_admin_session token_hash = wrap database (run (λ t. (tt, without_session token_hash t)))

unfoldable pub delete_expired_admin_sessions : Time → Action AdminDb Error (Unit {0})
unfolding run
delete_expired_admin_sessions before = wrap database (
    run (λ t. (tt, record t { sessions = filter (λ s. not (leb s.expires_at before)) t.sessions })))

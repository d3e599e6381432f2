-- ===== src/Metadata/ApiKeys.antt =====
-- internal/metadata/postgres_repository_apikeys.go: the statements on the table `api_keys`.
use tempcdn.Prelude.{
  Bool, true, false, not, ◌&&◌, ◌||◌, some, List, [], ◌∷◌, ◌++◌, leb, if◌then◌else◌, any,
}
use tempcdn.Text.{Text, same}
use tempcdn.Action.{Action, pure, raise, wrap, or_raise, ◌>>=◌}
use tempcdn.Metadata.Model.{
  Time, stored_time, stored_option, ApiKey, is_revoked, Error, api_key_not_found, unique_violation,
  database,
}
use tempcdn.Metadata.Sql.{first_where, update_where, order_by}
use tempcdn.Metadata.Conn.{run, query}
use tempcdn.Metadata.Tables.{AdminTables, AdminDb}

abbrev pub stored_key : ApiKey → ApiKey
stored_key k = record k {
  created_at = stored_time k.created_at;
  last_used_at = stored_option k.last_used_at;
  revoked_at = stored_option k.revoked_at;
}

-- False says that the primary key or the hash is taken.
abbrev pub insert_key_row : ApiKey → AdminTables → Bool × AdminTables
insert_key_row k t =
    if any (λ j. same j.id k.id || same j.token_hash k.token_hash) t.api_keys
    then (false, t)
    else (true, record t { api_keys = t.api_keys ++ stored_key k ∷ [] })

unfoldable pub insert_api_key : ApiKey → Action AdminDb Error (Unit {0})
unfolding run
insert_api_key k = do
  inserted ← wrap database (run (insert_key_row k))
  if inserted then pure tt else raise unique_violation

abbrev pub has_hash : Text → ApiKey → Bool
has_hash token_hash k = same k.token_hash token_hash

unfoldable pub find_api_key_by_token_hash : Text → Action AdminDb Error ApiKey
unfolding query
find_api_key_by_token_hash token_hash = do
  row ← wrap database (query (λ t. first_where (has_hash token_hash) t.api_keys))
  or_raise row api_key_not_found

unfoldable pub list_api_keys : Action AdminDb Error (List ApiKey)
unfolding query order_by
list_api_keys =
    wrap database (query (λ t. order_by (λ a b. leb b.created_at a.created_at) t.api_keys))

unfoldable pub touch_api_key : Text → Time → Action AdminDb Error (Unit {0})
unfolding run
touch_api_key id now = wrap database (
    run (λ t. (
      tt,
      record t {
        api_keys =
            update_where (λ k. same k.id id)
              (λ k. record k { last_used_at = some (stored_time now) }) t.api_keys;
      },
    )))

abbrev pub revoked_at_time : Time → ApiKey → ApiKey
revoked_at_time now k = record k { revoked_at = some (stored_time now) }

-- Keys that are revoked already keep their time.
unfoldable pub revoke_api_key : Text → Time → Action AdminDb Error (Unit {0})
unfolding run is_revoked
revoke_api_key id now = wrap database (
    run (λ t. (
      tt,
      record t {
        api_keys =
            update_where (λ k. same k.id id && not (is_revoked k)) (revoked_at_time now) t.api_keys;
      },
    )))

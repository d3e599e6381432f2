-- ===== src/Admin/Keys.antt =====
-- internal/admin/service.go: `CreateAPIKey`, `ListAPIKeys`, `RevokeAPIKey` and `VerifyAPIKey`.
pub mod Valid
pub mod Revoked
use tempcdn.Prelude.{Bool, true, false, Option, none, some, List, [], ◌∷◌, if◌then◌else◌}
use tempcdn.Text.{Text, is_empty, trim_space}
use tempcdn.Action.{Result, ok, err, Action, pure, raise, attempt, wrap, ◌>>=◌, ◌>>◌}
use tempcdn.IdGen.{hash_api_key, new_api_key}
use tempcdn.Metadata.Model.{Time, ApiKey, is_revoked, Error, api_key_not_found}
use tempcdn.Metadata.Tables.{AdminDb}
use tempcdn.Metadata.ApiKeys.{
  insert_api_key, find_api_key_by_token_hash, list_api_keys, touch_api_key, revoke_api_key,
}
use tempcdn.Admin.Model.{
  AdminError, api_key_invalid, token_generation, empty_key_name, repository, Platform,
}

pub record CreateApiKeyResult : Type 0 where
  pub key : Text
  pub key_record : ApiKey

module _ (p : Platform) where
  abbrev pub new_key_record : Text → Text → Text → Time → ApiKey
  new_key_record id name key now = record {
    id = id;
    name = name;
    token_hash = hash_api_key p.sha256_hex key;
    created_at = now;
    last_used_at = none;
    revoked_at = none;
  }

  -- From the new key to the end.
  unfoldable pub store_key :
      Text → Text → Option Text → Time → Action AdminDb AdminError CreateApiKeyResult
  store_key id name none now = raise token_generation
  store_key id name (some key) now = do
    wrap repository (insert_api_key (new_key_record id name key now))
    pure (record { key = key; key_record = new_key_record id name key now })

  -- `random` is what the random source gives for the key, and `id` the new identifier.
  unfoldable pub create_api_key :
      Text → Option Text → Text → Time → Action AdminDb AdminError CreateApiKeyResult
  unfolding trim_space new_api_key
  create_api_key name random id now =
      if is_empty (trim_space name)
      then raise empty_key_name
      else store_key id (trim_space name) (new_api_key random) now

  unfoldable pub list_keys : Action AdminDb AdminError (List ApiKey)
  list_keys = wrap repository list_api_keys

  unfoldable pub revoke_key : Text → Time → Action AdminDb AdminError (Unit {0})
  revoke_key id now = wrap repository (revoke_api_key id now)

  -- What is done with the answer of `FindAPIKeyByTokenHash`.
  unfoldable pub after_key : Time → Result Error ApiKey → Action AdminDb AdminError ApiKey
  unfolding is_revoked
  after_key now (ok k) =
      if is_revoked k
      then raise api_key_invalid
      else do wrap repository (touch_api_key k.id now); pure k
  after_key now (err api_key_not_found) = raise api_key_invalid
  after_key now (err e) = raise (repository e)

  unfoldable pub verify_api_key : Text → Time → Action AdminDb AdminError ApiKey
  verify_api_key key now = if is_empty key then raise api_key_invalid else do
    found ← attempt (find_api_key_by_token_hash (hash_api_key p.sha256_hex key))
    after_key now found

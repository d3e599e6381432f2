-- ===== src/IdGen.antt =====
-- internal/idgen/idgen.go. SHA-256 in hexadecimal (crypto/sha256, encoding/hex) is the parameter
-- `sha256_hex`. Random bytes and UUIDs come in as arguments where a component draws them; `none`
-- stands for a failure of crypto/rand.
pub mod Laws
pub mod Hex
mod Tests
use tempcdn.Prelude.{Bool, true, false, ◌||◌, ◌++◌, Option, none, some, if◌then◌else◌}
use tempcdn.Text.{Text, same, is_empty, lit}

-- The three token kinds share these bodies: the hash that is stored, and the comparison of a
-- candidate with it. `subtle.ConstantTimeCompare` is 1 exactly for equal texts.
module _ (sha256_hex : Text → Text) where
  unfoldable pub hash_delete_token : Text → Text
  hash_delete_token token = sha256_hex token

  unfoldable pub hash_session_token : Text → Text
  hash_session_token token = sha256_hex token

  unfoldable pub hash_api_key : Text → Text
  hash_api_key key = sha256_hex key

  unfoldable pub delete_token_matches : Text → Text → Bool
  delete_token_matches candidate stored =
      if is_empty candidate || is_empty stored
      then false
      else same (hash_delete_token candidate) stored

  unfoldable pub session_token_matches : Text → Text → Bool
  session_token_matches candidate stored =
      if is_empty candidate || is_empty stored
      then false
      else same (hash_session_token candidate) stored

  unfoldable pub api_key_matches : Text → Text → Bool
  api_key_matches candidate stored =
      if is_empty candidate || is_empty stored then false else same (hash_api_key candidate) stored

abbrev pub api_key_prefix : Text
api_key_prefix = lit "tcdn_"

-- `random` is the hexadecimal form of the 32 bytes that were drawn.
unfoldable pub new_api_key : Option Text → Option Text
new_api_key none = none
new_api_key (some random) = some (api_key_prefix ++ random)

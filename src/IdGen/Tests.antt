-- ===== src/IdGen/Tests.antt =====
-- A token against a stored hash, and tokens of two sources.
use tempcdn.Prelude.{
  ℕ, zero, suc, ◌<◌, ◌≡◌, ◌↔◌, refl, true, false, Option, some, [], ◌∷◌, ◌++◌, length, All, arith,
}
use tempcdn.Text.{Text, lit, same}
use tempcdn.Storage.{Bytes}
use tempcdn.IdGen.{api_key_prefix, hash_delete_token, delete_token_matches}
use tempcdn.IdGen.Hex.{new_session_token, new_random_api_key, IsByte, IsHex, tokens-IsHex}

accepted : delete_token_matches (λ s. b'#' ∷ s) (lit "t0") (lit "#t0") ≡ true
unfolding delete_token_matches hash_delete_token same
accepted = refl

refused : delete_token_matches (λ s. b'#' ∷ s) [] (lit "#") ≡ false
unfolding delete_token_matches hash_delete_token same
refused = refl

abbrev repeated : ℕ → ℕ → Bytes
repeated zero b = []
repeated (suc n) b = b ∷ repeated n b

repeated-IsByte : (n b : ℕ) → b < 256 → All IsByte (repeated n b)
repeated-IsByte zero b h = tt
repeated-IsByte (suc n) b h = (h, repeated-IsByte n b h)

source : ℕ → ℕ → Option Bytes
source b n = some (repeated n b)

tokens-IsHex_example :
    (t : Text) × (new_session_token (source 7) ≡ some t)
    × (new_random_api_key (source 7) ≡ some (api_key_prefix ++ t))
    × (length t ≡ 64)
    × (length (api_key_prefix ++ t) ≡ 69)
    × All IsHex t
    × ((new_session_token (source 7) ≡ new_session_token (source 200))
        ↔ (repeated 32 7 ≡ repeated 32 200))
    × ((new_random_api_key (source 7) ≡ new_random_api_key (source 200))
        ↔ (repeated 32 7 ≡ repeated 32 200))
unfolding source
tokens-IsHex_example =
    tokens-IsHex (source 7) (source 200) (repeated 32 7) (repeated 32 200) refl refl
      (record { long_enough = refl; are_bytes = repeated-IsByte 32 7 (omega arith) })
      (record { long_enough = refl; are_bytes = repeated-IsByte 32 200 (omega arith) })

-- ===== src/IdGen/Hex.antt =====
-- The random tokens of internal/idgen/idgen.go and `randomHex` of internal/nodestatus/nodeid.go: bytes
-- that `crypto/rand` gives, or `none` if it fails, in the encoding of `encoding/hex`.
use tempcdn.Prelude.{
  ℕ, ◌+◌, ◌-◌, ◌*◌, ◌/◌, ◌%◌, ◌<◌, ◌≤◌, ◌≡◌, ◌∙◌, sym, ap, refl, Option, none, some, [], ◌∷◌, ◌++◌,
  length, ltb, if◌then◌else◌, All, arith, ◌⊎◌, ◌↔◌,
}
use tempcdn.Text.{Text}
use tempcdn.Storage.{Bytes}
use tempcdn.IdGen.{api_key_prefix, new_api_key}

-- A digit of the table `0123456789abcdef`.
abbrev pub hex_digit : ℕ → ℕ
hex_digit d = if ltb d 10 then d + b'0' else d - 10 + b'a'

-- `hex.EncodeToString`
unfoldable pub encode_to_string : Bytes → Text
encode_to_string [] = []
encode_to_string (b ∷ bytes) = hex_digit (b / 16) ∷ hex_digit (b % 16) ∷ encode_to_string bytes

abbrev pub encoded : Option Bytes → Option Text
encoded none = none
encoded (some bytes) = some (encode_to_string bytes)

-- `random n` is what `rand.Read` gives for a buffer of `n` bytes.
module _ (random : ℕ → Option Bytes) where
  unfoldable pub new_session_token : Option Text
  unfolding encode_to_string
  new_session_token = encoded (random 32)

  unfoldable pub new_delete_token : Option Text
  unfolding encode_to_string
  new_delete_token = encoded (random 32)

  -- The whole of `NewAPIKey`.
  unfoldable pub new_random_api_key : Option Text
  unfolding encode_to_string new_api_key
  new_random_api_key = new_api_key (encoded (random 32))

  unfoldable pub random_hex : ℕ → Option Text
  unfolding encode_to_string
  random_hex byte_len = encoded (random byte_len)

-- The inverse, as a specification.
abbrev value_of : ℕ → ℕ
value_of c = if ltb c b'a' then c - b'0' else c - b'a' + 10

decoded : Text → Bytes
decoded [] = []
decoded (c ∷ []) = []
decoded (c ∷ d ∷ text) = (value_of c * 16 + value_of d) ∷ decoded text

value_of-hex_digit : (d : ℕ) → d < 16 → value_of (hex_digit d) ≡ d
value_of-hex_digit d h = ground arith

abbrev pub IsByte : ℕ → Type 0
IsByte b = b < 256

-- A lower-case hexadecimal digit.
abbrev pub IsHex : ℕ → Type 0
IsHex c = ((b'0' ≤ c) × (c ≤ b'9')) ⊎ ((b'a' ≤ c) × (c ≤ b'f'))

decoded-encode : (bytes : Bytes) → All IsByte bytes → decoded (encode_to_string bytes) ≡ bytes
unfolding decoded encode_to_string
decoded-encode [] h = refl
decoded-encode (b ∷ bytes) (low, h) =
    let high_digit : value_of (hex_digit (b / 16)) ≡ b / 16 =
      value_of-hex_digit (b / 16) (omega arith) in
    let low_digit : value_of (hex_digit (b % 16)) ≡ b % 16 =
      value_of-hex_digit (b % 16) (omega arith) in
    let byte : b / 16 * 16 + b % 16 ≡ b = omega arith in
    rw (high_digit, low_digit, byte, decoded-encode bytes h) refl

length-encode : (bytes : Bytes) → length (encode_to_string bytes) ≡ 2 * length bytes
unfolding encode_to_string
length-encode [] = refl
length-encode (b ∷ bytes) = omega (arith, length-encode bytes)

hex_digit-IsHex : (d : ℕ) → d < 16 → IsHex (hex_digit d)
hex_digit-IsHex d h = ground arith

encode-IsHex : (bytes : Bytes) → All IsByte bytes → All IsHex (encode_to_string bytes)
unfolding encode_to_string
encode-IsHex [] h = tt
encode-IsHex (b ∷ bytes) (low, h) = (
  hex_digit-IsHex (b / 16) (omega arith),
  (hex_digit-IsHex (b % 16) (omega arith), encode-IsHex bytes h),
)

-- What a source of random bytes gives: as many bytes as the buffer has.
pub record IsDraw (n : ℕ) (bytes : Bytes) : Type 0 where
  pub long_enough : length bytes ≡ n
  pub are_bytes : All IsByte bytes

encode-injective :
    (a b : Bytes) → All IsByte a → All IsByte b → encode_to_string a ≡ encode_to_string b → a ≡ b
encode-injective a b h k e = sym (decoded-encode a h) ∙ ap decoded e ∙ decoded-encode b k

some-injective : (s t : Text) → some s ≡ some t → s ≡ t
some-injective s t e = ground arith

prefix-injective : (s t : Text) → api_key_prefix ++ s ≡ api_key_prefix ++ t → s ≡ t
prefix-injective s t e = ground arith

module _ (r s : ℕ → Option Bytes) (a b : Bytes) (r_draw : r 32 ≡ some a) (s_draw : s 32 ≡ some b)
    (a_drawn : IsDraw 32 a) (b_drawn : IsDraw 32 b) where
  -- Where the random source gives 32 bytes, a session token has 64 characters, all of them lower-case
  -- hexadecimal digits, and an API key is the prefix with such a text, of 69 characters in all. Two
  -- session tokens are equal exactly if the bytes are, and so are two API keys.
  pub tokens-IsHex :
      (t : Text) × (new_session_token r ≡ some t)
      × (new_random_api_key r ≡ some (api_key_prefix ++ t))
      × (length t ≡ 64)
      × (length (api_key_prefix ++ t) ≡ 69)
      × All IsHex t
      × ((new_session_token r ≡ new_session_token s) ↔ (a ≡ b))
      × ((new_random_api_key r ≡ new_random_api_key s) ↔ (a ≡ b))
  unfolding new_session_token new_random_api_key new_api_key
  tokens-IsHex =
      rw (r_draw, s_draw)
        (
          encode_to_string a,
          refl,
          refl,
          omega (arith, length-encode a, a_drawn.long_enough),
          omega (arith, length-encode a, a_drawn.long_enough),
          encode-IsHex a a_drawn.are_bytes,
          (
            (λ e. same_bytes (some-injective (encode_to_string a) (encode_to_string b) e)),
            λ e. ap (λ x. some (encode_to_string x)) e,
          ),
          (
            (λ e. same_bytes (
                prefix-injective (encode_to_string a) (encode_to_string b) (
                  some-injective (api_key_prefix ++ encode_to_string a)
                    (api_key_prefix ++ encode_to_string b) e))),
            λ e. ap (λ x. some (api_key_prefix ++ encode_to_string x)) e,
          ),
        )
    where
      same_bytes : encode_to_string a ≡ encode_to_string b → a ≡ b
      same_bytes e = encode-injective a b a_drawn.are_bytes b_drawn.are_bytes e

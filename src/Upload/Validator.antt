-- ===== src/Upload/Validator.antt =====
-- internal/upload/validator.go. The atomic pointer to the rules is the rules themselves, loaded
-- once by each method. `unicode.ToLower` is the parameter `lower`, on which `strings.ToLower` maps
-- each character, and `http.DetectContentType` is the parameter `detect_content_type`.
pub mod Decides
pub mod Mime
mod Tests
use tempcdn.Prelude.{ℕ, ◌≡◌, Bool, true, false, ◌||◌, List, [], ◌∷◌, ◌++◌, map, any, if◌then◌else◌}
use tempcdn.Prelude.Int.{ℤ, pos, ltb_ℤ, leb_ℤ}
use tempcdn.Text.{
  Text, lit, same, has_prefix, has_suffix, trim_suffix, contains, before, trim_space, ext,
}
use tempcdn.Action.{Result, ok, err}
use tempcdn.Storage.{Bytes}

-- `ValidationError`, a constructor for each message.
pub data ValidationError : Type 0 where
  empty_file : ValidationError
  too_large : ℤ → ValidationError
  extension_not_allowed : Text → ValidationError
  disallowed_inside : Text → ValidationError
  type_not_allowed : Text → ValidationError

-- `validatorRules`
pub record Rules : Type 0 where
  pub max_size_bytes : ℤ
  pub allowed_mime_types : List Text
  pub blocked_extensions : List Text

-- `Update`: the new rules replace the old.
unfoldable pub update : ℤ → List Text → List Text → Rules → Rules
update max_size allowed blocked old = record {
  max_size_bytes = max_size;
  allowed_mime_types = allowed;
  blocked_extensions = blocked;
}

unfoldable pub validate_size : Rules → ℤ → Result ValidationError (Unit {0})
validate_size r size =
    if leb_ℤ size (pos 0)
    then err empty_file
    else if ltb_ℤ r.max_size_bytes size
    then err (too_large r.max_size_bytes)
    else ok tt

unfoldable pub matches_mime_pattern : Text → Text → Bool
matches_mime_pattern pattern mime_type =
    if same pattern mime_type
    then true
    else if has_suffix pattern (lit "/*")
    then has_prefix mime_type (trim_suffix pattern (lit "*"))
    else false

-- The loop over the allowed patterns.
unfoldable pub is_mime_type_allowed : Rules → Text → Bool
is_mime_type_allowed r mime_type =
    any (λ pattern. matches_mime_pattern pattern mime_type) r.allowed_mime_types

module _ (lower : ℕ → ℕ) where
  -- The loop of `ValidateExtension` over the blocked extensions.
  unfoldable pub check_blocked : Text → Text → List Text → Result ValidationError (Unit {0})
  check_blocked lower_name extension [] = ok tt
  check_blocked lower_name extension (blocked ∷ rest) =
      let blocked_lower = map lower blocked in
      if same blocked_lower extension
      then err (extension_not_allowed extension)
      else if contains lower_name (blocked_lower ++ lit ".")
      then err (disallowed_inside blocked_lower)
      else check_blocked lower_name extension rest

  unfoldable pub validate_extension : Rules → Text → Result ValidationError (Unit {0})
  unfolding check_blocked
  validate_extension r original_name =
      check_blocked (map lower original_name) (map lower (ext original_name)) r.blocked_extensions

module _ (detect_content_type : Bytes → Text) where
  unfoldable pub detect_and_validate_content_type : Rules → Bytes → Result ValidationError Text
  unfolding is_mime_type_allowed
  detect_and_validate_content_type r sniff =
      let normalized = trim_space (before b';' (detect_content_type sniff)) in
      if is_mime_type_allowed r normalized then ok normalized else err (type_not_allowed normalized)

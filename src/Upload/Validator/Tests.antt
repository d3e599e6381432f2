-- ===== src/Upload/Validator/Tests.antt =====
-- The rules of a small service.
use tempcdn.Prelude.{◌≡◌, refl, [], ◌∷◌}
use tempcdn.Prelude.Int.{pos}
use tempcdn.Text.{lit, contains, ext, same, has_prefix}
use tempcdn.Action.{err}
use tempcdn.Upload.Validator.{Rules, validate_extension, check_blocked, disallowed_inside}

abbrev small : Rules
small = record {
  max_size_bytes = pos 10;
  allowed_mime_types = lit "image/*" ∷ lit "text/plain" ∷ [];
  blocked_extensions = lit ".exe" ∷ lit ".php" ∷ [];
}

double_extension :
    validate_extension (λ c. c) small (lit "a.php.txt") ≡ err (disallowed_inside (lit ".php"))
unfolding validate_extension check_blocked contains ext same has_prefix
double_extension = refl

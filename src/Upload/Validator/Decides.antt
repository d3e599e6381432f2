-- ===== src/Upload/Validator/Decides.antt =====
-- What the size and the extension test decide, stated without their loops and orders.
use tempcdn.Prelude.{ℕ, ◌≡◌, ◌≢◌, ◌↔◌, refl, false, List, [], ◌∷◌, ◌++◌, map, All, arith}
use tempcdn.Prelude.Int.{ℤ, pos, ◌≤ℤ◌}
use tempcdn.Text.{Text, lit, contains, ext}
use tempcdn.Text.Laws.{same_iff}
use tempcdn.Action.{ok}
use tempcdn.Upload.Validator.{Rules, validate_size, check_blocked, validate_extension}

-- A size is accepted exactly if it is positive and at most the limit.
pub validate_size_iff :
    (r : Rules) (size : ℤ)
    → (validate_size r size ≡ ok tt) ↔ ((pos 1 ≤ℤ size) × (size ≤ℤ r.max_size_bytes))
unfolding validate_size
validate_size_iff r size = ground arith

module _ (lower : ℕ → ℕ) where
  -- A blocked extension, compared without regard to case, is neither the extension of the name nor
  -- stands anywhere in it before a dot.
  abbrev pub Clears : Text → Text → Type 0
  Clears name blocked =
      (map lower blocked ≢ map lower (ext name))
      × (contains (map lower name) (map lower blocked ++ lit ".") ≡ false)

  check_blocked_iff :
      (name : Text) (blocked : List Text)
      → (check_blocked lower (map lower name) (map lower (ext name)) blocked ≡ ok tt)
        ↔ All (Clears name) blocked
  unfolding check_blocked
  check_blocked_iff name [] = ((λ h. tt), (λ h. refl))
  check_blocked_iff name (b ∷ rest) =
      ground (arith, same_iff (map lower b) (map lower (ext name)), check_blocked_iff name rest)

  -- A name is accepted exactly if every blocked extension clears it.
  pub validate_extension_iff :
      (r : Rules) (name : Text)
      → (validate_extension lower r name ≡ ok tt) ↔ All (Clears name) r.blocked_extensions
  unfolding validate_extension
  validate_extension_iff r name = check_blocked_iff name r.blocked_extensions

-- ===== src/IdGen/Laws.antt =====
-- When a candidate token is accepted against a stored hash.
use tempcdn.Prelude.{◌≡◌, ◌≢◌, ◌↔◌, refl, true, [], ◌∷◌}
use tempcdn.Text.{Text}
use tempcdn.Text.Laws.{same_iff}
use tempcdn.IdGen.{hash_delete_token, delete_token_matches}

module _ (sha256_hex : Text → Text) where
  -- A delete token is accepted exactly if neither it nor the stored hash is empty and the stored
  -- hash is the token's.
  pub delete_token_matches_iff :
      (candidate stored : Text)
      → (delete_token_matches sha256_hex candidate stored ≡ true)
        ↔ ((candidate ≢ []) × (stored ≢ []) × (hash_delete_token sha256_hex candidate ≡ stored))
  unfolding delete_token_matches
  delete_token_matches_iff [] stored = ((λ h. cc), (λ h. absurd (h.0 refl)))
  delete_token_matches_iff (c ∷ s) [] = ((λ h. cc), (λ h. absurd (h.1 refl)))
  delete_token_matches_iff (c ∷ s) (d ∷ t) =
      ((λ h. ((λ e. cc), (λ e. cc), (same_iff _ (d ∷ t)).0 h)), (λ h. (same_iff _ (d ∷ t)).1 h.2))

-- ===== src/Text/Laws.antt =====
-- What the string functions compute, for the proofs of the components.
use tempcdn.Prelude.{
  ℕ, ◌≡◌, refl, ◌↔◌, length, length-append, inl, inr, true, false, [], ◌∷◌, ◌++◌, arith, Bool-cases,
  ap,
}
use tempcdn.Text.{Text, same, has_prefix, has_suffix, trim_suffix}

pub same_iff : (s t : Text) → (same s t ≡ true) ↔ (s ≡ t)
unfolding same
same_iff [] [] = ((λ h. refl), (λ h. refl))
same_iff [] (d ∷ t) = ((λ h. cc), (λ h. cc))
same_iff (c ∷ s) [] = ((λ h. cc), (λ h. cc))
same_iff (c ∷ s) (d ∷ t) =
    ((λ h. ground (arith, same_iff s t)), (λ h. ground (arith, same_iff s t)))

pub same_refl : (s : Text) → same s s ≡ true
same_refl s = (same_iff s s).1 refl

pub has_prefix_iff : (s p : Text) → (has_prefix s p ≡ true) ↔ ((t : Text) × (s ≡ p ++ t))
unfolding has_prefix
has_prefix_iff s p = (sound s p, λ h. complete s p h.0 h.1)
  where
    sound : (s p : Text) → has_prefix s p ≡ true → (t : Text) × (s ≡ p ++ t)
    sound s [] h = (s, refl)
    sound [] (d ∷ p) h = (absurd {A = Text} (cc), cc)
    sound (c ∷ s) (d ∷ p) h = let (t, e) = sound s p (ground arith) in (t, ground arith)

    complete : (s p t : Text) → s ≡ p ++ t → has_prefix s p ≡ true
    complete s [] t e = refl
    complete [] (d ∷ p) t e = cc
    complete (c ∷ s) (d ∷ p) t e = ground (arith, complete s p t)

same-append_left : (c : ℕ) (s t : Text) → same ((c ∷ s) ++ t) t ≡ false
same-append_left c s t = elim (Bool-cases (same ((c ∷ s) ++ t) t)) [
  | inl e ↦ absurd (omega (arith, ap length ((same_iff _ t).0 e), length-append s t))
  | inr e ↦ e
]

has_suffix_refl : (p : Text) → has_suffix p p ≡ true
unfolding has_suffix
has_suffix_refl [] = same_refl []
has_suffix_refl (c ∷ p) = rw (same_refl (c ∷ p))

pub has_suffix_iff : (s p : Text) → (has_suffix s p ≡ true) ↔ ((t : Text) × (s ≡ t ++ p))
unfolding has_suffix
has_suffix_iff s p = (sound s, λ h. complete s h.0 h.1)
  where
    sound : (s : Text) → has_suffix s p ≡ true → (t : Text) × (s ≡ t ++ p)
    sound [] h = ([], (same_iff [] p).0 h)
    sound (c ∷ s) h = elim (Bool-cases (same (c ∷ s) p)) [
      | inl e ↦ ([], (same_iff (c ∷ s) p).0 e)
      | inr e ↦ let (t, q) = sound s (ground arith) in (c ∷ t, ap {B = Text} (λ u. c ∷ u) q)
    ]

    complete : (s t : Text) → s ≡ t ++ p → has_suffix s p ≡ true
    complete s [] e = rw e (has_suffix_refl p)
    complete s (c ∷ t) e = rw e (ground (arith, complete (t ++ p) t refl))

-- What precedes a suffix is left by its removal.
pub trim_suffix-append : (s : Text) (c : ℕ) (p : Text) → trim_suffix (s ++ c ∷ p) (c ∷ p) ≡ s
unfolding trim_suffix
trim_suffix-append [] c p = rw (same_refl (c ∷ p))
trim_suffix-append (d ∷ s) c p =
    rw (same-append_left d s (c ∷ p)) (ap {B = Text} (λ u. d ∷ u) (trim_suffix-append s c p))

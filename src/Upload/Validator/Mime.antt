-- ===== src/Upload/Validator/Mime.antt =====
-- Which content types a list of patterns admits.
use mathlib.Core.List.{append_assoc}
use tempcdn.Prelude.{
  ◌≡◌, ◌↔◌, ◌⊎◌, inl, inr, refl, true, List, [], ◌∷◌, ◌++◌, arith, Bool-cases, In, any, sym, ap,
  ◌∙◌,
}
use tempcdn.Text.{Text, lit, same, has_prefix, has_suffix, trim_suffix}
use tempcdn.Text.Laws.{same_iff, has_prefix_iff, has_suffix_iff, trim_suffix-append}
use tempcdn.Upload.Validator.{Rules, matches_mime_pattern, is_mime_type_allowed}

-- A pattern admits its own text, and `major/*` admits every text that begins with `major/`.
abbrev pub Admits : Text → Text → Type 0
Admits pattern mime_type =
    (pattern ≡ mime_type)
    ⊎ ((major : Text) × (sub : Text) × (pattern ≡ major ++ lit "/*")
        × (mime_type ≡ (major ++ lit "/") ++ sub))

slash_star : (major : Text) → trim_suffix (major ++ lit "/*") (lit "*") ≡ major ++ lit "/"
slash_star major =
    rw (← append_assoc major (lit "/") (lit "*")) (trim_suffix-append (major ++ lit "/") b'*' [])

pub matches_mime_pattern_iff :
    (pattern mime_type : Text)
    → (matches_mime_pattern pattern mime_type ≡ true) ↔ Admits pattern mime_type
unfolding matches_mime_pattern
matches_mime_pattern_iff pattern mime_type = (sound, complete)
  where
    wild :
        has_suffix pattern (lit "/*") ≡ true
        → has_prefix mime_type (trim_suffix pattern (lit "*")) ≡ true
        → Admits pattern mime_type
    wild hs hp =
        let (major, e) = (has_suffix_iff pattern (lit "/*")).0 hs in
        let (sub, f) =
          (has_prefix_iff mime_type (major ++ lit "/")).0 (rw (e, slash_star major) at hp) in
        inr (major, sub, e, f)

    sound : matches_mime_pattern pattern mime_type ≡ true → Admits pattern mime_type
    sound h = elim (Bool-cases (same pattern mime_type)) [
      | inl e ↦ inl ((same_iff pattern mime_type).0 e)
      | inr e ↦ wild (ground arith) (ground arith)
    ]

    complete : Admits pattern mime_type → matches_mime_pattern pattern mime_type ≡ true
    complete (inl e) = rw ((same_iff pattern mime_type).1 e)
    complete (inr (major, sub, e, f)) = ground (
      arith,
      (has_suffix_iff pattern (lit "/*")).1 (major, e),
      (has_prefix_iff mime_type (trim_suffix pattern (lit "*"))).1 (
        sub,
        f
            ∙ ap {B = Text} (λ t. t ++ sub)
                (sym (ap {B = Text} (λ t. trim_suffix t (lit "*")) e ∙ slash_star major)),
      ),
    )

-- A content type is admitted exactly if one of the patterns admits it.
pub is_mime_type_allowed_iff :
    (r : Rules) (mime_type : Text)
    → (is_mime_type_allowed r mime_type ≡ true)
      ↔ ((pattern : Text) × In pattern r.allowed_mime_types × Admits pattern mime_type)
unfolding is_mime_type_allowed
is_mime_type_allowed_iff r mime_type =
    (sound r.allowed_mime_types, λ h. complete r.allowed_mime_types h.0 h.1 h.2)
  where
    sound :
        (ps : List Text)
        → any (λ p. matches_mime_pattern p mime_type) ps ≡ true
        → (p : Text) × In p ps × Admits p mime_type
    sound [] h = absurd {A = (p : Text) × In p [] × Admits p mime_type} (cc)
    sound (q ∷ ps) h = elim (Bool-cases (matches_mime_pattern q mime_type)) [
      | inl e ↦ (q, inl refl, (matches_mime_pattern_iff q mime_type).0 e)
      | inr e ↦ let (p, i, a) = sound ps (ground arith) in (p, inr i, a)
    ]

    complete :
        (ps : List Text) (p : Text)
        → In p ps
        → Admits p mime_type
        → any (λ p. matches_mime_pattern p mime_type) ps ≡ true
    complete [] p i a = absurd i
    complete (q ∷ ps) p (inl e) a =
        ground (arith, (matches_mime_pattern_iff q mime_type).1 (rw (← e) a))
    complete (q ∷ ps) p (inr i) a = ground (arith, complete ps p i a)

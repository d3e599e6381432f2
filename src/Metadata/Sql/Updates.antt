-- ===== src/Metadata/Sql/Updates.antt =====
-- What an update keeps of the rows.
use tempcdn.Prelude.{
  ◌≡◌, inl, inr, refl, Bool, some, List, [], ◌∷◌, ◌++◌, All, arith, Bool-cases, if◌then◌else◌, any,
}
use tempcdn.Metadata.Sql.{first_where, update_where}

-- A row that is added behind is not found before.
pub first_where-append :
    {A : Type 0} (test : A → Bool) (rows : List A) (x y : A)
    → first_where test rows ≡ some x
    → first_where test (rows ++ y ∷ []) ≡ some x
unfolding first_where
first_where-append test [] x y h = absurd (ground arith)
first_where-append test (q ∷ rows) x y h = ground (arith, first_where-append test rows x y)

-- The row that a search finds is changed where the update applies to it.
pub first_where-update_where :
    {A : Type 0} (test at : A → Bool) (change : A → A) (rows : List A) (x : A)
    → ((a : A) → test (change a) ≡ test a)
    → first_where test rows ≡ some x
    → first_where test (update_where at change rows) ≡ some (if at x then change x else x)
unfolding first_where update_where
first_where-update_where test at change [] x k h = absurd (ground arith)
first_where-update_where test at change (q ∷ rows) x k h = elim (Bool-cases (test q)) [
  | inl t ↦
      let same_row : some q ≡ some x = rw t at h in
      let e : q ≡ x = ground arith in
      elim (Bool-cases (at q)) [ inl b ↦ rw (← e, b, k q, t) refl | inr b ↦ rw (← e, b, t) refl ]
  | inr f ↦
      let rest = first_where-update_where test at change rows x k (rw f at h) in
      elim (Bool-cases (at q)) [ inl b ↦ rw (b, k q, f) rest | inr b ↦ rw (b, f) rest ]
]

pub All-update_where :
    {A : Type 0} (P : A → Type 0) (at : A → Bool) (change : A → A) (rows : List A)
    → ((a : A) → P a → P (change a))
    → All P rows
    → All P (update_where at change rows)
unfolding update_where
All-update_where P at change [] k h = tt
All-update_where P at change (q ∷ rows) k h = elim (Bool-cases (at q)) [
  | inl b ↦ rw b (k q h.0, All-update_where P at change rows k h.1)
  | inr b ↦ rw b (h.0, All-update_where P at change rows k h.1)
]

pub All-snoc :
    {A : Type 0} (P : A → Type 0) (rows : List A) (x : A)
    → All P rows
    → P x
    → All P (rows ++ x ∷ [])
All-snoc P [] x h k = (k, tt)
All-snoc P (q ∷ rows) x h k = (h.0, All-snoc P rows x h.1 k)

pub any-update_where :
    {A : Type 0} (test at : A → Bool) (change : A → A) (rows : List A)
    → ((a : A) → test (change a) ≡ test a)
    → any test (update_where at change rows) ≡ any test rows
unfolding update_where
any-update_where test at change [] k = refl
any-update_where test at change (q ∷ rows) k = elim (Bool-cases (at q)) [
  | inl e ↦ rw (e, k q, any-update_where test at change rows k) refl
  | inr e ↦ rw (e, any-update_where test at change rows k) refl
]

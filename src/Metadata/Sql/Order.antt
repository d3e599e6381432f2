-- ===== src/Metadata/Sql/Order.antt =====
-- `ORDER BY` returns the same rows, in order; with `LIMIT` the first of them.
use tempcdn.Prelude.{
  ℕ, zero, suc, ◌≡◌, ◌⊎◌, inl, inr, refl, Bool, true, false, List, [], ◌∷◌, All, All-map, All-of_In,
  All-In, In, In-of_drop, take, drop, Bool-cases,
}
use tempcdn.Metadata.Sql.{insert_by, order_by}

module _ {A : Type 0} (le : A → A → Bool) where
  In-of_insert_by : (x y : A) (l : List A) → In x (insert_by le y l) → (x ≡ y) ⊎ In x l
  unfolding insert_by
  In-of_insert_by x y [] i = i
  In-of_insert_by x y (z ∷ l) i = elim (Bool-cases (le y z)) [
    | inl e ↦ rw e at i
    | inr e ↦
        let j : In x (z ∷ insert_by le y l) = rw e at i in
        elim j [
          | inl q ↦ inr (inl q)
          | inr k ↦ elim (In-of_insert_by x y l k) [ inl q ↦ inl q | inr m ↦ inr (inr m) ]
        ]
  ]

  In-insert_by_self : (y : A) (l : List A) → In y (insert_by le y l)
  unfolding insert_by
  In-insert_by_self y [] = inl refl
  In-insert_by_self y (z ∷ l) = elim (Bool-cases (le y z)) [
    | inl e ↦ rw e (inl refl)
    | inr e ↦ rw e (inr (In-insert_by_self y l))
  ]

  In-insert_by : (x y : A) (l : List A) → In x l → In x (insert_by le y l)
  unfolding insert_by
  In-insert_by x y [] i = absurd i
  In-insert_by x y (z ∷ l) i = elim (Bool-cases (le y z)) [
    | inl e ↦ rw e (inr i)
    | inr e ↦ rw e (elim i [ inl q ↦ inl q | inr k ↦ inr (In-insert_by x y l k) ])
  ]

  pub In-of_order_by : (x : A) (l : List A) → In x (order_by le l) → In x l
  unfolding order_by
  In-of_order_by x [] i = i
  In-of_order_by x (y ∷ l) i = elim (In-of_insert_by x y (order_by le l) i) [
    | inl q ↦ inl q
    | inr k ↦ inr (In-of_order_by x l k)
  ]

  pub In-order_by : (x : A) (l : List A) → In x l → In x (order_by le l)
  unfolding order_by
  In-order_by x [] i = i
  In-order_by x (y ∷ l) (inl q) = rw q (In-insert_by_self y (order_by le l))
  In-order_by x (y ∷ l) (inr i) = In-insert_by x y (order_by le l) (In-order_by x l i)

  -- Each element may stand before all that follow it.
  abbrev pub IsSorted : List A → Type 0
  IsSorted [] = Unit
  IsSorted (x ∷ xs) = All (λ y. le x y ≡ true) xs × IsSorted xs

module _ {A : Type 0} (le : A → A → Bool) (total : (a b : A) → le a b ≡ false → le b a ≡ true)
    (trans : (a b c : A) → le a b ≡ true → le b c ≡ true → le a c ≡ true) where
  insert_by-IsSorted : (y : A) (l : List A) → IsSorted le l → IsSorted le (insert_by le y l)
  unfolding insert_by
  insert_by-IsSorted y [] s = (tt, tt)
  insert_by-IsSorted y (z ∷ l) s = elim (Bool-cases (le y z)) [
    | inl e ↦
        rw e
          ((e, All-map (λ x. le z x ≡ true) (λ x. le y x ≡ true) (λ x h. trans y z x e h) l s.0), s)
    | inr e ↦ rw e (
      All-of_In (λ x. le z x ≡ true) (insert_by le y l)
          (λ x i. elim (In-of_insert_by le x y l i) [
            | inl q ↦ rw q (total y z e)
            | inr k ↦ All-In (λ x. le z x ≡ true) x l s.0 k
          ]),
      insert_by-IsSorted y l s.1,
    )
  ]

  pub order_by-IsSorted : (l : List A) → IsSorted le (order_by le l)
  unfolding order_by
  order_by-IsSorted [] = tt
  order_by-IsSorted (y ∷ l) = insert_by-IsSorted y (order_by le l) (order_by-IsSorted l)

-- What a limit leaves out stands behind all that it returns.
pub take-before-drop :
    {A : Type 0} (le : A → A → Bool) (n : ℕ) (l : List A) (x y : A)
    → IsSorted le l
    → In x (take n l)
    → In y (drop n l)
    → le x y ≡ true
take-before-drop le zero l x y s i j = absurd i
take-before-drop le (suc n) [] x y s i j = absurd i
take-before-drop le (suc n) (z ∷ l) x y s (inl q) j =
    rw q (All-In (λ x. le z x ≡ true) y l s.0 (In-of_drop n l y j))
take-before-drop le (suc n) (z ∷ l) x y s (inr i) j = take-before-drop le n l x y s.1 i j

-- ===== src/Prelude/Lists.antt =====
-- Lists measured by native numbers, and predicates over lists by recursion.
use Prim.Native.Nat.{ℕ, zero, suc, ◌+◌, ◌-◌, ◌≤◌, min}
use mathlib.Core.Path.{◌≡◌, refl}
use mathlib.Core.Logic.{◌⊎◌, inl, inr}
use mathlib.Core.Bool.{Bool, true, false, ◌||◌}
use mathlib.Core.List.{List, [], ◌∷◌, ◌++◌}
use native.Mathlib.Omega.{arith}
use tempcdn.Prelude.Tests.{if◌then◌else◌, Bool-cases}

module _ {ℓ} {A : Type ℓ} where
  abbrev pub length : List A → ℕ
  length [] = 0
  length (x ∷ xs) = suc (length xs)

  abbrev pub take : ℕ → List A → List A
  take zero xs = []
  take (suc n) [] = []
  take (suc n) (x ∷ xs) = x ∷ take n xs

  abbrev pub drop : ℕ → List A → List A
  drop zero xs = xs
  drop (suc n) [] = []
  drop (suc n) (x ∷ xs) = drop n xs

  abbrev pub any : (A → Bool) → List A → Bool
  any p [] = false
  any p (x ∷ xs) = p x || any p xs

  abbrev pub filter : (A → Bool) → List A → List A
  filter p [] = []
  filter p (x ∷ xs) = if p x then x ∷ filter p xs else filter p xs

  pub length-append : (xs ys : List A) → length (xs ++ ys) ≡ length xs + length ys
  length-append [] ys = omega arith
  length-append (x ∷ xs) ys = omega (arith, length-append xs ys)

  pub take-append-drop : (n : ℕ) (xs : List A) → take n xs ++ drop n xs ≡ xs
  take-append-drop zero xs = refl
  take-append-drop (suc n) [] = refl
  take-append-drop (suc n) (x ∷ xs) = rw (take-append-drop n xs)

  pub length-take : (n : ℕ) (xs : List A) → length (take n xs) ≡ min n (length xs)
  length-take zero xs = omega arith
  length-take (suc n) [] = omega arith
  length-take (suc n) (x ∷ xs) = omega (arith, length-take n xs)

  pub length-drop : (n : ℕ) (xs : List A) → length (drop n xs) ≡ length xs - n
  length-drop zero xs = omega arith
  length-drop (suc n) [] = omega arith
  length-drop (suc n) (x ∷ xs) = omega (arith, length-drop n xs)

  pub length-filter : (p : A → Bool) (xs : List A) → length (filter p xs) ≤ length xs
  length-filter p [] = omega arith
  length-filter p (x ∷ xs) = ground (arith, length-filter p xs)

module _ {ℓ κ} {A : Type ℓ} (P : A → Type κ) where
  abbrev pub All : List A → Type κ
  All [] = Unit
  All (x ∷ xs) = P x × All xs

  pub All-append : (xs ys : List A) → All xs → All ys → All (xs ++ ys)
  All-append [] ys hx hy = hy
  All-append (x ∷ xs) ys hx hy = (hx.0, All-append xs ys hx.1 hy)

  pub All-filter : (p : A → Bool) (xs : List A) → All xs → All (filter p xs)
  All-filter p [] h = tt
  All-filter p (x ∷ xs) h = elim (Bool-cases (p x)) [
    | inl e ↦ rw e (h.0, All-filter p xs h.1)
    | inr e ↦ rw e (All-filter p xs h.1)
  ]

  pub All-take : (n : ℕ) (xs : List A) → All xs → All (take n xs)
  All-take zero xs h = tt
  All-take (suc n) [] h = tt
  All-take (suc n) (x ∷ xs) h = (h.0, All-take n xs h.1)

module _ {ℓ κ μ} {A : Type ℓ} (P : A → Type κ) (Q : A → Type μ) where
  pub All-map : ((x : A) → P x → Q x) → (xs : List A) → All P xs → All Q xs
  All-map f [] h = tt
  All-map f (x ∷ xs) h = (f x h.0, All-map f xs h.1)

-- Membership that names a place, not a mere existence, over a type of level 0.
abbrev pub In : {A : Type 0} → A → List A → Type 0
In x [] = ⊥
In x (y ∷ ys) = (x ≡ y) ⊎ In x ys

pub All-In : {A : Type 0} (P : A → Type 0) (x : A) (xs : List A) → All P xs → In x xs → P x
All-In P x [] h i = absurd i
All-In P x (y ∷ ys) h (inl e) = rw e h.0
All-In P x (y ∷ ys) h (inr i) = All-In P x ys h.1 i

pub All-of_In : {A : Type 0} (P : A → Type 0) (xs : List A) → ((x : A) → In x xs → P x) → All P xs
All-of_In P [] f = tt
All-of_In P (y ∷ ys) f = (f y (inl refl), All-of_In P ys (λ x i. f x (inr i)))

pub In-filter :
    {A : Type 0} (p : A → Bool) (x : A) (xs : List A) → In x xs → p x ≡ true → In x (filter p xs)
In-filter p x [] i e = i
In-filter p x (y ∷ ys) (inl q) e = rw (← q, e) (inl refl)
In-filter p x (y ∷ ys) (inr i) e = elim (Bool-cases (p y)) [
  | inl t ↦ rw t (inr (In-filter p x ys i e))
  | inr f ↦ rw f (In-filter p x ys i e)
]

pub In-of_filter :
    {A : Type 0} (p : A → Bool) (x : A) (xs : List A) → In x (filter p xs) → In x xs × (p x ≡ true)
In-of_filter p x [] i = absurd i
In-of_filter p x (y ∷ ys) i = elim (Bool-cases (p y)) [
  | inl t ↦
      let j : In x (y ∷ filter p ys) = rw t at i in
      elim j [ inl q ↦ (inl q, rw q t) | inr k ↦ let (m, e) = In-of_filter p x ys k in (inr m, e) ]
  | inr f ↦ let (m, e) = In-of_filter p x ys (rw f at i) in (inr m, e)
]

pub In-of_take : {A : Type 0} (n : ℕ) (l : List A) (x : A) → In x (take n l) → In x l
In-of_take zero l x i = absurd i
In-of_take (suc n) [] x i = absurd i
In-of_take (suc n) (y ∷ l) x (inl q) = inl q
In-of_take (suc n) (y ∷ l) x (inr i) = inr (In-of_take n l x i)

pub In-of_drop : {A : Type 0} (n : ℕ) (l : List A) (x : A) → In x (drop n l) → In x l
In-of_drop zero l x i = i
In-of_drop (suc n) [] x i = absurd i
In-of_drop (suc n) (y ∷ l) x i = inr (In-of_drop n l x i)

-- An element of a list is among its first `n` or behind them.
pub In-take-drop :
    {A : Type 0} (n : ℕ) (l : List A) (x : A) → In x l → In x (take n l) ⊎ In x (drop n l)
In-take-drop zero l x i = inr i
In-take-drop (suc n) [] x i = absurd i
In-take-drop (suc n) (y ∷ l) x (inl q) = inl (inl q)
In-take-drop (suc n) (y ∷ l) x (inr i) = elim (In-take-drop n l x i) [
  | inl a ↦ inl (inr a)
  | inr b ↦ inr b
]

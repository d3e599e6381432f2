-- ===== src/Action.antt =====
-- Go's `(value, error)` results, and calls that also change a state. What was changed before an
-- error stays changed, so the state comes back beside the error too.
pub mod Keeps
pub mod Plain
use tempcdn.Prelude.{◌≡◌, refl, ◌⊎◌, inl, inr, Bool, Option, none, some, if◌then◌else◌}

pub data Result (E A : Type 0) : Type 0 where
  ok : A → Result E A
  err : E → Result E A

abbrev pub Action : Type 0 → Type 0 → Type 0 → Type 0
Action W E A = W → Result E A × W

module _ {W E A : Type 0} where
  abbrev pub pure : A → Action W E A
  pure a w = (ok a, w)

  -- `return nil, err`
  abbrev pub raise : E → Action W E A
  raise e w = (err e, w)

  abbrev pub lift : Result E A → Action W E A
  lift r w = (r, w)

infixl 5 ◌>>=◌ ◌>>◌
abbrev pub ◌>>=◌ : {W E A B : Type 0} → Action W E A → (A → Action W E B) → Action W E B
◌>>=◌ m f w = let (r, w') = m w in elim r [ ok a ↦ f a w' | err e ↦ (err e, w') ]

abbrev pub ◌>>◌ : {W E B : Type 0} → Action W E (Unit {0}) → Action W E B → Action W E B
m >> k = m >>= λ _. k

-- `if cond { return err }`
abbrev pub raise_if : {W E : Type 0} → Bool → E → Action W E (Unit {0})
raise_if b e w = (if b then err e else ok tt, w)

-- `if x == nil { return err }`
abbrev pub or_raise : {W E A : Type 0} → Option A → E → Action W E A
or_raise none e w = (err e, w)
or_raise (some a) e w = (ok a, w)

-- A call whose error the caller looks at, or ignores.
abbrev pub attempt : {W E F A : Type 0} → Action W E A → Action W F (Result E A)
attempt m w = let (r, w') = m w in (ok r, w')

-- `fmt.Errorf("...: %w", err)`: the caller's name for an error of the call.
abbrev pub wrap : {W E F A : Type 0} → (E → F) → Action W E A → Action W F A
wrap f m w = let (r, w') = m w in (elim r [ ok a ↦ ok a | err e ↦ err (f e) ], w')

pub Result-cases :
    {E A : Type 0} (r : Result E A) → ((a : A) × (r ≡ ok a)) ⊎ ((e : E) × (r ≡ err e))
Result-cases (ok a) = inl (a, refl)
Result-cases (err e) = inr (e, refl)

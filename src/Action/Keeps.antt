-- ===== src/Action/Keeps.antt =====
-- Rules for what a chain of calls leaves behind: of the state, and of the value and the state.
use tempcdn.Prelude.{◌≡◌, refl, Bool, true, false, if◌then◌else◌, arith}
use tempcdn.Action.{Result, ok, err, Action, wrap, ◌>>=◌}

module _ {W E A B : Type 0} where
  state_rule :
      (P : W → Type 0) (f : A → Action W E B) (r : Result E A) (w : W)
      → P w
      → ((a : A) → r ≡ ok a → P (f a w).1)
      → P (let m : Action W E A = λ _. (r, w) in (m >>= f) w).1
  state_rule P f (ok a) w h k = k a refl
  state_rule P f (err e) w h k = h

  -- A property of the state that the first call ensures and the rest keeps.
  pub bind-keeps :
      (P : W → Type 0) (m : Action W E A) (f : A → Action W E B) (w : W)
      → P (m w).1
      → ((a : A) → (m w).0 ≡ ok a → P (f a (m w).1).1)
      → P ((m >>= f) w).1
  bind-keeps P m f w h k = state_rule P f (m w).0 (m w).1 h k

  error_rule :
      (P : W → Type 0) (f : A → Action W E B) (r : Result E A) (w : W) (e : E)
      → (let m : Action W E A = λ _. (r, w) in (m >>= f) w).0 ≡ err e
      → ((x : E) → r ≡ err x → P w)
      → ((a : A) → r ≡ ok a → (f a w).0 ≡ err e → P (f a w).1)
      → P (let m : Action W E A = λ _. (r, w) in (m >>= f) w).1
  error_rule P f (ok a) w e h k l = l a refl h
  error_rule P f (err x) w e h k l = k x refl

  -- A property of the state after an error, by the call that reported it.
  pub bind-fails :
      (P : W → Type 0) (m : Action W E A) (f : A → Action W E B) (w : W) (e : E)
      → ((m >>= f) w).0 ≡ err e
      → ((x : E) → (m w).0 ≡ err x → P (m w).1)
      → ((a : A) → (m w).0 ≡ ok a → (f a (m w).1).0 ≡ err e → P (f a (m w).1).1)
      → P ((m >>= f) w).1
  bind-fails P m f w e h k l = error_rule P f (m w).0 (m w).1 e h k l

  value_rule :
      (f : A → Action W E B) (r : Result E A) (w : W) (b : B)
      → (let m : Action W E A = λ _. (r, w) in (m >>= f) w).0 ≡ ok b
      → (a : A) × (r ≡ ok a) × ((f a w).0 ≡ ok b)
  value_rule f (ok a) w b h = (a, refl, h)
  value_rule f (err e) w b h = absurd (ground arith)

  -- A chain that succeeds has succeeded at its first call.
  pub bind-eq-ok :
      (m : Action W E A) (f : A → Action W E B) (w : W) (b : B)
      → ((m >>= f) w).0 ≡ ok b
      → (a : A) × ((m w).0 ≡ ok a) × ((f a (m w).1).0 ≡ ok b)
  bind-eq-ok m f w b h = value_rule f (m w).0 (m w).1 b h

  ok_rule :
      (f : A → Action W E B) (r : Result E A) (w : W) (a : A)
      → r ≡ ok a
      → (let m : Action W E A = λ _. (r, w) in (m >>= f) w) ≡ f a w
  ok_rule f (ok b) w a h = ground arith
  ok_rule f (err e) w a h = absurd (ground arith)

  -- Behind a call that succeeds the chain is what follows it.
  pub bind_of_ok :
      (m : Action W E A) (f : A → Action W E B) (w : W) (a : A)
      → (m w).0 ≡ ok a
      → (m >>= f) w ≡ f a (m w).1
  bind_of_ok m f w a h = ok_rule f (m w).0 (m w).1 a h

pub wrap_of_ok :
    {W E F A : Type 0} (f : E → F) (m : Action W E A) (w : W) (a : A)
    → (m w).0 ≡ ok a
    → (wrap f m w).0 ≡ ok a
wrap_of_ok f m w a h = ground arith

pub wrap-eq-ok :
    {W E F A : Type 0} (f : E → F) (m : Action W E A) (w : W) (a : A)
    → (wrap f m w).0 ≡ ok a
    → (m w).0 ≡ ok a
wrap-eq-ok f m w a h = ground arith

pub if-keeps :
    {W E A : Type 0} (P : W → Type 0) (b : Bool) (m n : Action W E A) (w : W)
    → P (m w).1
    → P (n w).1
    → P ((if b then m else n) w).1
if-keeps P true m n w h k = h
if-keeps P false m n w h k = k

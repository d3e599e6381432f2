-- ===== src/Http/Recorder/Clean.antt =====
-- What the recorder passes on: one status, before every body, and the status that it remembers.
use tempcdn.Prelude.{
  ℕ, ◌≡◌, refl, Bool, true, false, Option, none, some, List, [], ◌∷◌, if◌then◌else◌,
}
use tempcdn.Http.{Event, set_header, write_header, write, status_of}
use tempcdn.Http.Recorder.{Recorder, pass_header, pass_write, pass_all}

-- The calls that a writer takes as they are meant: `WriteHeader` at most once, and before every
-- `Write`. The Boolean says whether it was called before.
unfoldable pub IsClean : {B : Type 0} → Bool → List (Event B) → Type 0
IsClean w [] = Unit
IsClean w (set_header k v ∷ events) = IsClean w events
IsClean w (write_header code ∷ events) = (w ≡ false) × IsClean true events
IsClean w (write b ∷ events) = (w ≡ true) × IsClean w events

abbrev pub recorder : ℕ → Bool → Recorder
recorder code w = record { status_code = code; wrote_header = w }

-- The status that a recorder stands for.
abbrev pub recorded : Recorder → Option ℕ
recorded rec = if rec.wrote_header then some rec.status_code else none

module _ {B : Type 0} where
  pub pass_all-IsClean :
      (events : List (Event B)) (code : ℕ) (w : Bool)
      → IsClean w (pass_all events (recorder code w)).0
  unfolding IsClean pass_all pass_header pass_write
  pass_all-IsClean [] code w = tt
  pass_all-IsClean (set_header k v ∷ events) code w = pass_all-IsClean events code w
  pass_all-IsClean (write_header c ∷ events) code true = pass_all-IsClean events code true
  pass_all-IsClean (write_header c ∷ events) code false = (refl, pass_all-IsClean events c true)
  pass_all-IsClean (write b ∷ events) code true = (refl, pass_all-IsClean events code true)
  pass_all-IsClean (write b ∷ events) code false = (refl, (refl, pass_all-IsClean events 200 true))

  pub pass_all-written :
      (events : List (Event B)) (code : ℕ)
      → (pass_all events (recorder code true)).1 ≡ recorder code true
  unfolding pass_all pass_header pass_write
  pass_all-written [] code = refl
  pass_all-written (set_header k v ∷ events) code = pass_all-written events code
  pass_all-written (write_header c ∷ events) code = pass_all-written events code
  pass_all-written (write b ∷ events) code = pass_all-written events code

  -- The recorder remembers the status of the calls that it was given, and passes that status on.
  pub pass_all-status :
      (events : List (Event B)) (code : ℕ)
      → (recorded (pass_all events (recorder code false)).1 ≡ status_of events)
        × (status_of (pass_all events (recorder code false)).0 ≡ status_of events)
  unfolding pass_all pass_header pass_write status_of
  pass_all-status [] code = (refl, refl)
  pass_all-status (set_header k v ∷ events) code = pass_all-status events code
  pass_all-status (write_header c ∷ events) code = (rw (pass_all-written events c) refl, refl)
  pass_all-status (write b ∷ events) code = (rw (pass_all-written events 200) refl, refl)

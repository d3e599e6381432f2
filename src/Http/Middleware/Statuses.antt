-- ===== src/Http/Middleware/Statuses.antt =====
-- What the middleware around every handler makes of its answer.
use tempcdn.Prelude.{ℕ, ◌≡◌, refl, ap, Bool, true, false, Option, none, some, List, [], ◌∷◌, ◌++◌}
use tempcdn.Http.{Request, Event, set_header, write_header, write, Handler, Body, status_of}
use tempcdn.Http.Recorder.{new_recorder, pass_all, pass_header, pass_write}
use tempcdn.Http.Recorder.Clean.{IsClean, recorder, pass_all-written, pass_all-status}
use tempcdn.Http.Middleware.{recover, recovery, request_logging, request_entries}

-- The status that the client gets of a handler's calls, below `Recovery`.
abbrev pub recovered_status : Bool → Option ℕ → Option ℕ
recovered_status panicked (some code) = some code
recovered_status false none = none
recovered_status true none = some 500

abbrev pub status_or_200 : Option ℕ → ℕ
status_or_200 (some code) = code
status_or_200 none = 200

module _ {P : Type 0} where
  pass_all-code :
      (events : List (Event (Body P)))
      → (pass_all events new_recorder).1.status_code ≡ status_or_200 (status_of events)
  unfolding status_of pass_all pass_header pass_write
  pass_all-code [] = refl
  pass_all-code (set_header k v ∷ events) = pass_all-code events
  pass_all-code (write_header c ∷ events) = rw (pass_all-written events c) refl
  pass_all-code (write b ∷ events) = rw (pass_all-written events 200) refl

  request_entries-code :
      (timed panicked : Bool) (r : Request) (events : List (Event (Body P)))
      → request_entries timed panicked r (pass_all events new_recorder).1
        ≡ request_entries timed panicked r (recorder (status_or_200 (status_of events)) true)
  request_entries-code timed true r events = refl
  request_entries-code timed false r events = rw (pass_all-code events) refl

  -- What `Recovery` passes on of a handler's calls.
  abbrev recovered : Bool → Bool → ℕ → List (Event (Body P)) → List (Event (Body P))
  recovered panicked w code events =
      let (passed, rec) = pass_all events (recorder code w) in passed ++ recover panicked rec

  recovered-IsClean :
      (panicked w : Bool) (code : ℕ) (events : List (Event (Body P)))
      → IsClean w (recovered panicked w code events)
  unfolding IsClean pass_all pass_header pass_write recover
  recovered-IsClean true true code [] = tt
  recovered-IsClean true false code [] = (refl, (refl, tt))
  recovered-IsClean false w code [] = tt
  recovered-IsClean p w code (set_header k v ∷ events) = recovered-IsClean p w code events
  recovered-IsClean p true code (write_header c ∷ events) = recovered-IsClean p true code events
  recovered-IsClean p false code (write_header c ∷ events) =
      (refl, recovered-IsClean p true c events)
  recovered-IsClean p true code (write b ∷ events) = (refl, recovered-IsClean p true code events)
  recovered-IsClean p false code (write b ∷ events) =
      (refl, (refl, recovered-IsClean p true 200 events))

  recovered-status :
      (panicked : Bool) (code : ℕ) (events : List (Event (Body P)))
      → status_of (recovered panicked false code events)
        ≡ recovered_status panicked (status_of events)
  unfolding status_of pass_all pass_header pass_write recover
  recovered-status true code [] = refl
  recovered-status false code [] = refl
  recovered-status p code (set_header k v ∷ events) = recovered-status p code events
  recovered-status p code (write_header c ∷ events) = refl
  recovered-status p code (write b ∷ events) = refl

module _ {S P : Type 0} (next : Handler S (Body P)) (r : Request) (s : S) where
  -- Whatever a handler does, below `Recovery` it returns, the state is the handler's, its calls give
  -- the client one status, before every body, and that status is the handler's, or 500 where it
  -- panicked before it gave one.
  pub recovery-answers :
      ((recovery next r s).0.panicked ≡ false)
      × ((recovery next r s).1 ≡ (next r s).1)
      × IsClean false (recovery next r s).0.events
      × (status_of (recovery next r s).0.events
          ≡ recovered_status (next r s).0.panicked (status_of (next r s).0.events))
  unfolding recovery
  recovery-answers = (
    refl,
    refl,
    recovered-IsClean (next r s).0.panicked false 200 (next r s).0.events,
    recovered-status (next r s).0.panicked 200 (next r s).0.events,
  )

  -- A handler that returns gets one line, whose status is the one that the client gets, or 200 where
  -- the handler gives none, and one observation of the latency where there is a histogram; a handler
  -- that panics gets neither. The calls that are passed on give the status of the handler.
  pub request_logging-entries :
      (timed : Bool)
      → ((request_logging timed next r s).0.entries
          ≡ (next r s).0.entries
            ++ request_entries timed (next r s).0.panicked r (
                recorder
                  (status_or_200 (status_of (request_logging timed next r s).0.events))
                  true))
        × (status_of (request_logging timed next r s).0.events ≡ status_of (next r s).0.events)
  unfolding request_logging
  request_logging-entries timed =
      let same_status = (pass_all-status (next r s).0.events 200).1 in
      (
        rw (same_status) (
            ap (λ entries. (next r s).0.entries ++ entries)
              (request_entries-code timed (next r s).0.panicked r (next r s).0.events)),
        same_status,
      )

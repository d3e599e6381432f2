-- ===== src/Http/Recorder.antt =====
-- internal/httpserver/middleware.go: `responseRecorder`, as a machine that passes the calls of a
-- handler on to the writer below it.
pub mod Clean
use tempcdn.Prelude.{ℕ, Bool, true, false, not, List, [], ◌∷◌, ◌++◌, if◌then◌else◌}
use tempcdn.Http.{Event, set_header, write_header, write}

pub record Recorder : Type 0 where
  pub status_code : ℕ
  pub wrote_header : Bool

abbrev pub new_recorder : Recorder
new_recorder = record { status_code = 200; wrote_header = false }

module _ {B : Type 0} where
  -- `WriteHeader`
  unfoldable pub pass_header : ℕ → Recorder → List (Event B) × Recorder
  pass_header code rec =
      if rec.wrote_header
      then ([], rec)
      else (write_header code ∷ [], record { status_code = code; wrote_header = true })

  -- `Write`
  unfoldable pub pass_write : B → Recorder → List (Event B) × Recorder
  pass_write b rec =
      let (events, after) : List (Event B) × Recorder =
        if not rec.wrote_header then pass_header 200 rec else ([], rec) in
      (events ++ write b ∷ [], after)

  -- One call; `Header()` is that of the writer below.
  abbrev pub pass : Event B → Recorder → List (Event B) × Recorder
  pass (set_header k v) rec = (set_header k v ∷ [], rec)
  pass (write_header code) rec = pass_header code rec
  pass (write b) rec = pass_write b rec

  -- The calls of a handler, in their order.
  unfoldable pub pass_all : List (Event B) → Recorder → List (Event B) × Recorder
  pass_all [] rec = ([], rec)
  pass_all (e ∷ events) rec =
      let (first, middle) = pass e rec in
      let (rest, last) = pass_all events middle in (first ++ rest, last)

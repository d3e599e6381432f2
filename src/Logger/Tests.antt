-- ===== src/Logger/Tests.antt =====
-- A line with an attribute of the logger and one of the record.
use tempcdn.Prelude.{◌≡◌, ◌↔◌, refl, [], ◌∷◌, All, ◌++◌, map}
use tempcdn.Prelude.Int.{pos}
use tempcdn.Text.{lit}
use tempcdn.Logger.{
  Attr, other_value, Record, PrettyHandler, Formats, new_pretty_handler, with_attrs, with_group,
  handle, format_value, needs_quotes, level_info,
}
use tempcdn.Logger.Lines.{IsFlat, IsFlatField, AreFlat, line, handle-line_iff}
use tempcdn.Logger.Attrs.{in_group, handle-with_attrs}

abbrev formats : Formats
formats = record {
  clock = λ t. lit "09:00:00.000";
  rfc3339 = λ t. lit "2026-08-10T09:00:00Z";
  duration = λ d. lit "1s";
  quoted = λ s. lit "\"?\"";
}

formats-AreFlat : AreFlat formats
formats-AreFlat = record {
  clocks = λ t. refl;
  times = λ t. refl;
  durations = λ d. refl;
  quotations = λ s. refl;
}

abbrev node : Attr
node = record { key = lit "node"; value = other_value (lit "n1") }

abbrev path : Attr
path = record { key = lit "path"; value = other_value (lit "a b") }

abbrev logger : PrettyHandler
unfolding new_pretty_handler with_attrs
logger = with_attrs (node ∷ []) (new_pretty_handler level_info)

abbrev entry : Record
entry = record { time = 5; level = pos 4; message = lit "m"; attrs = path ∷ [] }

handle-line_iff_example :
    (handle formats logger entry ≡ line formats logger entry ++ lit "\n")
    × (IsFlat (line formats logger entry)
        ↔ (IsFlat (lit "m") × All (IsFlatField []) (node ∷ path ∷ [])))
unfolding logger
handle-line_iff_example = handle-line_iff formats formats-AreFlat logger entry

handle-with_attrs_example :
    (handle formats (with_attrs (node ∷ []) logger) entry
      ≡ handle formats logger (record entry { attrs = node ∷ path ∷ [] }))
    × (handle formats (with_group (lit "g") (with_attrs (node ∷ []) logger)) entry
        ≡ handle formats
            (record logger { attrs = [] })
            (record entry { attrs = map (in_group (lit "g")) (node ∷ node ∷ path ∷ []) }))
unfolding logger
handle-with_attrs_example = handle-with_attrs formats logger (lit "g") (node ∷ []) (path ∷ []) entry

-- A value with the end of a line and no blank is written as it is.
injected : format_value formats (other_value (97 ∷ 10 ∷ 98 ∷ [])) ≡ 97 ∷ 10 ∷ 98 ∷ []
unfolding format_value needs_quotes
injected = refl

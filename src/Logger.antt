-- ===== src/Logger.antt =====
-- internal/logger/logger.go: the handler of `log/slog` that writes one line per record to a terminal.
-- The writer and its mutex are outside: `handle` gives what one call writes. What the standard library
-- makes of times, durations and quotations is `Formats`.
pub mod Lines
pub mod Attrs
mod Tests
use tempcdn.Prelude.{
  ℕ, ◌+◌, ◌/◌, ◌%◌, ◌^◌, ◌==◌, ◌||◌, Bool, true, false, Option, none, some, List, [], ◌∷◌, ◌++◌,
  if◌then◌else◌,
}
use tempcdn.Prelude.Int.{ℤ, pos, negsuc, leb_ℤ}
use tempcdn.Text.{Text, lit, has_char}
use tempcdn.Metadata.Model.{Time}
use tempcdn.Http.Registry.{join}

-- An escape sequence.
abbrev escape : Text → Text
escape code = 27 ∷ code

abbrev pub color_reset : Text
color_reset = escape (lit "[0m")

abbrev pub color_gray : Text
color_gray = escape (lit "[90m")

abbrev pub color_red : Text
color_red = escape (lit "[31m")

abbrev pub color_green : Text
color_green = escape (lit "[32m")

abbrev pub color_yellow : Text
color_yellow = escape (lit "[33m")

abbrev pub color_blue : Text
color_blue = escape (lit "[34m")

abbrev pub color_cyan : Text
color_cyan = escape (lit "[36m")

abbrev pub color_bold : Text
color_bold = escape (lit "[1m")

-- `slog.Level`, with the levels of the library.
abbrev pub Level : Type 0
Level = ℤ

abbrev pub level_info : Level
level_info = pos 0

abbrev pub level_warn : Level
level_warn = pos 4

abbrev pub level_error : Level
level_error = pos 8

-- A resolved `slog.Value` by its kind; of any other kind what `%v` gives.
pub data Value : Type 0 where
  time_value : Time → Value
  duration_value : ℤ → Value
  other_value : Text → Value

pub record Attr : Type 0 where
  pub key : Text
  pub value : Value

pub record Record : Type 0 where
  pub time : Time
  pub level : Level
  pub message : Text
  pub attrs : List Attr

pub record PrettyHandler : Type 0 where
  pub level : Level
  pub attrs : List Attr
  pub groups : List Text

-- `Format("15:04:05.000")`, `Format(time.RFC3339)`, `Duration.String` and `%q`.
pub record Formats : Type 0 where
  pub clock : Time → Text
  pub rfc3339 : Time → Text
  pub duration : ℤ → Text
  pub quoted : Text → Text

unfoldable pub new_pretty_handler : Level → PrettyHandler
new_pretty_handler level = record { level = level; attrs = []; groups = [] }

unfoldable pub enabled : PrettyHandler → Level → Bool
enabled h level = leb_ℤ h.level level

unfoldable pub with_attrs : List Attr → PrettyHandler → PrettyHandler
with_attrs attrs h = record { level = h.level; attrs = h.attrs ++ attrs; groups = h.groups }

unfoldable pub with_group : Text → PrettyHandler → PrettyHandler
with_group name h = record { level = h.level; attrs = h.attrs; groups = h.groups ++ name ∷ [] }

unfoldable pub level_badge : Level → Text
level_badge level =
    if leb_ℤ level_error level
    then color_red ++ color_bold ++ lit "ERROR" ++ color_reset
    else if leb_ℤ level_warn level
    then color_yellow ++ color_bold ++ lit "WARN " ++ color_reset
    else if leb_ℤ level_info level
    then color_green ++ color_bold ++ lit "INFO " ++ color_reset
    else color_blue ++ color_bold ++ lit "DEBUG" ++ color_reset

-- `strings.ContainsAny(s, " \t\"")`
unfoldable pub needs_quotes : Text → Bool
needs_quotes s = has_char b' ' s || has_char 9 s || has_char b'"' s

module _ (f : Formats) where
  unfoldable pub format_value : Value → Text
  format_value (time_value t) = f.rfc3339 t
  format_value (duration_value d) = f.duration d
  format_value (other_value s) = if needs_quotes s then f.quoted s else s

  -- The key of a field, behind the names of the groups.
  unfoldable pub field_key : List Text → Text → Text
  unfolding join
  field_key [] key = key
  field_key (g ∷ groups) key = join (lit ".") (g ∷ groups) ++ lit "." ++ key

  -- The loop over the fields.
  unfoldable pub write_fields : List Text → List Attr → Text
  unfolding field_key format_value
  write_fields groups [] = []
  write_fields groups (a ∷ attrs) =
      lit " "
      ++ color_cyan
      ++ field_key groups a.key
      ++ color_reset
      ++ lit "="
      ++ format_value a.value
      ++ write_fields groups attrs

  -- `Handle`: what it writes.
  unfoldable pub handle : PrettyHandler → Record → Text
  unfolding level_badge write_fields
  handle h r =
      color_gray
      ++ f.clock r.time
      ++ color_reset
      ++ lit " "
      ++ level_badge r.level
      ++ lit " "
      ++ color_bold
      ++ r.message
      ++ color_reset
      ++ write_fields h.groups (h.attrs ++ r.attrs)
      ++ lit "\n"

-- The handler that `New` takes.
pub data LogHandler : Type 0 where
  pretty_log : PrettyHandler → LogHandler
  json_log : Level → LogHandler

-- The mode of standard output, if `Stat` gives one; bit 21 is `os.ModeCharDevice`.
unfoldable pub is_terminal : Option ℕ → Bool
is_terminal none = false
is_terminal (some mode) = (mode / 2 ^ 21) % 2 == 1

unfoldable pub new_logger : Option ℕ → LogHandler
unfolding is_terminal new_pretty_handler
new_logger mode =
    if is_terminal mode then pretty_log (new_pretty_handler level_info) else json_log level_info

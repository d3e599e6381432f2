-- ===== src/Logger/Lines.antt =====
-- What the lines of the log look like.
use tempcdn.Prelude.{ℕ, ◌≡◌, ◌↔◌, ◌⊎◌, refl, ◌||◌, true, false, List, [], ◌∷◌, ◌++◌, All, arith}
use tempcdn.Prelude.Int.{ℤ}
use tempcdn.Text.{Text, lit, has_char}
use tempcdn.Metadata.Model.{Time}
use tempcdn.Http.Registry.{join}
use tempcdn.Logger.{
  Attr, Value, time_value, duration_value, other_value, Record, PrettyHandler, Formats, Level,
  needs_quotes, format_value, field_key, write_fields, level_badge, handle, color_gray, color_reset,
  color_bold, color_cyan,
}

-- No line ends in the text.
abbrev pub IsFlat : Text → Type 0
IsFlat t = has_char 10 t ≡ false

-- What the standard library documents: times and durations are written without a line's end, and a
-- quotation has it escaped.
pub record AreFlat (f : Formats) : Type 0 where
  pub clocks : (t : Time) → IsFlat (f.clock t)
  pub times : (t : Time) → IsFlat (f.rfc3339 t)
  pub durations : (d : ℤ) → IsFlat (f.duration d)
  pub quotations : (s : Text) → IsFlat (f.quoted s)

-- A value has a blank, a tab or a quotation mark, or it has no line's end.
abbrev pub IsFlatValue : Value → Type 0
IsFlatValue (time_value t) = Unit
IsFlatValue (duration_value d) = Unit
IsFlatValue (other_value s) =
    (has_char b' ' s ≡ true) ⊎ (has_char 9 s ≡ true) ⊎ (has_char b'"' s ≡ true) ⊎ IsFlat s

abbrev pub IsFlatField : List Text → Attr → Type 0
IsFlatField groups a = All IsFlat groups × IsFlat a.key × IsFlatValue a.value

has_char-append : (c : ℕ) (s t : Text) → has_char c (s ++ t) ≡ (has_char c s || has_char c t)
has_char-append c [] t = refl
has_char-append c (d ∷ s) t = ground (arith, has_char-append c s t)

append-IsFlat_iff : (s t : Text) → IsFlat (s ++ t) ↔ (IsFlat s × IsFlat t)
append-IsFlat_iff s t = ground (arith, has_char-append 10 s t)

dotted-IsFlat_iff : (s t : Text) → IsFlat (s ++ lit "." ++ t) ↔ (IsFlat s × IsFlat t)
dotted-IsFlat_iff s t =
    ground (arith, append-IsFlat_iff (s ++ lit ".") t, append-IsFlat_iff s (lit "."))

-- A field: a blank, the coloured key, an equals sign and the value, before the rest.
field-IsFlat_iff :
    (k v t : Text)
    → IsFlat (lit " " ++ color_cyan ++ k ++ color_reset ++ lit "=" ++ v ++ t)
      ↔ (IsFlat k × IsFlat v × IsFlat t)
field-IsFlat_iff k v t = ground (
  arith,
  append-IsFlat_iff (lit " " ++ color_cyan ++ k ++ color_reset ++ lit "=" ++ v) t,
  append-IsFlat_iff (lit " " ++ color_cyan ++ k ++ color_reset ++ lit "=") v,
  append-IsFlat_iff (lit " " ++ color_cyan ++ k ++ color_reset) (lit "="),
  append-IsFlat_iff (lit " " ++ color_cyan ++ k) color_reset,
  append-IsFlat_iff (lit " " ++ color_cyan) k,
)

join-IsFlat_iff : (groups : List Text) → IsFlat (join (lit ".") groups) ↔ All IsFlat groups
unfolding join
join-IsFlat_iff [] = ((λ h. tt), λ h. refl)
join-IsFlat_iff (g ∷ []) = ((λ h. (h, tt)), λ h. h.0)
join-IsFlat_iff (g ∷ k ∷ groups) =
    ground (arith, dotted-IsFlat_iff g (join (lit ".") (k ∷ groups)), join-IsFlat_iff (k ∷ groups))

line_parts-IsFlat_iff :
    (c b m t : Text)
    → IsFlat c
    → IsFlat b
    → IsFlat (
        color_gray
        ++ c
        ++ color_reset
        ++ lit " "
        ++ b
        ++ lit " "
        ++ color_bold
        ++ m
        ++ color_reset
        ++ t)
      ↔ (IsFlat m × IsFlat t)
line_parts-IsFlat_iff c b m t hc hb = ground (
  arith,
  append-IsFlat_iff
      (color_gray ++ c ++ color_reset ++ lit " " ++ b ++ lit " " ++ color_bold ++ m ++ color_reset)
      t,
  append-IsFlat_iff (color_gray ++ c ++ color_reset ++ lit " " ++ b ++ lit " " ++ color_bold ++ m)
      color_reset,
  append-IsFlat_iff (color_gray ++ c ++ color_reset ++ lit " " ++ b ++ lit " " ++ color_bold) m,
  append-IsFlat_iff (color_gray ++ c ++ color_reset ++ lit " " ++ b ++ lit " ") color_bold,
  append-IsFlat_iff (color_gray ++ c ++ color_reset ++ lit " " ++ b) (lit " "),
  append-IsFlat_iff (color_gray ++ c ++ color_reset ++ lit " ") b,
  append-IsFlat_iff (color_gray ++ c ++ color_reset) (lit " "),
  append-IsFlat_iff (color_gray ++ c) color_reset,
  append-IsFlat_iff color_gray c,
)

module _ (f : Formats) where
  -- What precedes the end of the line.
  abbrev pub line : PrettyHandler → Record → Text
  line h r =
      color_gray
      ++ f.clock r.time
      ++ color_reset
      ++ lit " "
      ++ level_badge r.level
      ++ lit " "
      ++ color_bold
      ++ r.message
      ++ color_reset
      ++ write_fields f h.groups (h.attrs ++ r.attrs)

module _ (f : Formats) (flat : AreFlat f) where
  field_key-IsFlat_iff :
      (groups : List Text) (key : Text)
      → IsFlat (field_key f groups key) ↔ (All IsFlat groups × IsFlat key)
  unfolding field_key
  field_key-IsFlat_iff [] key = ((λ h. (tt, h)), λ h. h.1)
  field_key-IsFlat_iff (g ∷ groups) key =
      let names = dotted-IsFlat_iff (join (lit ".") (g ∷ groups)) key in
      let prefix = join-IsFlat_iff (g ∷ groups) in
      ((λ h. (prefix.0 (names.0 h).0, (names.0 h).1)), λ h. names.1 (prefix.1 h.0, h.1))

  format_value-IsFlat_iff : (v : Value) → IsFlat (format_value f v) ↔ IsFlatValue v
  unfolding format_value needs_quotes
  format_value-IsFlat_iff (time_value t) = ((λ h. tt), λ h. flat.times t)
  format_value-IsFlat_iff (duration_value d) = ((λ h. tt), λ h. flat.durations d)
  format_value-IsFlat_iff (other_value s) = ground (arith, flat.quotations s)

  write_fields-IsFlat_iff :
      (groups : List Text) (attrs : List Attr)
      → IsFlat (write_fields f groups attrs) ↔ All (IsFlatField groups) attrs
  unfolding write_fields
  write_fields-IsFlat_iff groups [] = ((λ h. tt), λ h. refl)
  write_fields-IsFlat_iff groups (a ∷ attrs) =
      let first =
        field-IsFlat_iff (field_key f groups a.key) (format_value f a.value)
          (write_fields f groups attrs) in
      let key = field_key-IsFlat_iff groups a.key in
      let value = format_value-IsFlat_iff a.value in
      let rest = write_fields-IsFlat_iff groups attrs in
      (
        (λ h. let (k, v, t) = first.0 h in ((((key.0 k).0, (key.0 k).1, value.0 v)), rest.0 t)),
        λ h.
            let (groups_flat, key_flat, value_flat) = h.0 in
            first.1 (key.1 (groups_flat, key_flat), value.1 value_flat, rest.1 h.1),
      )

  level_badge-IsFlat : (level : Level) → IsFlat (level_badge level)
  unfolding level_badge
  level_badge-IsFlat level = ground arith

  -- A record is written as a text and a line's end. The text itself has no line's end exactly if the
  -- message has none and, of the fields, the names of the groups, the keys and those values have none
  -- that are neither times nor durations and have no blank, no tab and no quotation mark.
  pub handle-line_iff :
      (h : PrettyHandler) (r : Record)
      → (handle f h r ≡ line f h r ++ lit "\n")
        × (IsFlat (line f h r)
            ↔ (IsFlat r.message × All (IsFlatField h.groups) (h.attrs ++ r.attrs)))
  unfolding handle
  handle-line_iff h r = (
    refl,
    let fields = write_fields-IsFlat_iff h.groups (h.attrs ++ r.attrs) in
        let whole =
          line_parts-IsFlat_iff (f.clock r.time) (level_badge r.level) r.message
            (write_fields f h.groups (h.attrs ++ r.attrs)) (flat.clocks r.time)
            (level_badge-IsFlat r.level) in
        ((λ k. ((whole.0 k).0, fields.0 (whole.0 k).1)), λ k. whole.1 (k.0, fields.1 k.1)),
  )

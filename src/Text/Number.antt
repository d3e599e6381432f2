-- ===== src/Text/Number.antt =====
-- The functions of the package `strconv` that the program calls.
use tempcdn.Prelude.{
  ℕ, ◌+◌, ◌-◌, ◌*◌, ◌^◌, ◌≡◌, refl, Bool, true, false, ◌&&◌, ◌||◌, Option, none, some, [], ◌∷◌, ltb,
  leb, ◌==◌, if◌then◌else◌,
}
use tempcdn.Prelude.Int.{ℤ, pos, negsuc}
use tempcdn.Text.{Text, lit, same}

-- The number that digits spell behind `n`; `none` where a character is no digit.
unfoldable pub digits_value : ℕ → Text → Option ℕ
digits_value n [] = some n
digits_value n (c ∷ s) =
    let rest = digits_value (n * 10 + (c - b'0')) s in
    if leb b'0' c && leb c b'9' then rest else none

-- One or more digits.
unfoldable pub unsigned : Text → Option ℕ
unfolding digits_value
unsigned [] = none
unsigned (c ∷ s) = digits_value 0 (c ∷ s)

-- A value that an `int` of 64 bits holds, with the sign.
abbrev pub positive_int : Option ℕ → Option ℤ
positive_int none = none
positive_int (some n) = if ltb n (2 ^ 63) then some (pos n) else none

abbrev pub negative_int : Option ℕ → Option ℤ
negative_int none = none
negative_int (some n) =
    if n == 0 then some (pos 0) else if leb n (2 ^ 63) then some (negsuc (n - 1)) else none

-- `strconv.Atoi(s)`, on a platform of 64 bits
unfoldable pub atoi : Text → Option ℤ
unfolding unsigned
atoi [] = none
atoi (c ∷ s) =
    if c == b'-'
    then negative_int (unsigned s)
    else if c == b'+'
    then positive_int (unsigned s)
    else positive_int (unsigned (c ∷ s))

-- `strconv.ParseBool(s)`
unfoldable pub parse_bool : Text → Option Bool
unfolding same
parse_bool s =
    if same s (lit "1")
      || same s (lit "t")
      || same s (lit "T")
      || same s (lit "TRUE")
      || same s (lit "true")
      || same s (lit "True")
    then some true
    else if same s (lit "0")
        || same s (lit "f")
        || same s (lit "F")
        || same s (lit "FALSE")
        || same s (lit "false")
        || same s (lit "False")
    then some false
    else none

atoi_cases :
    (atoi (lit "-12") ≡ some (negsuc 11))
    × (atoi (lit "+7") ≡ some (pos 7))
    × (atoi (lit "007") ≡ some (pos 7))
    × (atoi (lit "9223372036854775808") ≡ none)
    × (atoi (lit "1_0") ≡ none)
    × (atoi (lit "-") ≡ none)
unfolding atoi
atoi_cases = (refl, refl, refl, refl, refl, refl)

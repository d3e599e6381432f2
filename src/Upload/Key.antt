-- ===== src/Upload/Key.antt =====
-- internal/upload/service.go: `buildObjectKey`, the key of an object: the date, the identifier of the
-- file and the extension of its name.
use tempcdn.Prelude.{ℕ, zero, suc, ◌+◌, ◌-◌, ◌/◌, ◌%◌, [], ◌∷◌, ◌++◌, length, ltb, if◌then◌else◌}
use tempcdn.Text.{Text, lit, ext}

-- A year, a month and a day.
pub record Date : Type 0 where
  pub year : ℕ
  pub month : ℕ
  pub day : ℕ

-- The decimal digits of `n` in front of `acc`; `n + 1` rounds are more than enough.
unfoldable pub digits_from : ℕ → ℕ → Text → Text
digits_from zero n acc = acc
digits_from (suc f) n acc =
    let rest = digits_from f (n / 10) ((b'0' + n % 10) ∷ acc) in
    if ltb n 10 then (b'0' + n) ∷ acc else rest

abbrev zeros : ℕ → Text
zeros zero = []
zeros (suc n) = b'0' ∷ zeros n

-- `%0<width>d`
unfoldable pub padded : ℕ → ℕ → Text
unfolding digits_from
padded width n = let s = digits_from (suc n) n [] in zeros (width - length s) ++ s

unfoldable pub date_path : Date → Text
unfolding padded
date_path d = padded 4 d.year ++ (b'/' ∷ (padded 2 d.month ++ (b'/' ∷ (padded 2 d.day ++ lit "/"))))

unfoldable pub build_object_key : Date → Text → Text → Text
unfolding date_path ext
build_object_key d file_id original_name = date_path d ++ (file_id ++ ext original_name)

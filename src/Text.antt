-- ===== src/Text.antt =====
-- Go strings as sequences of code points, and the functions of the packages `strings`, `unicode`
-- and `path/filepath` that the program calls. A literal is `lit "..."`. The unit is the code point
-- and not the byte: the program never indexes a string by a position that it did not find by a
-- search for an ASCII character.
pub mod Laws
pub mod Number
use Prim.Native.Char.{code}
use Prim.Native.String.{String}
use tempcdn.Prelude.{
  ℕ, suc, ◌+◌, ◌≡◌, Bool, true, false, ◌&&◌, ◌||◌, List, [], ◌∷◌, ◌++◌, reverse, leb, ◌==◌,
  if◌then◌else◌,
}

abbrev pub Text : Type 0
Text = List ℕ

abbrev pub lit : String → Text
lit String.[] = []
lit (String.◌∷◌ c s) = code c ∷ lit s

-- `s == t`
unfoldable pub same : Text → Text → Bool
same [] [] = true
same [] (d ∷ t) = false
same (c ∷ s) [] = false
same (c ∷ s) (d ∷ t) = c == d && same s t

-- `s == ""`
abbrev pub is_empty : Text → Bool
is_empty [] = true
is_empty (c ∷ s) = false

-- `strings.HasPrefix(s, prefix)`
unfoldable pub has_prefix : Text → Text → Bool
has_prefix s [] = true
has_prefix [] (p ∷ ps) = false
has_prefix (c ∷ s) (p ∷ ps) = c == p && has_prefix s ps

-- `strings.HasSuffix(s, suffix)`
unfoldable pub has_suffix : Text → Text → Bool
has_suffix [] suffix = same [] suffix
has_suffix (c ∷ s) suffix = same (c ∷ s) suffix || has_suffix s suffix

-- `strings.TrimSuffix(s, suffix)`
unfoldable pub trim_suffix : Text → Text → Text
trim_suffix [] suffix = []
trim_suffix (c ∷ s) suffix =
    let rest = trim_suffix s suffix in if same (c ∷ s) suffix then [] else c ∷ rest

-- `strings.Contains(s, substr)`
unfoldable pub contains : Text → Text → Bool
contains [] substr = same [] substr
contains (c ∷ s) substr = has_prefix (c ∷ s) substr || contains s substr

-- `strings.SplitN(s, sep, 2)[0]`, for a separator of one character
unfoldable pub before : ℕ → Text → Text
before sep [] = []
before sep (c ∷ s) = if c == sep then [] else c ∷ before sep s

-- The loop of `strings.Split(s, sep)`, for a separator of one character; `part` is the part that
-- is being read, in reverse.
unfoldable pub split_from : ℕ → Text → Text → List Text
split_from sep part [] = reverse part ∷ []
split_from sep part (c ∷ s) = elim (c == sep) [
  | true ↦ reverse part ∷ split_from sep [] s
  | false ↦ split_from sep (c ∷ part) s
]

unfoldable pub split : ℕ → Text → List Text
unfolding split_from
split sep s = split_from sep [] s

-- `unicode.IsSpace(r)`
unfoldable pub is_space : ℕ → Bool
is_space c =
    (leb 9 c && leb c 13)
    || c == 32
    || c == 0x85
    || c == 0xa0
    || c == 0x1680
    || (leb 0x2000 c && leb c 0x200a)
    || c == 0x2028
    || c == 0x2029
    || c == 0x202f
    || c == 0x205f
    || c == 0x3000

unfoldable pub trim_left : Text → Text
unfolding is_space
trim_left [] = []
trim_left (c ∷ s) = if is_space c then trim_left s else c ∷ s

-- `strings.TrimSpace(s)`
unfoldable pub trim_space : Text → Text
unfolding trim_left
trim_space s = reverse (trim_left (reverse (trim_left s)))

-- `strings.TrimRight(s, cutset)`, for a cutset of one character
unfoldable pub trim_right_all : ℕ → Text → Text
trim_right_all cut [] = []
trim_right_all cut (c ∷ s) =
    let rest = trim_right_all cut s in if is_empty rest && c == cut then [] else c ∷ rest

-- The loop of `filepath.Ext`, over the name from its end; `seen` is what the loop has passed.
unfoldable pub ext_from : Text → Text → Text
ext_from [] seen = []
ext_from (c ∷ s) seen =
    let rest = ext_from s (c ∷ seen) in
    if c == b'/' then [] else if c == b'.' then c ∷ seen else rest

-- `filepath.Ext(path)` where the path separator is `/`
unfoldable pub ext : Text → Text
unfolding ext_from
ext path = ext_from (reverse path) []

-- Whether the text has the character.
abbrev pub has_char : ℕ → Text → Bool
has_char c [] = false
has_char c (d ∷ s) = d == c || has_char c s

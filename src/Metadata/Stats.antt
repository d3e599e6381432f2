-- ===== src/Metadata/Stats.antt =====
-- internal/metadata/postgres_repository_files.go: `Stats`, and `topLevelMimeType` of
-- internal/metadata/repository.go. A Go map from texts to numbers, and the answer of GROUP BY, are
-- lists of keys with their numbers. Sums are taken to stay below 2^63.
pub mod Exact
mod Tests
use tempcdn.Prelude.{ℕ, ◌+◌, Bool, List, [], ◌∷◌, length, filter, ltb, if◌then◌else◌}
use tempcdn.Text.{Text, lit, same, before, is_empty, has_char}
use tempcdn.Action.{Action, pure, wrap, ◌>>=◌}
use tempcdn.Metadata.Model.{Time, FileRecord, Error, database}
use tempcdn.Metadata.Conn.{query}
use tempcdn.Metadata.Files.{FilesDb}

abbrev pub Counts : Type 0
Counts = List (Text × ℕ)

-- `counts[key] += n`
unfoldable pub add_count : Text → ℕ → Counts → Counts
add_count key n [] = (key, n) ∷ []
add_count key n ((k, m) ∷ counts) =
    let rest = add_count key n counts in if same key k then (k, m + n) ∷ counts else (k, m) ∷ rest

-- `counts[key]`
unfoldable pub count_of : Text → Counts → ℕ
count_of key [] = 0
count_of key ((k, m) ∷ counts) = let rest = count_of key counts in if same key k then m else rest

-- An index of a slash that is at most 0 is that of no slash, or of one at the beginning.
unfoldable pub top_level_mime_type : Text → Text
unfolding before
top_level_mime_type content_type =
    if has_char b'/' content_type
    then if is_empty (before b'/' content_type) then lit "other" else before b'/' content_type
    else lit "other"

pub record Stats : Type 0 where
  pub active_file_count : ℕ
  pub active_bytes : ℕ
  pub content_type_breakdown : Counts

abbrev pub total_size : List FileRecord → ℕ
total_size [] = 0
total_size (r ∷ rows) = r.size_bytes + total_size rows

-- `COUNT(*), COALESCE(SUM(size_bytes), 0)`
abbrev pub summary_of : List FileRecord → ℕ × ℕ
summary_of rows = (length rows, total_size rows)

-- `WHERE expires_at > $1`
abbrev pub active_rows : Time → List FileRecord → List FileRecord
active_rows now rows = filter (λ r. ltb now r.expires_at) rows

-- `SELECT content_type, COUNT(*) ... GROUP BY content_type`
unfoldable pub by_content_type : List FileRecord → Counts
unfolding add_count
by_content_type [] = []
by_content_type (r ∷ rows) = add_count r.content_type 1 (by_content_type rows)

-- The loop over the groups.
unfoldable pub breakdown : Counts → Counts → Counts
unfolding add_count top_level_mime_type
breakdown [] counts = counts
breakdown ((content_type, n) ∷ groups) counts =
    breakdown groups (add_count (top_level_mime_type content_type) n counts)

unfoldable pub stats : Time → Action FilesDb Error Stats
unfolding query by_content_type breakdown
stats now = do
  summary ← wrap database (query (λ rows. summary_of (active_rows now rows)))
  groups ← wrap database (query (λ rows. by_content_type (active_rows now rows)))
  pure (record {
    active_file_count = summary.0;
    active_bytes = summary.1;
    content_type_breakdown = breakdown groups [];
  })

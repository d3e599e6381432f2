-- ===== src/Metadata/Stats/Tests.antt =====
-- A table with two images, of which one has expired, and a text.
use tempcdn.Prelude.{ℕ, ◌≡◌, refl, [], ◌∷◌, length}
use tempcdn.Text.{Text, lit, same, before}
use tempcdn.Action.{ok}
use tempcdn.Metadata.Model.{Time, FileRecord}
use tempcdn.Metadata.Conn.{query, run}
use tempcdn.Metadata.Files.{FilesDb}
use tempcdn.Metadata.Stats.{
  Stats, add_count, count_of, top_level_mime_type, total_size, active_rows, by_content_type,
  breakdown, stats,
}
use tempcdn.Metadata.Stats.Exact.{of_type, stats-eq-ok}

abbrev row : Text → Text → ℕ → Time → FileRecord
row id content_type size expires_at = record {
  id = id;
  original_name = id;
  content_type = content_type;
  size_bytes = size;
  checksum_sha256 = id;
  object_key = id;
  cdn_url = id;
  uploader_ip_hash = [];
  delete_token_hash = [];
  created_at = 0;
  expires_at = expires_at;
}

abbrev db : FilesDb
db = record {
  tables =
      row (lit "a") (lit "image/png") 10 5
      ∷ row (lit "b") (lit "image/gif") 20 50
      ∷ row (lit "c") (lit "text") 30 60
      ∷ row (lit "d") (lit "image/png") 40 70
      ∷ [];
  outcomes = [];
}

abbrev reported : Stats
reported = record {
  active_file_count = 3;
  active_bytes = 90;
  content_type_breakdown = (lit "image", 2) ∷ (lit "other", 1) ∷ [];
}

is_reported : (stats 10 db).0 ≡ ok reported
unfolding stats query run by_content_type breakdown add_count top_level_mime_type before same
is_reported = refl

stats-eq-ok_example :
    (3 ≡ length (active_rows 10 db.tables))
    × (90 ≡ total_size (active_rows 10 db.tables))
    × ((key : Text)
        → count_of key reported.content_type_breakdown
          ≡ length (of_type key (active_rows 10 db.tables)))
stats-eq-ok_example = stats-eq-ok 10 db reported is_reported

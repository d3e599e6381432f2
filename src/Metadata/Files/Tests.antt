-- ===== src/Metadata/Files/Tests.antt =====
-- Queries on a table of three rows.
use tempcdn.Prelude.{ℕ, ◌≡◌, refl, [], ◌∷◌}
use tempcdn.Text.{Text, lit, same}
use tempcdn.Action.{ok}
use tempcdn.Metadata.Model.{FileRecord}
use tempcdn.Metadata.Sql.{order_by}
use tempcdn.Metadata.Conn.{run, query}
use tempcdn.Metadata.Files.{
  FilesDb, find_active_by_checksum, active_by_checksum, find_expired, expired_rows,
}

abbrev row : Text → Text → ℕ → ℕ → FileRecord
row id checksum created expires = record {
  id = id;
  original_name = lit "a.txt";
  content_type = lit "text/plain";
  size_bytes = 2;
  checksum_sha256 = checksum;
  object_key = id;
  cdn_url = lit "https://cdn/";
  uploader_ip_hash = [];
  delete_token_hash = [];
  created_at = created;
  expires_at = expires;
}

abbrev table : FilesDb
table = record {
  tables =
      row (lit "a") (lit "x") 1 101
      ∷ row (lit "b") (lit "x") 5 105
      ∷ row (lit "c") (lit "y") 2 20
      ∷ [];
  outcomes = [];
}

newest : (find_active_by_checksum (lit "x") 50 table).0 ≡ ok (row (lit "b") (lit "x") 5 105)
unfolding find_active_by_checksum active_by_checksum order_by query run same
newest = refl

expired_two :
    (find_expired (λ r. same r.id (lit "c")) 102 10 table).0
    ≡ ok (row (lit "a") (lit "x") 1 101 ∷ [])
unfolding find_expired expired_rows order_by query run same
expired_two = refl

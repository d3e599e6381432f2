-- ===== src/File/Handler/Tests.antt =====
-- A deletion request with its token in the query.
use tempcdn.Prelude.{◌≡◌, refl, true, some, [], ◌∷◌, if◌then◌else◌}
use tempcdn.Text.{Text, lit, same}
use tempcdn.IdGen.{hash_delete_token, delete_token_matches}
use tempcdn.Storage.Memory.{Memory, memory_storage, delete_memory}
use tempcdn.Metadata.Model.{FileRecord, is_expired}
use tempcdn.Metadata.Conn.{run, query}
use tempcdn.Metadata.Files.{find_by_id, delete_by_id}
use tempcdn.File.Service.{
  Platform, World, delete_before_ttl, after_find, authorised, after_tests, delete_record,
  after_delete,
}
use tempcdn.File.Handler.{extract_delete_token, serve_delete, delete_response}

abbrev platform : Platform Memory
platform = record {
  sha256_hex = λ b. b'#' ∷ b;
  objects = memory_storage;
  cache_purge_on = true;
  has_purger = true;
}

abbrev row : FileRecord
row = record {
  id = lit "id1";
  original_name = lit "a.txt";
  content_type = lit "text/plain";
  size_bytes = 2;
  checksum_sha256 = lit "#hi";
  object_key = lit "k1";
  cdn_url = lit "u1";
  uploader_ip_hash = [];
  delete_token_hash = lit "#t";
  created_at = 0;
  expires_at = 90;
}

abbrev world : World Memory
world = record {
  files = record { tables = row ∷ []; outcomes = [] };
  storage = λ k. some (lit "hi");
  purges = [];
}

abbrev no_header : Text → Text
no_header name = []

abbrev token_query : Text → Text
token_query name = if same name (lit "delete_token") then lit "t" else []

is_200 : (serve_delete platform (lit "id1") no_header token_query 50 world).0.status ≡ 200
unfolding serve_delete extract_delete_token delete_response delete_before_ttl after_find authorised
    after_tests delete_record after_delete find_by_id delete_by_id run query same hash_delete_token
    delete_token_matches is_expired delete_memory
is_200 = refl

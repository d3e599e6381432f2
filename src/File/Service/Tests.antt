-- ===== src/File/Service/Tests.antt =====
-- Deletions from a table of one row, over an object store that works and one that refuses.
use tempcdn.Prelude.{◌≡◌, ◌⊎◌, ◌++◌, refl, true, some, [], ◌∷◌, arith}
use tempcdn.Text.{lit, same}
use tempcdn.Action.{ok, err}
use tempcdn.IdGen.{delete_token_matches, hash_delete_token}
use tempcdn.Storage.{ObjectStorage}
use tempcdn.Storage.Memory.{Memory, memory_storage, refusing_storage, delete_memory, refuse_delete}
use tempcdn.Metadata.Model.{FileRecord, is_expired}
use tempcdn.Metadata.Files.{find_by_id, delete_by_id, by_id}
use tempcdn.File.Service.{
  Platform, World, not_found, invalid_delete_token, already_expired, delete_before_ttl, after_find,
  after_tests, authorised, delete_record, after_delete,
}
use tempcdn.File.Service.Deletes.{
  IsAuthorised, IsDeleted, Unchanged, purge_of, delete_before_ttl-IsGuarded,
  delete_before_ttl-eq-ok,
}
use tempcdn.File.Service.Answers.{Verdict, delete_before_ttl-answer}

deletions : Unit {0}
unfolding delete_before_ttl after_find after_tests authorised delete_record after_delete find_by_id
    delete_by_id same delete_token_matches hash_delete_token is_expired delete_memory refuse_delete
deletions = tt

abbrev over : ObjectStorage Memory → Platform Memory
over objects = record {
  sha256_hex = λ b. b'#' ∷ b;
  objects = objects;
  cache_purge_on = true;
  has_purger = true;
}

abbrev row : FileRecord
row = record {
  id = lit "id1";
  original_name = lit "a.txt";
  content_type = lit "text/plain";
  size_bytes = 2;
  checksum_sha256 = lit "#hi";
  object_key = lit "k1";
  cdn_url = lit "u1";
  uploader_ip_hash = [];
  delete_token_hash = lit "#t";
  created_at = 0;
  expires_at = 90;
}

abbrev world : World Memory
world = record {
  files = record { tables = row ∷ []; outcomes = [] };
  storage = λ k. some (lit "hi");
  purges = [];
}

answers :
    ((delete_before_ttl (over memory_storage) (lit "id1") (lit "t") 50 world).0 ≡ ok tt)
    × ((delete_before_ttl (over memory_storage) (lit "id1") (lit "u") 50 world).0
        ≡ err invalid_delete_token)
    × ((delete_before_ttl (over memory_storage) (lit "id1") (lit "t") 91 world).0
        ≡ err already_expired)
    × ((delete_before_ttl (over memory_storage) (lit "id2") (lit "t") 50 world).0 ≡ err not_found)
unfolding deletions
answers = (refl, refl, refl, refl)

delete_before_ttl-IsGuarded_example :
    Unchanged
      (over memory_storage)
      world
      (delete_before_ttl (over memory_storage) (lit "id1") (lit "u") 50 world).1
    ⊎ ((r : FileRecord) × IsAuthorised (over memory_storage) (lit "id1") (lit "u") 50 (row ∷ []) r)
delete_before_ttl-IsGuarded_example =
    delete_before_ttl-IsGuarded (over memory_storage) (lit "id1") (lit "u") 50 world

delete_before_ttl-eq-ok_example :
    (r : FileRecord) × IsAuthorised (over memory_storage) (lit "id1") (lit "t") 50 (row ∷ []) r
    × IsDeleted
        (over memory_storage)
        (lit "id1")
        r
        world
        (delete_before_ttl (over memory_storage) (lit "id1") (lit "t") 50 world).1
    × ((delete_before_ttl (over memory_storage) (lit "id1") (lit "t") 50 world).1.purges
        ≡ [] ++ purge_of (over memory_storage) r)
delete_before_ttl-eq-ok_example =
    delete_before_ttl-eq-ok (over memory_storage) (lit "id1") (lit "t") 50 world tt answers.0

delete_before_ttl-answer_example :
    (delete_before_ttl (over memory_storage) (lit "id1") (lit "t") 91 world).0
    ≡ Verdict (over memory_storage) (lit "t") 91 (by_id (lit "id1") (row ∷ []))
delete_before_ttl-answer_example =
    delete_before_ttl-answer (over memory_storage) (lit "id1") (lit "t") 91 world tt

row-IsAuthorised : IsAuthorised (over refusing_storage) (lit "id1") (lit "t") 50 (row ∷ []) row
unfolding deletions
row-IsAuthorised = record {
  found = refl;
  has_token = λ e. cc e;
  has_hash = λ e. cc e;
  right_token = refl;
  not_expired = omega arith;
}

kept_object : (refuse_delete (lit "k1") world.storage).1 (lit "k1") ≡ some (lit "hi")
unfolding deletions
kept_object = refl

-- ===== src/Upload/Service/Tests.antt =====
-- Uploads of a small text file, over an object store in memory.
use tempcdn.Prelude.{
  ℕ, ◌+◌, ◌≡◌, ◌≢◌, refl, true, false, none, some, [], ◌∷◌, leb, if◌then◌else◌, ◌&&◌, arith,
}
use tempcdn.Prelude.Int.{pos}
use tempcdn.Text.{
  Text, lit, same, has_prefix, has_suffix, trim_suffix, contains, before, trim_space, ext,
}
use tempcdn.Action.{ok, err}
use tempcdn.IdGen.{hash_delete_token}
use tempcdn.Storage.Memory.{Memory, memory_storage, put_memory, delete_memory}
use tempcdn.Metadata.Model.{Time, stored_time, Cause, database}
use tempcdn.Metadata.Conn.{done, refused}
use tempcdn.Metadata.Files.{insert, find_active_by_checksum, active_by_checksum}
use tempcdn.Upload.Validator.{
  Rules, validate_size, validate_extension, detect_and_validate_content_type, matches_mime_pattern,
}
use tempcdn.Upload.Checksum.{copy_loop, read, sum_hex, new_checksumming_reader}
use tempcdn.Upload.Key.{build_object_key}
use tempcdn.Upload.Service.{
  Platform, Service, Chance, Input, World, UploadResult, size_mismatch, persist, upload, dedup,
  check_input, spool_input, spool_content, read_header_of, after_lookup, store, put_new, after_put,
  persist_record, after_insert, new_record, new_object_key, new_service,
}
use tempcdn.Upload.Service.Backed.{AllBacked, upload-AllBacked}
use tempcdn.Upload.Service.Answers.{Succeeds, upload-Succeeds}
use tempcdn.Upload.Service.Refuses.{upload-eq-err}
use tempcdn.Upload.Service.Dedup.{IsAccepted, upload_again}

uploads : Unit {0}
unfolding upload dedup check_input spool_input spool_content read_header_of after_lookup store
    put_new after_put persist_record after_insert build_object_key new_service insert
    find_active_by_checksum active_by_checksum validate_size validate_extension
    detect_and_validate_content_type matches_mime_pattern copy_loop read sum_hex
    new_checksumming_reader same has_prefix has_suffix trim_suffix contains before trim_space ext
    hash_delete_token put_memory delete_memory
uploads = tt

abbrev ascii_lower : ℕ → ℕ
ascii_lower c = if leb b'A' c && leb c b'Z' then c + 32 else c

abbrev platform : Platform Memory
platform = record {
  sha256_hex = λ b. b'#' ∷ b;
  lower = ascii_lower;
  detect_content_type = λ b. lit "text/plain; charset=utf-8";
  date = λ t. record { year = 2026; month = 8; day = 10 };
  objects = memory_storage;
}

abbrev service : Service
service = record { file_ttl = pos 100000; public_base_url = lit "https://cdn" }

abbrev rules : Rules
rules = record {
  max_size_bytes = pos 10;
  allowed_mime_types = lit "image/*" ∷ lit "text/plain" ∷ [];
  blocked_extensions = lit ".exe" ∷ [];
}

abbrev chance_at : Time → Text → Chance
chance_at now id = record {
  size_rules = rules;
  extension_rules = rules;
  type_rules = rules;
  temp_file_created = true;
  temp_file_written = true;
  temp_file_rewound = true;
  now = now;
  file_id = id;
  delete_token = some (lit "t0");
}

abbrev request : Text → Input
request name = record {
  original_name = name;
  size_bytes = pos 2;
  content = record { rest = lit "hi"; fails = none };
  uploader_ip_hash = lit "ip";
}

abbrev empty_world : World Memory
empty_world = record { files = record { tables = []; outcomes = [] }; storage = λ k. none }

abbrev stored : UploadResult
stored = record {
  file_record =
      new_record platform service (chance_at 50 (lit "id1")) (request (lit "a.txt"))
        (lit "text/plain") (lit "hi") (lit "#hi") (lit "t0");
  duplicate = false;
  delete_token = lit "t0";
}

upload_a :
    (upload platform service (chance_at 50 (lit "id1")) (request (lit "a.txt")) empty_world).0
    ≡ ok stored
unfolding uploads
upload_a = refl

key_of_a :
    new_object_key platform service (chance_at 50 (lit "id1")) (request (lit "a.txt"))
    ≡ lit "2026/08/10/id1.txt"
unfolding uploads
key_of_a = refl

abbrev after_a : World Memory
unfolding uploads
after_a = (upload platform service (chance_at 50 (lit "id1")) (request (lit "a.txt")) empty_world).1

abbrev other_request : Input
other_request = record {
  original_name = lit "b.txt";
  size_bytes = pos 3;
  content = record { rest = lit "hey"; fails = none };
  uploader_ip_hash = lit "ip";
}

upload-AllBacked_example :
    AllBacked platform (upload platform service (chance_at 60 (lit "id2")) other_request after_a).1
unfolding uploads
upload-AllBacked_example =
    upload-AllBacked platform service (chance_at 60 (lit "id2")) other_request after_a tt
      ((λ e. cc e), tt) ((lit "hi", refl, refl, refl), tt)

upload-Succeeds_example :
    (content_type : Text) × (check_input platform service
        (chance_at 50 (lit "id1"))
        (request (lit "a.txt"))
      ≡ ok content_type)
    × (pos 2 ≡ pos 2)
    × Succeeds platform service
        (chance_at 50 (lit "id1"))
        (request (lit "a.txt"))
        content_type
        empty_world
        stored
        (upload platform service (chance_at 50 (lit "id1")) (request (lit "a.txt")) empty_world).1
upload-Succeeds_example =
    upload-Succeeds platform service (chance_at 50 (lit "id1")) (request (lit "a.txt")) empty_world
      stored upload_a

-- The size that the form reports is wrong.
abbrev bad_request : Input
bad_request = record {
  original_name = lit "b.txt";
  size_bytes = pos 4;
  content = record { rest = lit "hey"; fails = none };
  uploader_ip_hash = lit "ip";
}

upload_bad :
    (upload platform service (chance_at 60 (lit "id2")) bad_request after_a).0
    ≡ err (size_mismatch (pos 4) 3)
unfolding uploads
upload_bad = refl

-- The database refuses the insertion.
abbrev refusing_world : World Memory
refusing_world = record {
  files = record { tables = []; outcomes = done ∷ refused Cause.other ∷ [] };
  storage = λ k. none;
}

upload_refused :
    (upload platform service (chance_at 60 (lit "id2")) other_request refusing_world).0
    ≡ err (persist (database Cause.other))
unfolding uploads
upload_refused = refl

k_ne : lit "k" ≢ new_object_key platform service (chance_at 60 (lit "id2")) other_request
unfolding uploads
k_ne e = cc e

upload-eq-err_example :
    ((upload platform service
        (chance_at 60 (lit "id2"))
        other_request
        refusing_world).1.files.tables
      ≡ [])
    × ((upload platform service (chance_at 60 (lit "id2")) other_request refusing_world).1.storage
          (lit "k")
        ≡ none)
upload-eq-err_example =
    upload-eq-err platform service (chance_at 60 (lit "id2")) other_request refusing_world (lit "k")
      (persist (database Cause.other)) (tt, (tt, tt)) k_ne upload_refused

accepted :
    IsAccepted platform service
      (chance_at 149 (lit "id2"))
      (request (lit "c.txt"))
      (lit "text/plain")
unfolding uploads
accepted = record { checked = refl; created = refl; written = refl; readable = refl; sized = refl }

upload_again_example :
    (r : UploadResult) × ((upload platform service
        (chance_at 149 (lit "id2"))
        (request (lit "c.txt"))
        after_a).0
      ≡ ok r)
    × (r.duplicate ≡ true)
    × (r.delete_token ≡ [])
    × (r.file_record.checksum_sha256 ≡ lit "#hi")
    × ((upload platform service
          (chance_at 149 (lit "id2"))
          (request (lit "c.txt"))
          after_a).1.files.tables
        ≡ after_a.files.tables)
    × ((upload platform service
          (chance_at 149 (lit "id2"))
          (request (lit "c.txt"))
          after_a).1.storage
        ≡ after_a.storage)
unfolding uploads stored_time
upload_again_example =
    upload_again platform service (chance_at 50 (lit "id1")) (chance_at 149 (lit "id2"))
      (request (lit "a.txt")) (request (lit "c.txt")) (lit "text/plain") empty_world after_a stored
      upload_a refl refl refl (omega arith) accepted tt

-- ===== src/Upload/Service.antt =====
-- internal/upload/service.go. The state of an upload is the connection to the table `files` and the
-- object store; what the operating system, the clock and the random source answer is `Chance`.
pub mod Inversion
pub mod Backed
pub mod Answers
pub mod Refuses
pub mod Dedup
mod Tests
use tempcdn.Prelude.{
  ℕ, zero, suc, ◌+◌, ◌-◌, ◌*◌, ◌/◌, ◌%◌, Bool, true, false, not, Option, none, some, List, [], ◌∷◌,
  ◌++◌, take, length, leb, ltb, ◌==◌, if◌then◌else◌,
}
use tempcdn.Prelude.Int.{ℤ, pos, eqb_ℤ}
use tempcdn.Text.{Text, lit, ext, trim_right_all}
use tempcdn.Action.{
  Result, ok, err, Action, pure, raise, lift, attempt, wrap, raise_if, or_raise, ◌>>=◌, ◌>>◌,
}
use tempcdn.IdGen.{hash_delete_token}
use tempcdn.Storage.{Bytes, PutObjectInput, ObjectStorage}
use tempcdn.Metadata.Model.{Time, add_duration, FileRecord, Cause, Error, file_not_found}
use tempcdn.Metadata.Files.{FilesDb, insert, find_active_by_checksum}
use tempcdn.Upload.Validator.{
  ValidationError, Rules, validate_size, validate_extension, detect_and_validate_content_type,
}
use tempcdn.Upload.Key.{Date, build_object_key}
use tempcdn.Upload.Checksum.{
  Reader, ChecksummingReader, new_checksumming_reader, copy_loop, sum_hex,
}

abbrev pub sniff_buffer_size : ℕ
sniff_buffer_size = 512

-- What the upload takes from outside the program: SHA-256 in hexadecimal, `unicode.ToLower`,
-- `http.DetectContentType`, the calendar of the package `time`, and the object store.
pub record Platform (S : Type 0) : Type 0 where
  pub sha256_hex : List ℕ → Text
  pub lower : ℕ → ℕ
  pub detect_content_type : Bytes → Text
  pub date : Time → Date
  pub objects : ObjectStorage S

pub record Service : Type 0 where
  pub file_ttl : ℤ
  pub public_base_url : Text

-- `NewService`
unfoldable pub new_service : ℤ → Text → Service
new_service file_ttl public_base_url = record {
  file_ttl = file_ttl;
  public_base_url = trim_right_all b'/' public_base_url;
}

pub record Input : Type 0 where
  pub original_name : Text
  pub size_bytes : ℤ
  pub content : Reader
  pub uploader_ip_hash : Text

pub record UploadResult : Type 0 where
  pub file_record : FileRecord
  pub duplicate : Bool
  pub delete_token : Text

-- What comes from outside during one upload: the rules that each of the three tests loads (another
-- goroutine may replace them in between), whether the temporary file can be created, written and
-- rewound, the time, and the random identifier and token.
pub record Chance : Type 0 where
  pub size_rules : Rules
  pub extension_rules : Rules
  pub type_rules : Rules
  pub temp_file_created : Bool
  pub temp_file_written : Bool
  pub temp_file_rewound : Bool
  pub now : Time
  pub file_id : Text
  pub delete_token : Option Text

pub data UploadError : Type 0 where
  invalid : ValidationError → UploadError
  read_header : Cause → UploadError
  create_temp : UploadError
  spool : Cause → UploadError
  size_mismatch : ℤ → ℕ → UploadError
  dedup_lookup : Error → UploadError
  rewind : UploadError
  token : UploadError
  put : Cause → UploadError
  persist : Error → UploadError

pub record World (S : Type 0) : Type 0 where
  pub files : FilesDb
  pub storage : S

module _ {S : Type 0} where
  abbrev pub on_files : {E A : Type 0} → Action FilesDb E A → Action (World S) E A
  on_files m w = let (r, f) = m w.files in (r, record { files = f; storage = w.storage })

  abbrev pub on_storage : {E : Type 0} → (S → Option Cause × S) → Action (World S) E (Option Cause)
  on_storage m w = let (r, s) = m w.storage in (ok r, record { files = w.files; storage = s })

-- `io.ReadFull` into the sniff buffer: the end of the file before the buffer is full is no error.
unfoldable pub read_header_of : Reader → Result Cause Bytes
read_header_of r = elim (r.fails) [
  | none ↦ ok (take sniff_buffer_size r.rest)
  | some e ↦
      if ltb (length r.rest) sniff_buffer_size then err e else ok (take sniff_buffer_size r.rest)
]

-- `io.Copy` of the whole content to the spool file through the checksumming reader, in buffers of
-- 32 KiB.
unfoldable pub spool_content : Reader → Bytes × Option Cause × ChecksummingReader
unfolding copy_loop
spool_content r = elim (copy_loop (suc (length r.rest)) 32768 (new_checksumming_reader r) []) [
  | none ↦ ([], none, new_checksumming_reader r)
  | some done ↦ done
]

module _ {S : Type 0} (p : Platform S) (s : Service) (chance : Chance) (input : Input) where
  -- The tests on the input: the content type, if it meets the rules.
  unfoldable pub check_input : Result UploadError Text
  check_input = elim (validate_size chance.size_rules input.size_bytes) [
    | err e ↦ err (invalid e)
    | ok _ ↦ elim (validate_extension p.lower chance.extension_rules input.original_name) [
      | err e ↦ err (invalid e)
      | ok _ ↦ elim (read_header_of input.content) [
        | err e ↦ err (read_header e)
        | ok sniff ↦
            elim (detect_and_validate_content_type p.detect_content_type chance.type_rules sniff) [
              | err e ↦ err (invalid e)
              | ok content_type ↦ ok content_type
            ]
      ]
    ]
  ]

  -- The copy to the temporary file: the bytes, and their checksum.
  unfoldable pub spool_input : Result UploadError (Bytes × Text)
  spool_input =
      let (spooled, error, reader) = spool_content input.content in
      if not chance.temp_file_created
      then err create_temp
      else if not chance.temp_file_written
      then err (spool Cause.other)
      else elim error [
        | some e ↦ err (spool e)
        | none ↦
            if eqb_ℤ (pos (length spooled)) input.size_bytes
            then ok (spooled, sum_hex p.sha256_hex reader)
            else err (size_mismatch input.size_bytes (length spooled))
      ]

  abbrev pub new_object_key : Text
  new_object_key = build_object_key (p.date chance.now) chance.file_id input.original_name

  abbrev pub new_record : Text → Bytes → Text → Text → FileRecord
  new_record content_type spooled checksum delete_token = record {
    id = chance.file_id;
    original_name = input.original_name;
    content_type = content_type;
    size_bytes = length spooled;
    checksum_sha256 = checksum;
    object_key = new_object_key;
    cdn_url = s.public_base_url ++ (b'/' ∷ new_object_key);
    uploader_ip_hash = input.uploader_ip_hash;
    delete_token_hash = hash_delete_token p.sha256_hex delete_token;
    created_at = chance.now;
    expires_at = add_duration chance.now s.file_ttl;
  }

  -- What is done with the answer of `Insert`: if it failed the object is deleted again, and the error
  -- of that deletion is ignored.
  unfoldable pub after_insert :
      FileRecord → Result Error (Unit {0}) → Action (World S) UploadError (Unit {0})
  after_insert r (ok _) = pure tt
  after_insert r (err e) = do
    _ ← on_storage (p.objects.delete_object r.object_key)
    raise (persist e)

  unfoldable pub persist_record : FileRecord → Action (World S) UploadError (Unit {0})
  persist_record r = do inserted ← attempt (on_files (insert r)); after_insert r inserted

  abbrev pub put_input : Text → Bytes → PutObjectInput
  put_input content_type spooled = record {
    key = new_object_key;
    body = spooled;
    content_type = content_type;
    size_bytes = length spooled;
  }

  -- What is done with the answer of `PutObject`.
  unfoldable pub after_put :
      FileRecord → Text → Option Cause → Action (World S) UploadError UploadResult
  after_put r delete_token (some e) = raise (put e)
  after_put r delete_token none = do
    persist_record r
    pure (record { file_record = r; duplicate = false; delete_token = delete_token })

  -- From the deletion token to the end.
  unfoldable pub put_new :
      Text → Bytes → Text → Option Text → Action (World S) UploadError UploadResult
  put_new content_type spooled checksum none = raise token
  put_new content_type spooled checksum (some delete_token) = do
    failure ← on_storage (p.objects.put_object (put_input content_type spooled))
    after_put (new_record content_type spooled checksum delete_token) delete_token failure

  -- From the rewind of the spool file to the end, for content that is new.
  unfoldable pub store : Text → Bytes → Text → Action (World S) UploadError UploadResult
  store content_type spooled checksum =
      if chance.temp_file_rewound
      then put_new content_type spooled checksum chance.delete_token
      else raise rewind

  -- What is done with the answer of the lookup by checksum.
  unfoldable pub after_lookup :
      Text → Bytes → Text → Result Error FileRecord → Action (World S) UploadError UploadResult
  after_lookup content_type spooled checksum (ok existing) =
      pure (record { file_record = existing; duplicate = true; delete_token = [] })
  after_lookup content_type spooled checksum (err file_not_found) =
      store content_type spooled checksum
  after_lookup content_type spooled checksum (err e) = raise (dedup_lookup e)

  -- From the lookup to the end, for a content type and a spooled content.
  unfoldable pub dedup : Text → Bytes × Text → Action (World S) UploadError UploadResult
  dedup content_type (spooled, checksum) = do
    found ← attempt (on_files (find_active_by_checksum checksum chance.now))
    after_lookup content_type spooled checksum found

  unfoldable pub upload : Action (World S) UploadError UploadResult
  upload = do
    content_type ← lift check_input
    spooled ← lift spool_input
    dedup content_type spooled

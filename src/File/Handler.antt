-- ===== src/File/Handler.antt =====
-- internal/file/handler.go. A response is its status code and what its body says; times are formatted
-- outside the program. The headers and the query of a request are functions of the name.
pub mod Statuses
mod Tests
use tempcdn.Prelude.{ℕ, Bool, true, false, [], ◌∷◌, if◌then◌else◌}
use tempcdn.Text.{Text, lit, is_empty}
use tempcdn.Action.{Result, ok, err}
use tempcdn.Metadata.Model.{Time, FileRecord}
use tempcdn.Metadata.Files.{FilesDb}
use tempcdn.File.Service.{
  FileError, not_found, already_expired, invalid_delete_token, Info, get_info, Platform, World,
  delete_before_ttl,
}

-- `infoResponseBody`
pub record InfoResponseBody : Type 0 where
  pub id : Text
  pub original_name : Text
  pub content_type : Text
  pub size_bytes : ℕ
  pub checksum_sha256 : Text
  pub object_key : Text
  pub cdn_url : Text
  pub created_at : Time
  pub expires_at : Time
  pub expired : Bool

abbrev pub info_response_body : FileRecord → Bool → InfoResponseBody
info_response_body r expired = record {
  id = r.id;
  original_name = r.original_name;
  content_type = r.content_type;
  size_bytes = r.size_bytes;
  checksum_sha256 = r.checksum_sha256;
  object_key = r.object_key;
  cdn_url = r.cdn_url;
  created_at = r.created_at;
  expires_at = r.expires_at;
  expired = expired;
}

pub data Body : Type 0 where
  message : Text → Body
  deleted : Body
  info : InfoResponseBody → Body

pub record Response : Type 0 where
  pub status : ℕ
  pub body : Body

abbrev pub error_response : ℕ → Text → Response
error_response status text = record { status = status; body = message text }

-- The response to each answer of `Service.GetInfo`.
unfoldable pub info_response : Result FileError Info → Response
info_response (ok i) =
    if i.expired
    then record { status = 410; body = info (info_response_body i.file_record i.expired) }
    else record { status = 200; body = info (info_response_body i.file_record i.expired) }
info_response (err not_found) = error_response 404 (lit "file not found")
info_response (err e) = error_response 500 (lit "failed to retrieve file info")

-- `GetInfo`
unfoldable pub serve_info : Text → Time → FilesDb → Response × FilesDb
serve_info id now c = let (answer, d) = get_info id now c in (info_response answer, d)

-- The response to each answer of `Service.DeleteBeforeTTL`.
unfoldable pub delete_response : Result FileError (Unit {0}) → Response
delete_response (ok _) = record { status = 200; body = deleted }
delete_response (err not_found) = error_response 404 (lit "file not found")
delete_response (err invalid_delete_token) =
    error_response 403 (lit "invalid or missing delete token")
delete_response (err already_expired) = error_response 410 (lit "file has already expired")
delete_response (err e) = error_response 500 (lit "failed to delete file")

unfoldable pub extract_delete_token : (Text → Text) → (Text → Text) → Text
extract_delete_token header query =
    if is_empty (header (lit "X-Delete-Token"))
    then query (lit "delete_token")
    else header (lit "X-Delete-Token")

-- `Delete`
unfoldable pub serve_delete :
    {S : Type 0}
    → Platform S
    → Text
    → (Text → Text)
    → (Text → Text)
    → Time
    → World S
    → Response × World S
serve_delete p id header query now w =
    let (answer, v) = delete_before_ttl p id (extract_delete_token header query) now w in
    (delete_response answer, v)

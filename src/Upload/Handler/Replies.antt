-- ===== src/Upload/Handler/Replies.antt =====
-- internal/upload/handler.go: what an upload response holds before its encoding. The times are
-- formatted outside.
use tempcdn.Prelude.{ℕ, Bool}
use tempcdn.Text.{Text}
use tempcdn.Metadata.Model.{Time}
use tempcdn.Upload.Validator.{ValidationError}
use tempcdn.Upload.Service.{UploadResult}
use tempcdn.Upload.Handler.{message, validation_message, uploaded, Response}
use tempcdn.Upload.Handler as Upload
use tempcdn.Http.{Answer, Body, error, json, payload, returned}

pub record UploadResponseBody : Type 0 where
  pub id : Text
  pub original_name : Text
  pub content_type : Text
  pub size_bytes : ℕ
  pub checksum_sha256 : Text
  pub object_key : Text
  pub cdn_url : Text
  pub created_at : Time
  pub expires_at : Time
  pub duplicate : Bool
  pub delete_token : Text

unfoldable pub to_upload_response_body : UploadResult → UploadResponseBody
to_upload_response_body u = record {
  id = u.file_record.id;
  original_name = u.file_record.original_name;
  content_type = u.file_record.content_type;
  size_bytes = u.file_record.size_bytes;
  checksum_sha256 = u.file_record.checksum_sha256;
  object_key = u.file_record.object_key;
  cdn_url = u.file_record.cdn_url;
  created_at = u.file_record.created_at;
  expires_at = u.file_record.expires_at;
  duplicate = u.duplicate;
  delete_token = u.delete_token;
}

-- The payloads. `refused_upload` is the text of the error.
pub data UploadReply : Type 0 where
  stored_upload : UploadResponseBody → UploadReply
  refused_upload : ValidationError → UploadReply

-- The calls of the response writer that give a response with this status and body.
abbrev pub answer_with : ℕ → Upload.Body → Answer (Body UploadReply)
answer_with status (message text) = returned (error status text)
answer_with status (validation_message v) = returned (json status (payload (refused_upload v)))
answer_with status (uploaded u) =
    returned (json status (payload (stored_upload (to_upload_response_body u))))

unfoldable pub upload_answer : Response → Answer (Body UploadReply)
unfolding to_upload_response_body
upload_answer r = answer_with r.status r.body

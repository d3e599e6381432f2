-- ===== src/Metadata/Model.antt =====
-- internal/metadata/model.go, legal_model.go and the error values of repository.go.
-- A `time.Time` in UTC is the number of nanoseconds since Go's zero time (year 1), a
-- `time.Duration` a number of nanoseconds, a pointer that may be nil an `Option`.
use tempcdn.Prelude.{ℕ, suc, ◌+◌, ◌-◌, ◌*◌, ◌/◌, Bool, true, false, Option, none, some, List, ltb}
use tempcdn.Prelude.Int.{ℤ, pos, negsuc}
use tempcdn.Text.{Text, lit}

abbrev pub Time : Type 0
Time = ℕ

-- `time.Second`, `time.Hour`
abbrev pub second : ℕ
second = 1_000_000_000

abbrev pub hour : ℕ
hour = 3600 * second

-- What a `TIMESTAMPTZ` column keeps of a time: its microseconds, which pgx encodes.
unfoldable pub stored_time : Time → Time
stored_time t = t / 1000 * 1000

-- `t.Add(d)`, for a result that is not before the year 1.
abbrev pub add_duration : Time → ℤ → Time
add_duration t (pos d) = t + d
add_duration t (negsuc d) = t - suc d

abbrev pub stored_option : Option Time → Option Time
stored_option none = none
stored_option (some t) = some (stored_time t)

pub record FileRecord : Type 0 where
  pub id : Text
  pub original_name : Text
  pub content_type : Text
  pub size_bytes : ℕ
  pub checksum_sha256 : Text
  pub object_key : Text
  pub cdn_url : Text
  pub uploader_ip_hash : Text
  pub delete_token_hash : Text
  pub created_at : Time
  pub expires_at : Time

-- The row of the table that holds the record.
abbrev pub stored_file : FileRecord → FileRecord
stored_file r = record r {
  created_at = stored_time r.created_at;
  expires_at = stored_time r.expires_at;
}

-- `now.After(r.ExpiresAt)`
unfoldable pub is_expired : FileRecord → Time → Bool
is_expired r now = ltb r.expires_at now

pub data NodeState : Type 0 where
  online offline : NodeState

pub record NodeStatus : Type 0 where
  pub node_id : Text
  pub hostname : Text
  pub status : NodeState
  pub started_at : Time
  pub last_heartbeat_at : Time
  pub marked_offline_at : Option Time

pub record Admin : Type 0 where
  pub id : Text
  pub username : Text
  pub password_hash : Text
  pub created_at : Time
  pub last_login_at : Option Time

pub record AdminSession : Type 0 where
  pub token_hash : Text
  pub admin_id : Text
  pub created_at : Time
  pub expires_at : Time
  pub last_used_at : Time

unfoldable pub session_is_expired : AdminSession → Time → Bool
session_is_expired s now = ltb s.expires_at now

pub record ApiKey : Type 0 where
  pub id : Text
  pub name : Text
  pub token_hash : Text
  pub created_at : Time
  pub last_used_at : Option Time
  pub revoked_at : Option Time

-- `k.RevokedAt != nil`
unfoldable pub is_revoked : ApiKey → Bool
is_revoked k = elim (k.revoked_at) [ none ↦ false | some t ↦ true ]

pub record UploadSettings : Type 0 where
  pub max_upload_size_mb : ℤ
  pub allowed_mime_types : List Text
  pub blocked_extensions : List Text
  pub updated_at : Time
  pub updated_by : Option Text

abbrev pub stored_settings : UploadSettings → UploadSettings
stored_settings s = record s { updated_at = stored_time s.updated_at }

abbrev pub legal_doc_terms : Text
legal_doc_terms = lit "terms"

abbrev pub legal_doc_privacy : Text
legal_doc_privacy = lit "privacy"

pub record LegalDocument : Type 0 where
  pub doc_type : Text
  pub content : Text
  pub updated_at : Time
  pub updated_by : Option Text

-- Why a statement or a request to another service failed, as far as a caller looks at it with
-- `errors.Is(err, context.DeadlineExceeded)`.
pub data Cause : Type 0 where
  deadline other : Cause

-- The error values that the repositories return; `unique_violation` and `database` are those that
-- they wrap without a name of their own.
pub data Error : Type 0 where
  file_not_found : Error
  admin_not_found admin_username_taken admin_session_not_found : Error
  api_key_not_found : Error
  upload_settings_not_found : Error
  legal_document_not_found : Error
  unique_violation : Error
  database : Cause → Error

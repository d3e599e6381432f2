-- ===== src/Storage/R2.antt =====
-- internal/storage/r2_client.go: the object store in a bucket behind the S3 API. The SDK is outside:
-- what `LoadDefaultConfig` and `NewFromConfig` make of the options are parameters, and `S3Client` has
-- what the calls of a client do by their documentation. A wrapped error keeps its cause.
pub mod Interface
pub mod Refines
use tempcdn.Prelude.{◌≡◌, ◌≢◌, ◌⊎◌, inl, inr, ap, Option, none, some, true, Bool, []}
use tempcdn.Text.{Text, lit}
use tempcdn.Metadata.Model.{Cause}
use tempcdn.Storage.{Bytes, PutObjectInput, ObjectStorage}

-- `s3.PutObjectInput`
pub record S3PutObjectInput : Type 0 where
  pub bucket : Text
  pub key : Text
  pub body : Bytes
  pub content_type : Text

-- The service: `stored` is what is in a bucket under a key. A call that succeeds has had its effect; a
-- call that fails has had it or not; and no call reaches another bucket or another key.
pub record S3Client (S : Type 0) : Type 0 where
  pub upload_object : S3PutObjectInput → S → Option Cause × S
  pub delete : Text → Text → S → Option Cause × S
  pub stored : S → Text → Text → Option (Bytes × Text)
  pub stored-upload_object :
      (i : S3PutObjectInput) (s : S)
      → (upload_object i s).0 ≡ none
      → stored (upload_object i s).1 i.bucket i.key ≡ some (i.body, i.content_type)
  pub stored-upload_object_ne :
      (i : S3PutObjectInput) (s : S) (b k : Text)
      → (b ≢ i.bucket) ⊎ (k ≢ i.key)
      → stored (upload_object i s).1 b k ≡ stored s b k
  pub stored-delete :
      (b j : Text) (s : S) → (delete b j s).0 ≡ none → stored (delete b j s).1 b j ≡ none
  pub stored-delete_ne :
      (c j : Text) (s : S) (b k : Text)
      → (b ≢ c) ⊎ (k ≢ j)
      → stored (delete c j s).1 b k ≡ stored s b k
  pub stored-delete_cases :
      (b j : Text) (s : S)
      → (stored (delete b j s).1 b j ≡ stored s b j) ⊎ (stored (delete b j s).1 b j ≡ none)

pub record R2ClientConfig : Type 0 where
  pub access_key_id : Text
  pub secret_access_key : Text
  pub bucket_name : Text
  pub endpoint : Text

-- The options of `LoadDefaultConfig`.
pub record AwsOptions : Type 0 where
  pub region : Text
  pub endpoint_url : Text
  pub static_access_key_id : Text
  pub static_secret_access_key : Text
  pub static_session_token : Text

-- The uploader sends its requests with the same client.
pub record R2Client (S : Type 0) : Type 0 where
  pub client : S3Client S
  pub bucket_name : Text

abbrev pub aws_options : R2ClientConfig → AwsOptions
aws_options cfg = record {
  region = lit "auto";
  endpoint_url = cfg.endpoint;
  static_access_key_id = cfg.access_key_id;
  static_secret_access_key = cfg.secret_access_key;
  static_session_token = [];
}

module _ {S A : Type 0} (load_default_config : AwsOptions → Option A)
    (new_from_config : A → Bool → S3Client S) where
  abbrev pub with_config : R2ClientConfig → Option A → Option (R2Client S)
  with_config cfg none = none
  with_config cfg (some aws_cfg) =
      some (record { client = new_from_config aws_cfg true; bucket_name = cfg.bucket_name })

  -- `NewR2Client`; the flag of `NewFromConfig` is `UsePathStyle`.
  unfoldable pub new_r2_client : R2ClientConfig → Option (R2Client S)
  new_r2_client cfg = with_config cfg (load_default_config (aws_options cfg))

module _ {S : Type 0} (c : R2Client S) where
  abbrev pub s3_input : PutObjectInput → S3PutObjectInput
  s3_input i = record {
    bucket = c.bucket_name;
    key = i.key;
    body = i.body;
    content_type = i.content_type;
  }

  unfoldable pub put_object_to_r2 : PutObjectInput → S → Option Cause × S
  put_object_to_r2 i s = c.client.upload_object (s3_input i) s

  unfoldable pub delete_object_from_r2 : Text → S → Option Cause × S
  delete_object_from_r2 key s = c.client.delete c.bucket_name key s

-- ===== src/Storage/R2/Interface.antt =====
-- internal/storage/r2_client.go as the interface of internal/storage/interface.go.
use tempcdn.Prelude.{inl, inr, ap, Option, none, some}
use tempcdn.Text.{Text}
use tempcdn.Storage.{Bytes, ObjectStorage}
use tempcdn.Storage.R2.{R2Client, s3_input, put_object_to_r2, delete_object_from_r2}

abbrev pub body_of : Option (Bytes × Text) → Option Bytes
body_of none = none
body_of (some (body, content_type)) = some body

module _ {S : Type 0} (c : R2Client S) where
  -- The client as the object store of the services.
  unfoldable pub r2_storage : ObjectStorage S
  unfolding put_object_to_r2 delete_object_from_r2
  r2_storage = record {
    put_object = put_object_to_r2 c;
    delete_object = delete_object_from_r2 c;
    object = λ s k. body_of (c.client.stored s c.bucket_name k);
    object-put = λ i s h. ap body_of (c.client.stored-upload_object (s3_input c i) s h);
    object-put_ne = λ i s k h.
        ap body_of (c.client.stored-upload_object_ne (s3_input c i) s c.bucket_name k (inr h));
    object-delete = λ j s h. ap body_of (c.client.stored-delete c.bucket_name j s h);
    object-delete_ne =
        λ j s k h. ap body_of (c.client.stored-delete_ne c.bucket_name j s c.bucket_name k (inr h));
    object-delete_cases = λ j s. elim (c.client.stored-delete_cases c.bucket_name j s) [
      | inl e ↦ inl (ap body_of e)
      | inr e ↦ inr (ap body_of e)
    ];
  }

-- ===== src/Storage/Tests.antt =====
-- Buckets in memory behind the S3 API.
use tempcdn.Prelude.{
  ◌≡◌, ◌≢◌, ◌⊎◌, ◌&&◌, inr, refl, Option, none, some, [], ◌∷◌, arith, if◌then◌else◌,
}
use tempcdn.Text.{Text, lit, same}
use tempcdn.Text.Laws.{same_iff, same_refl}
use tempcdn.Storage.{Bytes, PutObjectInput}
use tempcdn.Storage.R2.{S3Client, R2Client, put_object_to_r2, delete_object_from_r2}
use tempcdn.Storage.R2.Refines.{puts, deletes, run_calls, apply_calls, run_calls-refines}

abbrev Buckets : Type 0
Buckets = Text → Text → Option (Bytes × Text)

-- Sets what stands in a bucket under a key.
set : Text → Text → Option (Bytes × Text) → Buckets → Buckets
set b k x s c j = if same c b && same j k then x else s c j

set_lem : (b k : Text) (x : Option (Bytes × Text)) (s : Buckets) → set b k x s b k ≡ x
unfolding set
set_lem b k x s = rw (same_refl b, same_refl k) refl

set_ne :
    (b k : Text) (x : Option (Bytes × Text)) (s : Buckets) (c j : Text)
    → (c ≢ b) ⊎ (j ≢ k)
    → set b k x s c j ≡ s c j
unfolding set
set_ne b k x s c j h = ground (arith, same_iff c b, same_iff j k)

abbrev buckets_client : S3Client Buckets
unfolding set
buckets_client = record {
  upload_object = λ i s. (none, set i.bucket i.key (some (i.body, i.content_type)) s);
  delete = λ b k s. (none, set b k none s);
  stored = λ s. s;
  stored-upload_object = λ i s h. set_lem i.bucket i.key (some (i.body, i.content_type)) s;
  stored-upload_object_ne =
      λ i s b k h. set_ne i.bucket i.key (some (i.body, i.content_type)) s b k h;
  stored-delete = λ b j s h. set_lem b j none s;
  stored-delete_ne = λ c j s b k h. set_ne c j none s b k h;
  stored-delete_cases = λ b j s. inr (set_lem b j none s);
}

abbrev r2_client : R2Client Buckets
r2_client = record { client = buckets_client; bucket_name = lit "files" }

abbrev empty_buckets : Buckets
empty_buckets = λ b k. none

abbrev picture : PutObjectInput
picture = record {
  key = lit "a";
  body = 1 ∷ 2 ∷ [];
  content_type = lit "image/png";
  size_bytes = 2;
}

run_calls-refines_example :
    r2_client.client.stored
      (run_calls r2_client (puts picture ∷ deletes (lit "b") ∷ []) empty_buckets).1
      (lit "files")
      (lit "a")
    ≡ apply_calls (puts picture ∷ deletes (lit "b") ∷ []) (λ k. none) (lit "a")
unfolding run_calls put_object_to_r2 buckets_client delete_object_from_r2
run_calls-refines_example =
    run_calls-refines r2_client (puts picture ∷ deletes (lit "b") ∷ []) empty_buckets (lit "a")
      (refl, (refl, tt))

other_bucket : lit "logs" ≢ lit "files"
other_bucket h = cc h

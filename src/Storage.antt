-- ===== src/Storage.antt =====
-- internal/storage/interface.go: what the services rely on in an object store, which is not part
-- of the program (an R2 bucket behind the S3 API). `S` is its state; a call answers
-- with the cause of its failure, `none` standing for the error nil. The laws are the documented ones: a successful write can be read back, a successful
-- delete removes, and no call on one key touches another. Of a failed write nothing is known at
-- its own key; a failed delete has removed the object or not.
pub mod Memory
pub mod R2
mod Tests
use tempcdn.Prelude.{ℕ, ◌≡◌, ◌≢◌, ◌⊎◌, Option, none, some, List}
use tempcdn.Text.{Text}
use tempcdn.Metadata.Model.{Cause}

-- The bytes of a file.
abbrev pub Bytes : Type 0
Bytes = List ℕ

pub record PutObjectInput : Type 0 where
  pub key : Text
  pub body : Bytes
  pub content_type : Text
  pub size_bytes : ℕ

pub record ObjectStorage (S : Type 0) : Type 0 where
  pub put_object : PutObjectInput → S → Option Cause × S
  pub delete_object : Text → S → Option Cause × S
  pub object : S → Text → Option Bytes
  pub object-put :
      (i : PutObjectInput) (s : S)
      → (put_object i s).0 ≡ none
      → object (put_object i s).1 i.key ≡ some i.body
  pub object-put_ne :
      (i : PutObjectInput) (s : S) (k : Text) → k ≢ i.key → object (put_object i s).1 k ≡ object s k
  pub object-delete :
      (j : Text) (s : S) → (delete_object j s).0 ≡ none → object (delete_object j s).1 j ≡ none
  pub object-delete_ne :
      (j : Text) (s : S) (k : Text) → k ≢ j → object (delete_object j s).1 k ≡ object s k
  pub object-delete_cases :
      (j : Text) (s : S)
      → (object (delete_object j s).1 j ≡ object s j) ⊎ (object (delete_object j s).1 j ≡ none)

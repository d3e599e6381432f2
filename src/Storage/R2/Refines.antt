-- ===== src/Storage/R2/Refines.antt =====
-- What a sequence of calls through one client makes of the buckets.
use tempcdn.Prelude.{
  ◌≡◌, ◌≢◌, ◌⊎◌, ◌∙◌, inl, inr, refl, false, Option, none, some, List, [], ◌∷◌, All, Bool-cases,
  arith, if◌then◌else◌,
}
use tempcdn.Text.{Text, same}
use tempcdn.Text.Laws.{same_iff}
use tempcdn.Metadata.Model.{Cause}
use tempcdn.Storage.{Bytes, PutObjectInput}
use tempcdn.Storage.R2.{R2Client, s3_input, put_object_to_r2, delete_object_from_r2}

pub data Call : Type 0 where
  puts : PutObjectInput → Call
  deletes : Text → Call

abbrev pub key_of : Call → Text
key_of (puts i) = i.key
key_of (deletes j) = j

-- What a client holds: contents with their types, by key.
abbrev pub Contents : Type 0
Contents = Text → Option (Bytes × Text)

-- The abstract store: a call that succeeds sets or removes what stands under its key.
abbrev pub applied_call : Call → Contents → Contents
applied_call (puts i) m k = if same k i.key then some (i.body, i.content_type) else m k
applied_call (deletes j) m k = if same k j then none else m k

abbrev pub apply_calls : List Call → Contents → Contents
apply_calls [] m = m
apply_calls (x ∷ calls) m = apply_calls calls (applied_call x m)

different : (j k : Text) → same j k ≡ false → j ≢ k
different j k e q = ground (arith, e, (same_iff j k).1 q)

applied_call-ap :
    (x : Call) (m n : Contents)
    → ((k : Text) → m k ≡ n k)
    → (k : Text) → applied_call x m k ≡ applied_call x n k
applied_call-ap (puts i) m n e k = ground (arith, e k)
applied_call-ap (deletes j) m n e k = ground (arith, e k)

module _ {S : Type 0} (c : R2Client S) where
  abbrev pub call : Call → S → Option Cause × S
  call (puts i) s = put_object_to_r2 c i s
  call (deletes j) s = delete_object_from_r2 c j s

  -- The answers and the state at the end.
  unfoldable pub run_calls : List Call → S → List (Option Cause) × S
  run_calls [] s = ([], s)
  run_calls (x ∷ calls) s =
      let (answer, t) = call x s in let (answers, u) = run_calls calls t in (answer ∷ answers, u)

  call-elsewhere :
      (x : Call) (s : S) (b k : Text)
      → b ≢ c.bucket_name
      → c.client.stored (call x s).1 b k ≡ c.client.stored s b k
  unfolding put_object_to_r2 delete_object_from_r2
  call-elsewhere (puts i) s b k h = c.client.stored-upload_object_ne (s3_input c i) s b k (inl h)
  call-elsewhere (deletes j) s b k h = c.client.stored-delete_ne c.bucket_name j s b k (inl h)

  call-applied :
      (x : Call) (s : S) (k : Text)
      → (call x s).0 ≡ none
      → c.client.stored (call x s).1 c.bucket_name k
        ≡ applied_call x (c.client.stored s c.bucket_name) k
  unfolding put_object_to_r2 delete_object_from_r2
  call-applied (puts i) s k h = elim (Bool-cases (same k i.key)) [
    | inl e ↦ rw (e, (same_iff k i.key).0 e) (c.client.stored-upload_object (s3_input c i) s h)
    | inr e ↦ rw e (
        c.client.stored-upload_object_ne (s3_input c i) s c.bucket_name k
          (inr (λ q. different k i.key e q)))
  ]
  call-applied (deletes j) s k h = elim (Bool-cases (same k j)) [
    | inl e ↦ rw (e, (same_iff k j).0 e) (c.client.stored-delete c.bucket_name j s h)
    | inr e ↦
        rw e (
          c.client.stored-delete_ne c.bucket_name j s c.bucket_name k
            (inr (λ q. different k j e q)))
  ]

  run_calls-elsewhere :
      (calls : List Call) (s : S) (b k : Text)
      → b ≢ c.bucket_name
      → c.client.stored (run_calls calls s).1 b k ≡ c.client.stored s b k
  unfolding run_calls
  run_calls-elsewhere [] s b k h = refl
  run_calls-elsewhere (x ∷ calls) s b k h =
      run_calls-elsewhere calls (call x s).1 b k h ∙ call-elsewhere x s b k h

  call-unnamed :
      (x : Call) (s : S) (b k : Text)
      → k ≢ key_of x
      → c.client.stored (call x s).1 b k ≡ c.client.stored s b k
  unfolding put_object_to_r2 delete_object_from_r2
  call-unnamed (puts i) s b k h = c.client.stored-upload_object_ne (s3_input c i) s b k (inr h)
  call-unnamed (deletes j) s b k h = c.client.stored-delete_ne c.bucket_name j s b k (inr h)

  run_calls-unnamed :
      (calls : List Call) (s : S) (b k : Text)
      → All (λ x. k ≢ key_of x) calls
      → c.client.stored (run_calls calls s).1 b k ≡ c.client.stored s b k
  unfolding run_calls
  run_calls-unnamed [] s b k h = refl
  run_calls-unnamed (x ∷ calls) s b k h =
      run_calls-unnamed calls (call x s).1 b k h.1 ∙ call-unnamed x s b k h.0

  run_calls-applied :
      (calls : List Call) (s : S) (m : Contents)
      → All (λ a. a ≡ none) (run_calls calls s).0
      → ((k : Text) → c.client.stored s c.bucket_name k ≡ m k)
      → (k : Text) → c.client.stored (run_calls calls s).1 c.bucket_name k ≡ apply_calls calls m k
  unfolding run_calls
  run_calls-applied [] s m done e k = e k
  run_calls-applied (x ∷ calls) s m done e k =
      run_calls-applied calls (call x s).1 (applied_call x m) done.1
        (λ j. call-applied x s j done.0 ∙ applied_call-ap x (c.client.stored s c.bucket_name) m e j)
        k

  -- The client implements an abstract store, the map from the keys of its bucket to contents with
  -- their types: after any calls that all report success, the bucket holds exactly what the calls make
  -- of the map, one after the other.
  pub run_calls-refines :
      (calls : List Call) (s : S) (k : Text)
      → All (λ a. a ≡ none) (run_calls calls s).0
      → c.client.stored (run_calls calls s).1 c.bucket_name k
        ≡ apply_calls calls (c.client.stored s c.bucket_name) k
  run_calls-refines calls s k done =
      run_calls-applied calls s (c.client.stored s c.bucket_name) done (λ j. refl) k

  -- Whether its calls succeed or not, nothing in another bucket changes, and nothing under a key that
  -- none of them names.
  pub run_calls-confined :
      (calls : List Call) (s : S) (b k : Text)
      → (b ≢ c.bucket_name) ⊎ All (λ x. k ≢ key_of x) calls
      → c.client.stored (run_calls calls s).1 b k ≡ c.client.stored s b k
  run_calls-confined calls s b k (inl h) = run_calls-elsewhere calls s b k h
  run_calls-confined calls s b k (inr h) = run_calls-unnamed calls s b k h

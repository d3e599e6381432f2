-- ===== src/Upload/Service/Refuses.antt =====
-- What a failed upload leaves behind.
use tempcdn.Prelude.{
  ◌≡◌, ◌≢◌, refl, Bool, true, false, Option, none, some, arith, if◌then◌else◌, ◌∙◌,
}
use tempcdn.Text.{Text}
use tempcdn.Action.{Result, ok, err, Action, pure, raise, lift, ◌>>=◌}
use tempcdn.Action.Keeps.{bind-fails}
use tempcdn.Storage.{Bytes}
use tempcdn.Metadata.Model.{Cause, FileRecord, Error, file_not_found}
use tempcdn.Metadata.Files.{insert, find_active_by_checksum}
use tempcdn.Metadata.Files.Effects.{
  Honest, insert-eq-err, find_active_by_checksum-tables, find_active_by_checksum-Honest,
}
use tempcdn.Upload.Service.{
  Platform, Service, Chance, Input, World, UploadResult, UploadError, rewind, after_insert,
  persist_record, after_put, put_new, store, put_input, dedup, check_input, spool_input,
  after_lookup, upload, new_object_key, new_record,
}

module _ {S : Type 0} (p : Platform S) (s : Service) (chance : Chance) (input : Input) where
  -- The rows and every object but that of the new key are as they were.
  abbrev Untouched : World S → Text → World S → Type 0
  Untouched w k w' =
      (w'.files.tables ≡ w.files.tables)
      × (p.objects.object w'.storage k ≡ p.objects.object w.storage k)

  persist_record-eq-err :
      (r : FileRecord) (w : World S) (k : Text) (e : UploadError)
      → Honest w.files
      → k ≢ r.object_key
      → (persist_record p s chance input r w).0 ≡ err e
      → Untouched w k (persist_record p s chance input r w).1
  unfolding persist_record after_insert
  persist_record-eq-err r w k e h ne q = go (insert r w.files).0 refl q
    where
      go :
          (answer : Result Error (Unit {0}))
          → (insert r w.files).0 ≡ answer
          → (after_insert p s chance input r answer
              (record { files = (insert r w.files).1; storage = w.storage })).0
            ≡ err e
          → Untouched w k
              (after_insert p s chance input r answer
                (record { files = (insert r w.files).1; storage = w.storage })).1
      go (ok u) a b = absurd (ground arith)
      go (err x) a b =
          (insert-eq-err r w.files x h a, p.objects.object-delete_ne r.object_key w.storage k ne)

  after_put-eq-err :
      (r : FileRecord) (t : Text) (answer : Option Cause) (w : World S) (st : S) (k : Text)
      (e : UploadError)
      → Honest w.files
      → k ≢ r.object_key
      → p.objects.object st k ≡ p.objects.object w.storage k
      → (after_put p s chance input r t answer (record { files = w.files; storage = st })).0 ≡ err e
      → Untouched w k
          (after_put p s chance input r t answer (record { files = w.files; storage = st })).1
  unfolding after_put
  after_put-eq-err r t (some x) w st k e h ne other q = (refl, other)
  after_put-eq-err r t none w st k e h ne other q =
      let w' : World S = record { files = w.files; storage = st } in
      bind-fails (Untouched w k) (persist_record p s chance input r)
        (λ _. pure (record { file_record = r; duplicate = false; delete_token = t })) w' e q
        (λ x f. let (rows, obj) = persist_record-eq-err r w' k x h ne f in (rows, obj ∙ other))
        (λ a f g. absurd (ground arith))

  put_new-eq-err :
      (content_type : Text) (b : Bytes) (c : Text) (drawn : Option Text) (w : World S) (k : Text)
      (e : UploadError)
      → Honest w.files
      → k ≢ new_object_key p s chance input
      → (put_new p s chance input content_type b c drawn w).0 ≡ err e
      → Untouched w k (put_new p s chance input content_type b c drawn w).1
  unfolding put_new
  put_new-eq-err content_type b c none w k e h ne q = (refl, refl)
  put_new-eq-err content_type b c (some t) w k e h ne q =
      let rec = new_record p s chance input content_type b c t in
      let i = put_input p s chance input content_type b in
      after_put-eq-err rec t (p.objects.put_object i w.storage).0 w
        (p.objects.put_object i w.storage).1 k e h ne (p.objects.object-put_ne i w.storage k ne) q

  after_lookup-eq-err :
      (content_type : Text) (b : Bytes) (c : Text) (found : Result Error FileRecord) (w : World S)
      (k : Text) (e : UploadError)
      → Honest w.files
      → k ≢ new_object_key p s chance input
      → (after_lookup p s chance input content_type b c found w).0 ≡ err e
      → Untouched w k (after_lookup p s chance input content_type b c found w).1
  unfolding after_lookup store
  after_lookup-eq-err content_type b c (ok r) w k e h ne q = (refl, refl)
  after_lookup-eq-err content_type b c (err file_not_found) w k e h ne q =
      go chance.temp_file_rewound q
    where
      m : Action (World S) UploadError UploadResult
      m = put_new p s chance input content_type b c chance.delete_token

      go :
          (rewound : Bool)
          → ((if rewound then m else raise rewind) w).0 ≡ err e
          → Untouched w k ((if rewound then m else raise rewind) w).1
      go false a = (refl, refl)
      go true a = put_new-eq-err content_type b c chance.delete_token w k e h ne a
  after_lookup-eq-err content_type b c (err _) w k e h ne q = (refl, refl)

  dedup-eq-err :
      (content_type : Text) (b : Bytes) (c : Text) (w : World S) (k : Text) (e : UploadError)
      → Honest w.files
      → k ≢ new_object_key p s chance input
      → (dedup p s chance input content_type (b, c) w).0 ≡ err e
      → Untouched w k (dedup p s chance input content_type (b, c) w).1
  unfolding dedup
  dedup-eq-err content_type b c w k e h ne q =
      let w' : World S = record {
        files = (find_active_by_checksum c chance.now w.files).1;
        storage = w.storage;
      } in
      let (rows, obj) =
        after_lookup-eq-err content_type b c (find_active_by_checksum c chance.now w.files).0 w' k e
          (find_active_by_checksum-Honest c chance.now w.files h) ne q in
      (rows ∙ find_active_by_checksum-tables c chance.now w.files, obj)

  -- Where no reply of the database is lost, an upload that fails has left the rows as they were, and
  -- every object but that of the key that it would have written.
  pub upload-eq-err :
      (w : World S) (k : Text) (e : UploadError)
      → Honest w.files
      → k ≢ new_object_key p s chance input
      → (upload p s chance input w).0 ≡ err e
      → ((upload p s chance input w).1.files.tables ≡ w.files.tables)
        × (p.objects.object (upload p s chance input w).1.storage k ≡ p.objects.object w.storage k)
  unfolding upload
  upload-eq-err w k e h ne q =
      bind-fails (Untouched w k) (lift (check_input p s chance input))
        (λ t. lift (spool_input p s chance input) >>= dedup p s chance input t) w e q
        (λ _ _. (refl, refl))
        (λ t _ q₁.
          bind-fails (Untouched w k) (lift (spool_input p s chance input))
            (dedup p s chance input t) w e q₁ (λ _ _. (refl, refl))
            (λ sp _ q₂. dedup-eq-err t sp.0 sp.1 w k e h ne q₂))

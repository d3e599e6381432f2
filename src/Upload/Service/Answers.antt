-- ===== src/Upload/Service/Answers.antt =====
-- What a successful upload answers, and what it has done.
use mathlib.Core.Path.{subst}
use tempcdn.Prelude.{
  ◌≡◌, ◌⊎◌, inl, inr, refl, sym, ap, ◌∙◌, Bool, true, false, Option, none, some, [], ◌∷◌, ◌++◌,
  length, arith, if◌then◌else◌,
}
use tempcdn.Prelude.Int.{pos}
use tempcdn.Text.{Text}
use tempcdn.Action.{Result, ok, err, Action, raise, lift, ◌>>=◌}
use tempcdn.Storage.{Bytes}
use tempcdn.Metadata.Model.{FileRecord, stored_file, Error, file_not_found}
use tempcdn.Metadata.Files.{find_active_by_checksum}
use tempcdn.Metadata.Files.Effects.{insert-eq-ok, find_active_by_checksum-tables}
use tempcdn.Metadata.Files.Search.{Finds, find_active_by_checksum-Finds}
use tempcdn.Upload.Service.{
  Platform, Service, Chance, Input, World, UploadResult, UploadError, rewind, after_insert,
  persist_record, after_put, put_new, store, put_input, dedup, check_input, spool_input,
  after_lookup, upload, new_object_key, new_record,
}
use tempcdn.Upload.Service.Inversion.{spool_input-eq-ok}

module _ {S : Type 0} (p : Platform S) (s : Service) (chance : Chance) (input : Input) where
  persist_record-eq-ok :
      (r : FileRecord) (w : World S) (u : Unit {0})
      → (persist_record p s chance input r w).0 ≡ ok u
      → ((persist_record p s chance input r w).1.files.tables
          ≡ w.files.tables ++ stored_file r ∷ [])
        × ((persist_record p s chance input r w).1.storage ≡ w.storage)
  unfolding persist_record after_insert
  persist_record-eq-ok r w u h = ground (arith, insert-eq-ok r w.files tt)

  -- New content: its row has been added, its object is there, and the token that the answer shows
  -- is the one whose hash the row holds.
  pub record IsStored (content_type : Text) (w : World S) (r : UploadResult) (w' : World S)
      : Type 0 where
    pub not_duplicate : r.duplicate ≡ false
    pub token_shown : chance.delete_token ≡ some r.delete_token
    pub row :
        r.file_record
        ≡ new_record p s chance input content_type input.content.rest
            (p.sha256_hex input.content.rest)
            r.delete_token
    pub row_added : w'.files.tables ≡ w.files.tables ++ stored_file r.file_record ∷ []
    pub object_there :
        p.objects.object w'.storage (new_object_key p s chance input) ≡ some input.content.rest

  put_new-IsStored :
      (content_type : Text) (drawn : Option Text) (w : World S) (r : UploadResult)
      → drawn ≡ chance.delete_token
      → (put_new p s chance input content_type input.content.rest
          (p.sha256_hex input.content.rest)
          drawn
          w).0
        ≡ ok r
      → IsStored content_type w r
          (put_new p s chance input content_type input.content.rest
            (p.sha256_hex input.content.rest)
            drawn
            w).1
  unfolding put_new after_put
  put_new-IsStored content_type none w r d h = absurd (ground arith)
  put_new-IsStored content_type (some t) w r d h =
      let rec =
        new_record p s chance input content_type input.content.rest
          (p.sha256_hex input.content.rest) t in
      let i = put_input p s chance input content_type input.content.rest in
      let w' : World S = record {
        files = w.files;
        storage = (p.objects.put_object i w.storage).1;
      } in
      ground (arith, p.objects.object-put i w.storage, persist_record-eq-ok rec w' tt)

  -- Content that an unexpired row holds already: that row is answered, without a deletion token, and
  -- neither the table nor the object store has changed.
  pub record IsDuplicate (w : World S) (r : UploadResult) (w' : World S) : Type 0 where
    pub flagged : r.duplicate ≡ true
    pub no_token : r.delete_token ≡ []
    pub newest_copy :
        Finds (p.sha256_hex input.content.rest) chance.now w.files.tables (some r.file_record)
    pub rows_unchanged : w'.files.tables ≡ w.files.tables
    pub storage_unchanged : w'.storage ≡ w.storage

  -- The two ways in which an upload succeeds.
  abbrev pub Succeeds : Text → World S → UploadResult → World S → Type 0
  Succeeds content_type w r w' =
      IsDuplicate w r w'
      ⊎ (IsStored content_type w r w'
          × Finds (p.sha256_hex input.content.rest) chance.now w.files.tables none)

  store-IsStored :
      (content_type : Text) (w w₁ : World S) (r : UploadResult)
      → w₁.files.tables ≡ w.files.tables
      → (store p s chance input content_type input.content.rest
          (p.sha256_hex input.content.rest)
          w₁).0
        ≡ ok r
      → IsStored content_type w r
          (store p s chance input content_type input.content.rest
            (p.sha256_hex input.content.rest)
            w₁).1
  unfolding store
  store-IsStored content_type w w₁ r rows h = go chance.temp_file_rewound h
    where
      m : Action (World S) UploadError UploadResult
      m =
          put_new p s chance input content_type input.content.rest (p.sha256_hex input.content.rest)
            chance.delete_token

      go :
          (rewound : Bool)
          → ((if rewound then m else raise rewind) w₁).0 ≡ ok r
          → IsStored content_type w r ((if rewound then m else raise rewind) w₁).1
      go false a = absurd (ground arith)
      go true a =
          let st = put_new-IsStored content_type chance.delete_token w₁ r refl a in
          record {
            not_duplicate = st.not_duplicate;
            token_shown = st.token_shown;
            row = st.row;
            row_added = st.row_added ∙ ap (λ rs. rs ++ stored_file r.file_record ∷ []) rows;
            object_there = st.object_there;
          }

  dedup-Succeeds :
      (content_type : Text) (w : World S) (r : UploadResult)
      → (dedup p s chance input content_type
          (input.content.rest, p.sha256_hex input.content.rest)
          w).0
        ≡ ok r
      → Succeeds content_type w r
          (dedup p s chance input content_type
            (input.content.rest, p.sha256_hex input.content.rest)
            w).1
  unfolding dedup after_lookup store
  dedup-Succeeds content_type w r h = go (find_active_by_checksum sum chance.now w.files).0 refl h
    where
      sum : Text
      sum = p.sha256_hex input.content.rest

      w₁ : World S
      w₁ = record {
        files = (find_active_by_checksum sum chance.now w.files).1;
        storage = w.storage;
      }

      rows : w₁.files.tables ≡ w.files.tables
      rows = find_active_by_checksum-tables sum chance.now w.files

      go :
          (found : Result Error FileRecord)
          → (find_active_by_checksum sum chance.now w.files).0 ≡ found
          → (after_lookup p s chance input content_type input.content.rest sum found w₁).0 ≡ ok r
          → Succeeds content_type w r
              (after_lookup p s chance input content_type input.content.rest sum found w₁).1
      go (ok q) e a = inl (record {
        flagged = ground arith;
        no_token = ground arith;
        newest_copy =
            subst (λ x. Finds sum chance.now w.files.tables (some x)) (ground arith)
              (find_active_by_checksum-Finds sum chance.now w.files (some q) e);
        rows_unchanged = rows;
        storage_unchanged = refl;
      })
      go (err file_not_found) e a = inr (
        store-IsStored content_type w w₁ r rows a,
        find_active_by_checksum-Finds sum chance.now w.files none e,
      )
      go (err _) e a = absurd (ground arith)

  -- An upload that succeeds met the three tests, and its content was as long as the form said. Then
  -- either the newest unexpired row with the content's checksum is answered, as a duplicate and
  -- without a token, and neither the table nor the object store has changed; or there was no such
  -- row, and now the table has one more, the record that is answered with its times to the
  -- microsecond, for the object that holds the content.
  pub upload-Succeeds :
      (w : World S) (r : UploadResult)
      → (upload p s chance input w).0 ≡ ok r
      → (content_type : Text) × (check_input p s chance input ≡ ok content_type)
        × (pos (length input.content.rest) ≡ input.size_bytes)
        × Succeeds content_type w r (upload p s chance input w).1
  unfolding upload
  upload-Succeeds w r h =
      go (check_input p s chance input) refl (spool_input p s chance input) refl h
    where
      go :
          (checked : Result UploadError Text)
          → check_input p s chance input ≡ checked
          → (spooled : Result UploadError (Bytes × Text)) → spool_input p s chance input ≡ spooled
          → ((lift checked >>= λ t. lift spooled >>= dedup p s chance input t) w).0 ≡ ok r
          → (content_type : Text) × (check_input p s chance input ≡ ok content_type)
            × (pos (length input.content.rest) ≡ input.size_bytes)
            × Succeeds content_type w r
                ((lift checked >>= λ t. lift spooled >>= dedup p s chance input t) w).1
      go (ok t) e (ok (b, c)) f a =
          let (whole, sum, size) = spool_input-eq-ok p s chance input b c f in
          let pair : ◌≡◌ {A = Bytes × Text} (input.content.rest, p.sha256_hex input.content.rest)
              (b, c) =
            cc (whole, sum) in
          (
            t,
            e,
            ap (λ x. pos (length x)) (sym whole) ∙ size,
            subst
                (λ bc.
                  (dedup p s chance input t bc w).0 ≡ ok r
                  → Succeeds t w r (dedup p s chance input t bc w).1)
                pair (dedup-Succeeds t w r) a,
          )
      go (err x) e sp f a = absurd (ground arith)
      go (ok t) e (err x) f a = absurd (ground arith)

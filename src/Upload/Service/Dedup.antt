-- ===== src/Upload/Service/Dedup.antt =====
-- The second upload of a content is answered from the first.
use tempcdn.Prelude.{
  ◌<◌, ◌≡◌, inl, inr, refl, sym, ap, ◌∙◌, true, false, Option, none, some, List, [], ◌∷◌, ◌++◌,
  length, arith, All-In, In,
}
use tempcdn.Prelude.Int.{pos}
use tempcdn.Text.{Text}
use tempcdn.Action.{ok}
use tempcdn.Metadata.Model.{FileRecord, add_duration, stored_time, stored_file}
use tempcdn.Metadata.Files.{find_active_by_checksum}
use tempcdn.Metadata.Files.Effects.{Working}
use tempcdn.Metadata.Files.Search.{
  IsActiveCopy, Finds, Answers, find_active_by_checksum-Finds, find_active_by_checksum-Answers,
}
use tempcdn.Upload.Service.{
  Platform, Service, Chance, Input, World, UploadResult, dedup, check_input, spool_input,
  after_lookup, upload,
}
use tempcdn.Upload.Service.Inversion.{spool_content_lem}
use tempcdn.Upload.Service.Answers.{upload-Succeeds, IsStored}

In-append_last : {A : Type 0} (xs : List A) (x : A) → In x (xs ++ x ∷ [])
In-append_last [] x = inl refl
In-append_last (y ∷ xs) x = inr (In-append_last xs x)

module _ {S : Type 0} (p : Platform S) (s : Service) (chance : Chance) (input : Input) where
  -- The request can be read and spooled, and passes the three tests.
  pub record IsAccepted (content_type : Text) : Type 0 where
    pub checked : check_input p s chance input ≡ ok content_type
    pub created : chance.temp_file_created ≡ true
    pub written : chance.temp_file_written ≡ true
    pub readable : input.content.fails ≡ none
    pub sized : input.size_bytes ≡ pos (length input.content.rest)

  IsAccepted-spool :
      (content_type : Text)
      → IsAccepted content_type
      → spool_input p s chance input ≡ ok (input.content.rest, p.sha256_hex input.content.rest)
  unfolding spool_input
  IsAccepted-spool content_type a =
      let (c, e, f) = spool_content_lem p.sha256_hex input.content in
      ground (arith, e, f, a.created, a.written, a.readable, a.sized)

  -- With an active copy in the table, a working database and an accepted request, the answer is a
  -- duplicate.
  pub upload_of_copy :
      (content_type : Text) (w : World S) (q : FileRecord)
      → IsAccepted content_type
      → Working w.files
      → In q w.files.tables
      → IsActiveCopy (p.sha256_hex input.content.rest) chance.now q
      → (r : UploadResult) × ((upload p s chance input w).0 ≡ ok r) × (r.duplicate ≡ true)
  unfolding upload dedup after_lookup
  upload_of_copy content_type w q a h i copy =
      let (answer, e) = find_active_by_checksum-Answers sum chance.now w.files h in
      go answer e (find_active_by_checksum-Finds sum chance.now w.files answer e)
    where
      sum : Text
      sum = p.sha256_hex input.content.rest

      go :
          (answer : Option FileRecord)
          → Answers answer (find_active_by_checksum sum chance.now w.files).0
          → Finds sum chance.now w.files.tables answer
          → (r : UploadResult) × ((upload p s chance input w).0 ≡ ok r) × (r.duplicate ≡ true)
      go none e f = absurd (All-In (λ r. ¬ IsActiveCopy sum chance.now r) q w.files.tables f i copy)
      go (some r) e f = (
        record { file_record = r; duplicate = true; delete_token = [] },
        rw (a.checked, IsAccepted-spool content_type a, e),
        refl,
      )

module _ {S : Type 0} (p : Platform S) (s : Service) (chance chance' : Chance)
    (input input' : Input) (content_type : Text) (w w' : World S) (r : UploadResult)
    (first : (upload p s chance input w).0 ≡ ok r) (is_new : r.duplicate ≡ false)
    (kept : w'.files.tables ≡ (upload p s chance input w).1.files.tables)
    (same_content : input'.content.rest ≡ input.content.rest)
    (in_time : chance'.now < stored_time (add_duration chance.now s.file_ttl))
    (accepted : IsAccepted p s chance' input' content_type) (working : Working w'.files) where
  abbrev Again : Type 0
  Again =
      (r' : UploadResult) × ((upload p s chance' input' w').0 ≡ ok r')
      × (r'.duplicate ≡ true)
      × (r'.delete_token ≡ [])
      × (r'.file_record.checksum_sha256 ≡ r.file_record.checksum_sha256)
      × ((upload p s chance' input' w').1.files.tables ≡ w'.files.tables)
      × ((upload p s chance' input' w').1.storage ≡ w'.storage)

  again_stored :
      (content_type₁ : Text)
      → IsStored p s chance input content_type₁ w r (upload p s chance input w).1
      → Again
  again_stored content_type₁ st =
      let sum_row : r.file_record.checksum_sha256 ≡ p.sha256_hex input'.content.rest =
        ap (λ x. x.checksum_sha256) st.row ∙ ap p.sha256_hex (sym same_content) in
      let expiry : r.file_record.expires_at ≡ add_duration chance.now s.file_ttl =
        ap (λ x. x.expires_at) st.row in
      let (r', e, d) =
        upload_of_copy p s chance' input' content_type w' (stored_file r.file_record) accepted
          working
          (rw (kept ∙ st.row_added) (In-append_last w.files.tables (stored_file r.file_record)))
          (record { same_content = sum_row; not_expired = rw expiry in_time }) in
      let (_, _, _, way) = upload-Succeeds p s chance' input' w' r' e in
      elim way [
        | inl dup ↦ (
          r',
          e,
          dup.flagged,
          dup.no_token,
          dup.newest_copy.1.same_content ∙ sym sum_row,
          dup.rows_unchanged,
          dup.storage_unchanged,
        )
        | inr (st', _) ↦ absurd (ground (arith, d, st'.not_duplicate))
      ]

  -- Uploading a content again: let an upload have stored it, let the table still hold what it held
  -- then, and let the second request, of any name, come before the stored expiry of the first file and be accepted. With a
  -- working database the second upload answers a duplicate: a row with the same checksum, no token,
  -- and nothing in the table or in the object store has changed.
  pub upload_again :
      (r' : UploadResult) × ((upload p s chance' input' w').0 ≡ ok r')
      × (r'.duplicate ≡ true)
      × (r'.delete_token ≡ [])
      × (r'.file_record.checksum_sha256 ≡ r.file_record.checksum_sha256)
      × ((upload p s chance' input' w').1.files.tables ≡ w'.files.tables)
      × ((upload p s chance' input' w').1.storage ≡ w'.storage)
  upload_again =
      let (ct, _, _, way) = upload-Succeeds p s chance input w r first in
      elim way [
        | inl dup ↦ absurd (ground (arith, is_new, dup.flagged))
        | inr (st, _) ↦ again_stored ct st
      ]

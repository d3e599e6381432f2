-- ===== src/File/Service/Answers.antt =====
-- The answer of an early deletion over a working database, on every branch.
use tempcdn.Prelude.{
  ◌≡◌, refl, ap, ◌∙◌, Bool, true, false, Option, none, some, List, arith, any, if◌then◌else◌, ltb,
}
use tempcdn.Text.{Text}
use tempcdn.Action.{Result, ok, err}
use tempcdn.IdGen.{delete_token_matches}
use tempcdn.IdGen.Laws.{delete_token_matches_iff}
use tempcdn.Storage.{Bytes}
use tempcdn.Metadata.Model.{Time, FileRecord, is_expired, file_not_found}
use tempcdn.Metadata.Files.{find_by_id, by_id, has_id}
use tempcdn.Metadata.Files.Effects.{
  Working, find_by_id-Working, find_by_id-answer, delete_by_id-answer,
}
use tempcdn.File.Service.{
  Platform, World, FileError, not_found, already_expired, invalid_delete_token, authorised,
  after_find, after_tests, after_delete, delete_record, delete_before_ttl,
}
use tempcdn.File.Service.Deletes.{IsAuthorised, delete_before_ttl-eq-ok}

module _ {S : Type 0} (p : Platform S) where
  -- The answer that a request deserves: the row is looked up, then the token is compared, then the
  -- time.
  abbrev pub Verdict : Text → Time → Option FileRecord → Result FileError (Unit {0})
  Verdict delete_token now none = err not_found
  Verdict delete_token now (some r) =
      if delete_token_matches p.sha256_hex delete_token r.delete_token_hash
      then (if ltb r.expires_at now then err already_expired else ok tt)
      else err invalid_delete_token

  after_delete-answer :
      (r : FileRecord) (found : Bool) (w : World S)
      → (after_delete p r (if found then ok tt else err file_not_found) w).0 ≡ ok tt
  unfolding after_delete
  after_delete-answer r true w = ground arith
  after_delete-answer r false w = ground arith

  delete_record-answer :
      (id : Text) (r : FileRecord) (w : World S)
      → Working w.files
      → (delete_record p id r w).0 ≡ ok tt
  unfolding delete_record
  delete_record-answer id r w h =
      rw (delete_by_id-answer id w.files h)
        (after_delete-answer r (any (has_id id) w.files.tables) _)

  after_tests-answer :
      (id : Text) (r : FileRecord) (t : Result FileError (Unit {0})) (w : World S)
      → Working w.files
      → (after_tests p id r t w).0 ≡ t
  unfolding after_tests
  after_tests-answer id r (ok u) w h = delete_record-answer id r w h
  after_tests-answer id r (err e) w h = refl

  -- Over a working database an early deletion gives exactly the deserved answer, whatever the object
  -- store and the purger answer.
  pub delete_before_ttl-answer :
      (id delete_token : Text) (now : Time) (w : World S)
      → Working w.files
      → (delete_before_ttl p id delete_token now w).0
        ≡ Verdict delete_token now (by_id id w.files.tables)
  unfolding delete_before_ttl after_find authorised is_expired
  delete_before_ttl-answer id delete_token now w h =
      go (by_id id w.files.tables) (find_by_id-answer id w.files h)
    where
      w₁ : World S
      w₁ = record { files = (find_by_id id w.files).1; storage = w.storage; purges = w.purges }

      go :
          (o : Option FileRecord)
          → (find_by_id id w.files).0 ≡ (elim o [ none ↦ err file_not_found | some r ↦ ok r ])
          → (after_find p id delete_token now (find_by_id id w.files).0 w₁).0
            ≡ Verdict delete_token now o
      go none e = rw e
      go (some r) e =
          rw e (after_tests-answer id r _ w₁ (find_by_id-Working id w.files h) ∙ ground arith)

  IsAuthorised-Verdict :
      (id delete_token : Text) (now : Time) (rows : List FileRecord) (r : FileRecord)
      → IsAuthorised p id delete_token now rows r
      → Verdict delete_token now (by_id id rows) ≡ ok tt
  IsAuthorised-Verdict id delete_token now rows r a = rw (a.found) (
      ground (
        arith,
        (delete_token_matches_iff p.sha256_hex delete_token r.delete_token_hash).1
            (a.has_token, a.has_hash, a.right_token),
        a.not_expired,
      ))

  -- An authorised deletion ignores what the object store answers: where the store keeps the object,
  -- the row is deleted all the same, success is reported, and the object stays without a row of that
  -- identifier.
  pub delete_before_ttl-leaves_object :
      (id delete_token : Text) (now : Time) (w : World S) (r : FileRecord) (b : Bytes)
      → Working w.files
      → IsAuthorised p id delete_token now w.files.tables r
      → p.objects.object (p.objects.delete_object r.object_key w.storage).1 r.object_key ≡ some b
      → ((delete_before_ttl p id delete_token now w).0 ≡ ok tt)
        × (by_id id (delete_before_ttl p id delete_token now w).1.files.tables ≡ none)
        × (p.objects.object (delete_before_ttl p id delete_token now w).1.storage r.object_key
            ≡ some b)
  delete_before_ttl-leaves_object id delete_token now w r b h a kept =
      let answer =
        delete_before_ttl-answer id delete_token now w h
        ∙ IsAuthorised-Verdict id delete_token now w.files.tables r a in
      let (q, a', d, _) = delete_before_ttl-eq-ok p id delete_token now w tt answer in
      let same_row : q ≡ r = cc (a'.found, a.found) in
      let key : q.object_key ≡ r.object_key = ap (λ x. x.object_key) same_row in
      (
        answer,
        d.row_gone,
        ap (λ st. p.objects.object st r.object_key)
              (d.storage_called ∙ ap (λ k. (p.objects.delete_object k w.storage).1) key)
            ∙ kept,
      )

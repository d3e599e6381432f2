-- ===== src/File/Service/Deletes.antt =====
-- Who can delete a file early, and what a deletion leaves.
use mathlib.Core.List.{append-nil}
use tempcdn.Prelude.{
  ◌≤◌, ◌≡◌, ◌≢◌, ◌⊎◌, inl, inr, refl, sym, ap, ◌∙◌, Bool, true, false, not, ◌&&◌, none, some, List,
  [], ◌∷◌, ◌++◌, arith, if◌then◌else◌,
}
use tempcdn.Text.{Text, is_empty}
use tempcdn.Action.{Result, ok, err}
use tempcdn.IdGen.{hash_delete_token}
use tempcdn.IdGen.Laws.{delete_token_matches_iff}
use tempcdn.Metadata.Model.{Time, FileRecord, is_expired, Error, file_not_found}
use tempcdn.Metadata.Files.{FilesDb, find_by_id, by_id, delete_by_id, delete_row}
use tempcdn.Metadata.Files.Effects.{
  find_by_id-tables, find_by_id-eq-ok, by_id-eq-none, Deletes, delete_by_id-Deletes,
}
use tempcdn.File.Service.{
  Platform, World, FileError, authorised, after_tests, after_find, after_delete, delete_record,
  delete_before_ttl, when, purge,
}

module _ {S : Type 0} (p : Platform S) where
  -- The request names a row of the table that has not expired, and carries its deletion token.
  pub record IsAuthorised (id delete_token : Text) (now : Time) (rows : List FileRecord)
      (r : FileRecord) : Type 0 where
    pub found : by_id id rows ≡ some r
    pub has_token : delete_token ≢ []
    pub has_hash : r.delete_token_hash ≢ []
    pub right_token : hash_delete_token p.sha256_hex delete_token ≡ r.delete_token_hash
    pub not_expired : now ≤ r.expires_at

  abbrev pub Unchanged : World S → World S → Type 0
  Unchanged w w' =
      (w'.files.tables ≡ w.files.tables) × (w'.storage ≡ w.storage) × (w'.purges ≡ w.purges)

  authorised-eq-ok :
      (id delete_token : Text) (now : Time) (rows : List FileRecord) (r : FileRecord) (u : Unit {0})
      → by_id id rows ≡ some r
      → authorised p delete_token now r ≡ ok u
      → IsAuthorised id delete_token now rows r
  unfolding authorised is_expired
  authorised-eq-ok id delete_token now rows r u f h =
      let (a, b, c) =
        (delete_token_matches_iff p.sha256_hex delete_token r.delete_token_hash).0 (ground arith) in
      record { found = f; has_token = a; has_hash = b; right_token = c; not_expired = ground arith }

  -- An early deletion either changes no row and no object and asks for no purge, or the request
  -- carries the deletion token of a row that has not expired.
  pub delete_before_ttl-IsGuarded :
      (id delete_token : Text) (now : Time) (w : World S)
      → Unchanged w (delete_before_ttl p id delete_token now w).1
        ⊎ ((r : FileRecord) × IsAuthorised id delete_token now w.files.tables r)
  unfolding delete_before_ttl after_find after_tests
  delete_before_ttl-IsGuarded id delete_token now w = go (find_by_id id w.files).0 refl
    where
      w₁ : World S
      w₁ = record { files = (find_by_id id w.files).1; storage = w.storage; purges = w.purges }

      same_rows : w₁.files.tables ≡ w.files.tables
      same_rows = find_by_id-tables id w.files

      go :
          (found : Result Error FileRecord)
          → (find_by_id id w.files).0 ≡ found
          → Unchanged w (after_find p id delete_token now found w₁).1
            ⊎ ((r : FileRecord) × IsAuthorised id delete_token now w.files.tables r)
      go (err e) f = inl (same_rows, refl, refl)
      go (ok r) f = tests (authorised p delete_token now r) refl
        where
          tests :
              (t : Result FileError (Unit {0}))
              → authorised p delete_token now r ≡ t
              → Unchanged w (after_tests p id r t w₁).1
                ⊎ ((r : FileRecord) × IsAuthorised id delete_token now w.files.tables r)
          tests (ok u) e = inr (
            r,
            authorised-eq-ok id delete_token now w.files.tables r u
                (find_by_id-eq-ok id w.files r f) e,
          )
          tests (err x) e = inl (same_rows, refl, refl)

  -- A row that is gone, and what the deletion keeps: the other rows, and the objects of other keys.
  pub record IsDeleted (id : Text) (r : FileRecord) (w w' : World S) : Type 0 where
    pub row_gone : by_id id w'.files.tables ≡ none
    pub rows_kept : w'.files.tables ≡ (delete_row id w.files.tables).1
    pub storage_called : w'.storage ≡ (p.objects.delete_object r.object_key w.storage).1

  -- The purge that belongs to a deleted row.
  abbrev pub purge_of : FileRecord → List (List Text)
  purge_of r =
      if p.cache_purge_on && p.has_purger && not (is_empty r.cdn_url)
      then (r.cdn_url ∷ []) ∷ []
      else []

  finish :
      (id : Text) (r : FileRecord) (w : World S) (b : Bool) (db : FilesDb)
      → db.tables ≡ (delete_row id w.files.tables).1
      → (let w₁ : World S = record {
        files = db;
        storage = (p.objects.delete_object r.object_key w.storage).1;
        purges = w.purges;
      } in
          IsDeleted id r w (when {E = FileError} b (purge (r.cdn_url ∷ [])) w₁).1
          × ((when {E = FileError} b (purge (r.cdn_url ∷ [])) w₁).1.purges
              ≡ w.purges ++ (if b then (r.cdn_url ∷ []) ∷ [] else [])))
  finish id r w true db d = (
    record {
      row_gone = rw d (by_id-eq-none id w.files.tables);
      rows_kept = d;
      storage_called = refl;
    },
    refl,
  )
  finish id r w false db d = (
    record {
      row_gone = rw d (by_id-eq-none id w.files.tables);
      rows_kept = d;
      storage_called = refl;
    },
    sym (append-nil w.purges),
  )

  delete_record-eq-ok :
      (id : Text) (r : FileRecord) (w : World S) (u : Unit {0})
      → (delete_record p id r w).0 ≡ ok u
      → IsDeleted id r w (delete_record p id r w).1
        × ((delete_record p id r w).1.purges ≡ w.purges ++ purge_of r)
  unfolding delete_record after_delete
  delete_record-eq-ok id r w u h =
      go (delete_by_id id w.files).0 (delete_by_id-Deletes id w.files) h
    where
      w₁ : World S
      w₁ = record {
        files = (delete_by_id id w.files).1;
        storage = (p.objects.delete_object r.object_key w.storage).1;
        purges = w.purges;
      }

      go :
          (answer : Result Error (Unit {0}))
          → Deletes id w.files (answer, w₁.files)
          → (after_delete p r answer w₁).0 ≡ ok u
          → IsDeleted id r w (after_delete p r answer w₁).1
            × ((after_delete p r answer w₁).1.purges ≡ w.purges ++ purge_of r)
      go (ok _) d a = finish id r w _ (delete_by_id id w.files).1 d
      go (err file_not_found) d a = finish id r w _ (delete_by_id id w.files).1 d
      go (err _) d a = absurd (ground arith)

  -- A deletion that succeeds was authorised. No row has the identifier any more, the other rows are
  -- as they were, the object store was asked to delete the row's object, and the row's URL is purged
  -- exactly if purging is on, a purger is there and the URL is not empty.
  pub delete_before_ttl-eq-ok :
      (id delete_token : Text) (now : Time) (w : World S) (u : Unit {0})
      → (delete_before_ttl p id delete_token now w).0 ≡ ok u
      → (r : FileRecord) × IsAuthorised id delete_token now w.files.tables r
        × IsDeleted id r w (delete_before_ttl p id delete_token now w).1
        × ((delete_before_ttl p id delete_token now w).1.purges ≡ w.purges ++ purge_of r)
  unfolding delete_before_ttl after_find after_tests
  delete_before_ttl-eq-ok id delete_token now w u h = go (find_by_id id w.files).0 refl h
    where
      w₁ : World S
      w₁ = record { files = (find_by_id id w.files).1; storage = w.storage; purges = w.purges }

      same_rows : w₁.files.tables ≡ w.files.tables
      same_rows = find_by_id-tables id w.files

      go :
          (found : Result Error FileRecord)
          → (find_by_id id w.files).0 ≡ found
          → (after_find p id delete_token now found w₁).0 ≡ ok u
          → (r : FileRecord) × IsAuthorised id delete_token now w.files.tables r
            × IsDeleted id r w (after_find p id delete_token now found w₁).1
            × ((after_find p id delete_token now found w₁).1.purges ≡ w.purges ++ purge_of r)
      go (err e) f a = absurd (ground arith)
      go (ok r) f a = tests (authorised p delete_token now r) refl a
        where
          tests :
              (t : Result FileError (Unit {0}))
              → authorised p delete_token now r ≡ t
              → (after_tests p id r t w₁).0 ≡ ok u
              → (q : FileRecord) × IsAuthorised id delete_token now w.files.tables q
                × IsDeleted id q w (after_tests p id r t w₁).1
                × ((after_tests p id r t w₁).1.purges ≡ w.purges ++ purge_of q)
          tests (err x) e b = absurd (ground arith)
          tests (ok v) e b =
              let (d, urls) = delete_record-eq-ok id r w₁ u b in
              (
                r,
                authorised-eq-ok id delete_token now w.files.tables r v
                    (find_by_id-eq-ok id w.files r f) e,
                record {
                  row_gone = d.row_gone;
                  rows_kept = d.rows_kept ∙ ap (λ rows. (delete_row id rows).1) same_rows;
                  storage_called = d.storage_called;
                },
                urls,
              )

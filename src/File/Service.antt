-- ===== src/File/Service.antt =====
-- internal/file/service.go. The state is the connection to the table `files`, the object store, and
-- the purge requests made so far; what a purge answers is only logged.
pub mod Deletes
pub mod Answers
mod Tests
use tempcdn.Prelude.{
  ℕ, Bool, true, false, not, ◌&&◌, Option, none, some, List, [], ◌∷◌, ◌++◌, if◌then◌else◌,
}
use tempcdn.Text.{Text, is_empty}
use tempcdn.Action.{Result, ok, err, Action, pure, raise, attempt, wrap, ◌>>=◌, ◌>>◌}
use tempcdn.IdGen.{delete_token_matches}
use tempcdn.Storage.{ObjectStorage}
use tempcdn.Metadata.Model.{Time, FileRecord, is_expired, Cause, Error, file_not_found}
use tempcdn.Metadata.Files.{FilesDb, find_by_id, delete_by_id}

pub data FileError : Type 0 where
  not_found already_expired invalid_delete_token : FileError
  repository : Error → FileError

pub record Info : Type 0 where
  pub file_record : FileRecord
  pub expired : Bool

pub record World (S : Type 0) : Type 0 where
  pub files : FilesDb
  pub storage : S
  pub purges : List (List Text)

module _ {S : Type 0} where
  abbrev pub on_files : {E A : Type 0} → Action FilesDb E A → Action (World S) E A
  on_files m w =
      let (r, f) = m w.files in (r, record { files = f; storage = w.storage; purges = w.purges })

  abbrev pub on_storage : {E : Type 0} → (S → Option Cause × S) → Action (World S) E (Option Cause)
  on_storage m w =
      let (r, s) = m w.storage in (ok r, record { files = w.files; storage = s; purges = w.purges })

  -- `PurgeURLs`, and the log line if it fails.
  abbrev pub purge : {E : Type 0} → List Text → Action (World S) E (Unit {0})
  purge urls w =
      (ok tt, record { files = w.files; storage = w.storage; purges = w.purges ++ urls ∷ [] })

  abbrev pub when :
      {E : Type 0} → Bool → Action (World S) E (Unit {0}) → Action (World S) E (Unit {0})
  when b m w = if b then m w else (ok tt, w)

-- The error of the repository, by `errors.Is(err, ErrFileNotFound)`.
abbrev pub lookup_error : Error → FileError
lookup_error file_not_found = not_found
lookup_error e = repository e

unfoldable pub get_info : Text → Time → Action FilesDb FileError Info
get_info id now = do
  r ← wrap lookup_error (find_by_id id)
  pure (record { file_record = r; expired = is_expired r now })

-- SHA-256 in hexadecimal, the object store, and whether purging is on and a purger is there.
pub record Platform (S : Type 0) : Type 0 where
  pub sha256_hex : Text → Text
  pub objects : ObjectStorage S
  pub cache_purge_on : Bool
  pub has_purger : Bool

module _ {S : Type 0} (p : Platform S) where
  -- From the answer of `DeleteByID`; a row that is gone already is no error.
  unfoldable pub after_delete :
      FileRecord → Result Error (Unit {0}) → Action (World S) FileError (Unit {0})
  after_delete r (err file_not_found) =
      when (p.cache_purge_on && p.has_purger && not (is_empty r.cdn_url)) (purge (r.cdn_url ∷ []))
  after_delete r (err e) = raise (repository e)
  after_delete r (ok _) =
      when (p.cache_purge_on && p.has_purger && not (is_empty r.cdn_url)) (purge (r.cdn_url ∷ []))

  -- The deletion, once the request is authorised. The answer of `DeleteObject` is ignored.
  unfoldable pub delete_record : Text → FileRecord → Action (World S) FileError (Unit {0})
  delete_record id r = do
    _ ← on_storage (p.objects.delete_object r.object_key)
    deleted ← attempt (on_files (delete_by_id id))
    after_delete r deleted

  -- The tests on the row that was found.
  unfoldable pub authorised : Text → Time → FileRecord → Result FileError (Unit {0})
  authorised delete_token now r =
      if not (delete_token_matches p.sha256_hex delete_token r.delete_token_hash)
      then err invalid_delete_token
      else if is_expired r now
      then err already_expired
      else ok tt

  unfoldable pub after_tests :
      Text → FileRecord → Result FileError (Unit {0}) → Action (World S) FileError (Unit {0})
  after_tests id r (err e) = raise e
  after_tests id r (ok _) = delete_record id r

  unfoldable pub after_find :
      Text → Text → Time → Result Error FileRecord → Action (World S) FileError (Unit {0})
  after_find id delete_token now (err e) = raise (lookup_error e)
  after_find id delete_token now (ok r) = after_tests id r (authorised delete_token now r)

  unfoldable pub delete_before_ttl : Text → Text → Time → Action (World S) FileError (Unit {0})
  delete_before_ttl id delete_token now = do
    found ← attempt (on_files (find_by_id id))
    after_find id delete_token now found

-- ===== src/File/Handler/Statuses.antt =====
-- What the status of a deletion tells the client.
use tempcdn.Prelude.{◌≡◌, refl, arith}
use tempcdn.Text.{Text}
use tempcdn.Action.{Result, ok}
use tempcdn.Metadata.Model.{Time, FileRecord}
use tempcdn.Metadata.Files.{by_id}
use tempcdn.Metadata.Files.Effects.{Working}
use tempcdn.File.Service.{FileError, Platform, World}
use tempcdn.File.Service.Deletes.{IsAuthorised, IsDeleted, delete_before_ttl-eq-ok}
use tempcdn.File.Service.Answers.{Verdict, delete_before_ttl-answer}
use tempcdn.File.Handler.{delete_response, extract_delete_token, serve_delete}

module _ {S : Type 0} (p : Platform S) where
  delete_response-ok :
      (a : Result FileError (Unit {0})) → (delete_response a).status ≡ 200 → a ≡ ok tt
  unfolding delete_response
  delete_response-ok a h = ground arith

  -- A deletion request that is answered with status 200 carried, in its header or else in its query,
  -- the token of the row, which had not expired; and the row is gone.
  pub serve_delete-200 :
      (id : Text) (header query : Text → Text) (now : Time) (w : World S)
      → (serve_delete p id header query now w).0.status ≡ 200
      → (r : FileRecord) × IsAuthorised p id
          (extract_delete_token header query)
          now
          w.files.tables
          r
        × IsDeleted p id r w (serve_delete p id header query now w).1
  unfolding serve_delete
  serve_delete-200 id header query now w h =
      let (r, a, d, _) =
        delete_before_ttl-eq-ok p id (extract_delete_token header query) now w tt
          (delete_response-ok _ h) in
      (r, a, d)

  -- Over a working database the response is that of the deserved answer: never status 500.
  pub serve_delete-Working :
      (id : Text) (header query : Text → Text) (now : Time) (w : World S)
      → Working w.files
      → (serve_delete p id header query now w).0
        ≡ delete_response
            (Verdict p (extract_delete_token header query) now (by_id id w.files.tables))
  unfolding serve_delete
  serve_delete-Working id header query now w h =
      rw (delete_before_ttl-answer p id (extract_delete_token header query) now w h) refl

-- ===== src/Upload/Service/Backed.antt =====
-- Every row of the table has its object: an upload keeps this, wherever it fails.
use mathlib.Core.Path.{subst}
use tempcdn.Prelude.{
  ◌≡◌, ◌≢◌, refl, sym, ◌∙◌, false, Option, none, some, List, [], ◌∷◌, length, All, All-append,
}
use tempcdn.Text.{Text}
use tempcdn.Action.{Result, ok, err, pure, raise, lift, ◌>>=◌}
use tempcdn.Action.Keeps.{bind-keeps, if-keeps}
use tempcdn.Storage.{Bytes}
use tempcdn.Metadata.Model.{Cause, FileRecord, stored_file, Error, file_not_found}
use tempcdn.Metadata.Files.{FilesDb, insert, find_active_by_checksum}
use tempcdn.Metadata.Files.Effects.{
  Honest, Inserts, insert-Inserts, find_active_by_checksum-tables, find_active_by_checksum-Honest,
}
use tempcdn.Upload.Service.{
  Platform, Service, Chance, Input, World, rewind, put_input, after_insert, persist_record,
  after_put, put_new, store, dedup, check_input, spool_input, after_lookup, upload, new_object_key,
  new_record,
}
use tempcdn.Upload.Service.Inversion.{spool_input-eq-ok}

module _ {S : Type 0} (p : Platform S) where
  -- The object of a row is there, of the row's size and checksum.
  abbrev pub IsBacked : S → FileRecord → Type 0
  IsBacked storage r =
      (b : Bytes) × (p.objects.object storage r.object_key ≡ some b)
      × (length b ≡ r.size_bytes)
      × (p.sha256_hex b ≡ r.checksum_sha256)

  abbrev pub AllBacked : World S → Type 0
  AllBacked w = All (IsBacked w.storage) w.files.tables

  -- A change of the store at a key that no row has.
  IsBacked-frame :
      (key : Text) (s t : S)
      → ((k : Text) → k ≢ key → p.objects.object t k ≡ p.objects.object s k)
      → (rows : List FileRecord) → All (λ r. r.object_key ≢ key) rows
      → All (IsBacked s) rows
      → All (IsBacked t) rows
  IsBacked-frame key s t same_else [] f h = tt
  IsBacked-frame key s t same_else (r ∷ rows) f ((b, e, l, c), h) =
      ((b, same_else r.object_key f.0 ∙ e, l, c), IsBacked-frame key s t same_else rows f.1 h)

module _ {S : Type 0} (p : Platform S) (s : Service) (chance : Chance) (input : Input) where
  after_insert-AllBacked :
      (r : FileRecord) (w : World S) (answer : Result Error (Unit {0})) (db : FilesDb)
      → Inserts r w.files (answer, db)
      → All (λ q. q.object_key ≢ r.object_key) w.files.tables
      → IsBacked p w.storage r
      → AllBacked p w
      → AllBacked p
          (after_insert p s chance input r answer (record { files = db; storage = w.storage })).1
  unfolding after_insert
  after_insert-AllBacked r w (ok _) db i fresh b all =
      rw (i.0) (All-append (IsBacked p w.storage) w.files.tables (stored_file r ∷ []) all (b, tt))
  after_insert-AllBacked r w (err e) db i fresh b all = rw i (
      IsBacked-frame p r.object_key w.storage _ (p.objects.object-delete_ne r.object_key w.storage)
        w.files.tables fresh all)

  persist_record-AllBacked :
      (r : FileRecord) (w : World S)
      → Honest w.files
      → All (λ q. q.object_key ≢ r.object_key) w.files.tables
      → IsBacked p w.storage r
      → AllBacked p w
      → AllBacked p (persist_record p s chance input r w).1
  unfolding persist_record
  persist_record-AllBacked r w h fresh b all =
      after_insert-AllBacked r w (insert r w.files).0 (insert r w.files).1
        (insert-Inserts r w.files h) fresh b all

  -- The object key of the upload is not in use.
  abbrev pub IsFresh : World S → Type 0
  IsFresh w = All (λ q. q.object_key ≢ new_object_key p s chance input) w.files.tables

  after_put-AllBacked :
      (content_type : Text) (spooled : Bytes) (token : Text) (w : World S) (answer : Option Cause)
      (st : S)
      → ((k : Text)
          → k ≢ new_object_key p s chance input
          → p.objects.object st k ≡ p.objects.object w.storage k)
      → (answer ≡ none → p.objects.object st (new_object_key p s chance input) ≡ some spooled)
      → Honest w.files
      → IsFresh w
      → AllBacked p w
      → AllBacked p
          (after_put p s chance input
            (new_record p s chance input content_type spooled (p.sha256_hex spooled) token)
            token
            answer
            (record { files = w.files; storage = st })).1
  unfolding after_put
  after_put-AllBacked content_type spooled token w (some e) st other here h fresh all =
      IsBacked-frame p (new_object_key p s chance input) w.storage st other w.files.tables fresh all
  after_put-AllBacked content_type spooled token w none st other here h fresh all =
      let r = new_record p s chance input content_type spooled (p.sha256_hex spooled) token in
      let w' : World S = record { files = w.files; storage = st } in
      let step : AllBacked p (persist_record p s chance input r w').1 =
        persist_record-AllBacked r w' h fresh (spooled, here refl, refl, refl)
          (IsBacked-frame p (new_object_key p s chance input) w.storage st other w.files.tables
            fresh all) in
      bind-keeps (AllBacked p) (persist_record p s chance input r)
        (λ _. pure (record { file_record = r; duplicate = false; delete_token = token })) w' step
        (λ u e. step)

  put_new-AllBacked :
      (content_type : Text) (spooled : Bytes) (drawn : Option Text) (w : World S)
      → Honest w.files
      → IsFresh w
      → AllBacked p w
      → AllBacked p (put_new p s chance input content_type spooled (p.sha256_hex spooled) drawn w).1
  unfolding put_new
  put_new-AllBacked content_type spooled none w h fresh all = all
  put_new-AllBacked content_type spooled (some t) w h fresh all =
      let i = put_input p s chance input content_type spooled in
      after_put-AllBacked content_type spooled t w (p.objects.put_object i w.storage).0
        (p.objects.put_object i w.storage).1 (p.objects.object-put_ne i w.storage)
        (p.objects.object-put i w.storage) h fresh all

  after_lookup-AllBacked :
      (content_type : Text) (spooled : Bytes) (found : Result Error FileRecord) (w : World S)
      → Honest w.files
      → IsFresh w
      → AllBacked p w
      → AllBacked p
          (after_lookup p s chance input content_type spooled (p.sha256_hex spooled) found w).1
  unfolding after_lookup store
  after_lookup-AllBacked content_type spooled (ok r) w h fresh all = all
  after_lookup-AllBacked content_type spooled (err file_not_found) w h fresh all =
      if-keeps (AllBacked p) chance.temp_file_rewound _ (raise rewind) w
        (put_new-AllBacked content_type spooled chance.delete_token w h fresh all) all
  after_lookup-AllBacked content_type spooled (err e) w h fresh all = all

  dedup-AllBacked :
      (content_type : Text) (spooled : Bytes) (w : World S)
      → Honest w.files
      → IsFresh w
      → AllBacked p w
      → AllBacked p (dedup p s chance input content_type (spooled, p.sha256_hex spooled) w).1
  unfolding dedup
  dedup-AllBacked content_type spooled w h fresh all =
      let checksum = p.sha256_hex spooled in
      let same_rows = find_active_by_checksum-tables checksum chance.now w.files in
      after_lookup-AllBacked content_type spooled
        (find_active_by_checksum checksum chance.now w.files).0
        (record {
          files = (find_active_by_checksum checksum chance.now w.files).1;
          storage = w.storage;
        })
        (find_active_by_checksum-Honest checksum chance.now w.files h) (rw same_rows fresh)
        (rw same_rows all)

  -- Where no reply of the database is lost and the object key of the upload is new, an upload keeps
  -- this: every row of the table has its object, of the row's size and checksum. It holds wherever
  -- the upload fails.
  pub upload-AllBacked :
      (w : World S)
      → Honest w.files
      → IsFresh w
      → AllBacked p w
      → AllBacked p (upload p s chance input w).1
  unfolding upload
  upload-AllBacked w h fresh all =
      bind-keeps (AllBacked p) (lift (check_input p s chance input))
        (λ content_type.
          lift (spool_input p s chance input) >>= dedup p s chance input content_type)
        w all
        (λ content_type _.
          bind-keeps (AllBacked p) (lift (spool_input p s chance input))
            (dedup p s chance input content_type) w all
            (λ spooled e.
              let (_, sum, _) = spool_input-eq-ok p s chance input spooled.0 spooled.1 e in
              subst (λ c. AllBacked p (dedup p s chance input content_type (spooled.0, c) w).1)
                (sym sum) (dedup-AllBacked content_type spooled.0 w h fresh all)))

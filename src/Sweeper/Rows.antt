-- ===== src/Sweeper/Rows.antt =====
-- What a pass of the sweeper does to the rows.
use tempcdn.Prelude.{
  ◌≤◌, ◌<◌, ◌≡◌, ◌≢◌, refl, ap, Bool, false, Option, none, some, List, [], ◌∷◌, arith, All, All-map,
  In,
}
use tempcdn.Action.{Result, ok, err}
use tempcdn.Metadata.Model.{Time, FileRecord, Cause, Error, file_not_found}
use tempcdn.Metadata.Files.{find_expired, delete_by_id}
use tempcdn.Metadata.Files.Effects.{In-delete_by_id, find_expired-tables}
use tempcdn.Metadata.Files.Search.{IsExpiredBatch, find_expired-IsExpiredBatch}
use tempcdn.File.Service.{Platform, World}
use tempcdn.Sweeper.{
  Progress, after_row, after_object, sweep_one, sweep_loop, purge_all, after_search, sweep_once,
  batch_size,
}

-- No two rows share an identifier.
abbrev pub IsKeyed : List FileRecord → Type 0
IsKeyed rows = (q r : FileRecord) → In q rows → In r rows → q.id ≡ r.id → q ≡ r

module _ {S : Type 0} (p : Platform S) where
  -- A change of the state by the loop at one row: the rows are as before, or without this one.
  pub after_row-world :
      (r : FileRecord) (answer : Result Error (Unit {0})) (g : Progress S)
      → (after_row p r answer g).world ≡ g.world
  unfolding after_row
  after_row-world r (ok u) g = refl
  after_row-world r (err file_not_found) g = refl
  after_row-world r (err e) g = refl

  purge_all-rows : (g : Progress S) → (purge_all p g).files ≡ g.world.files
  unfolding purge_all
  purge_all-rows g = ground arith

  after_object-keeps :
      (r q : FileRecord) (failure : Option Cause) (g : Progress S)
      → q.id ≢ r.id
      → In q g.world.files.tables
      → In q (after_object p r failure g).world.files.tables
  unfolding after_object
  after_object-keeps r q (some e) g ne i = i
  after_object-keeps r q none g ne i =
      rw (after_row-world r (delete_by_id r.id g.world.files).0 _)
        (In-delete_by_id r.id g.world.files q ne i)

  sweep_loop-keeps :
      (rs : List FileRecord) (q : FileRecord) (g : Progress S)
      → All (λ r. q.id ≢ r.id) rs
      → In q g.world.files.tables
      → In q (sweep_loop p rs g).world.files.tables
  unfolding sweep_loop sweep_one
  sweep_loop-keeps [] q g ne i = i
  sweep_loop-keeps (r ∷ rs) q g ne i =
      sweep_loop-keeps rs q (sweep_one p r g) ne.1
        (after_object-keeps r q (p.objects.delete_object r.object_key g.world.storage).0 _ ne.0 i)

  -- What holds of the state after the search and after each row holds after the pass.
  pub after_search-rule :
      (P : World S → Type 0) (w : World S) (found : Result Error (List FileRecord))
      → P w
      → ((rs : List FileRecord)
          → found ≡ ok rs
          → P (sweep_loop p rs (record { urls_to_purge = []; deleted_count = 0; world = w })).world)
      → ((g : Progress S) → P g.world → P (purge_all p g))
      → P (after_search p w found)
  unfolding after_search
  after_search-rule P w (err e) h k l = h
  after_search-rule P w (ok []) h k l = h
  after_search-rule P w (ok (r ∷ rs)) h k l = l _ (k (r ∷ rs) refl)

  live-ne-expired :
      (locked : FileRecord → Bool) (now : Time) (rows batch : List FileRecord) (q : FileRecord)
      → IsKeyed rows
      → In q rows
      → now < q.expires_at
      → IsExpiredBatch locked now batch_size rows batch
      → All (λ r. q.id ≢ r.id) batch
  live-ne-expired locked now rows batch q keyed i live b =
      All-map (λ r. In r rows × (r.expires_at ≤ now) × (locked r ≡ false)) (λ r. q.id ≢ r.id)
        (λ r h e. omega (arith, ap (λ x. x.expires_at) (keyed q r i h.0 e), h.1)) batch b.expired

  -- A row that has not expired survives a pass, however the database and the object store answer.
  pub sweep_once-keeps :
      (locked : FileRecord → Bool) (now : Time) (w : World S) (q : FileRecord)
      → IsKeyed w.files.tables
      → In q w.files.tables
      → now < q.expires_at
      → In q (sweep_once p locked now w).files.tables
  unfolding sweep_once
  sweep_once-keeps locked now w q keyed i live =
      let c = find_expired locked now batch_size w.files in
      let w₁ : World S = record { files = c.1; storage = w.storage; purges = w.purges } in
      let i₁ : In q w₁.files.tables = rw (find_expired-tables locked now batch_size w.files) i in
      after_search-rule (λ v. In q v.files.tables) w₁ c.0 i₁
        (λ rs e.
          sweep_loop-keeps rs q _
            (live-ne-expired locked now w.files.tables rs q keyed i live
              (find_expired-IsExpiredBatch locked now batch_size w.files rs e))
            i₁)
        (λ g h. rw (purge_all-rows g) h)

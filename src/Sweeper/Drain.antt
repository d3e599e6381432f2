-- ===== src/Sweeper/Drain.antt =====
-- That the sweeper gets to every expired row.
use tempcdn.Prelude.{
  ◌≤◌, ◌<◌, ◌≡◌, refl, ap, ◌∙◌, Bool, false, none, List, [], ◌∷◌, All, In, ◌⊎◌, inl, inr, length,
  arith,
}
use tempcdn.Text.{Text}
use tempcdn.Action.{Result, ok}
use tempcdn.Metadata.Model.{Time, FileRecord, Error}
use tempcdn.Metadata.Conn.{run, query}
use tempcdn.Metadata.Files.{FilesDb, delete_by_id, expired_rows, find_expired}
use tempcdn.Metadata.Files.Effects.{Working}
use tempcdn.File.Service.{Platform, World}
use tempcdn.Sweeper.{
  Progress, batch_size, after_row, after_object, sweep_one, sweep_loop, purge_all, after_search,
  sweep_once, run_passes,
}
use tempcdn.Sweeper.Counts.{
  expired_count, without, without_all, expired_count-without_all, expired_count-without_all_lt,
  batch-reaches, expired_count-zero, expired_count-some,
}

-- The passes with no row locked, and none earlier than a time.
abbrev pub IsLater : Time → List ((FileRecord → Bool) × Time) → Type 0
IsLater t passes = All (λ pass. ((r : FileRecord) → pass.0 r ≡ false) × (t ≤ pass.1)) passes

module _ {S : Type 0} (p : Platform S)
    (deletes : (k : Text) (s : S) → (p.objects.delete_object k s).0 ≡ none) where
  abbrev IsSwept : List FileRecord → FilesDb → FilesDb → Type 0
  IsSwept rs c d = Working d × (d.tables ≡ without_all rs c.tables)

  delete_by_id-IsSwept :
      (r : FileRecord) (c : FilesDb)
      → Working c
      → Working (delete_by_id r.id c).1 × ((delete_by_id r.id c).1.tables ≡ without r c.tables)
  unfolding delete_by_id run
  delete_by_id-IsSwept r c w = ground arith

  after_row-files :
      (r : FileRecord) (answer : Result Error (Unit {0})) (g : Progress S)
      → (after_row p r answer g).world.files ≡ g.world.files
  unfolding after_row
  after_row-files r answer g = ground arith

  sweep_one-IsSwept :
      (r : FileRecord) (g : Progress S)
      → Working g.world.files
      → IsSwept (r ∷ []) g.world.files (sweep_one p r g).world.files
  unfolding sweep_one after_object
  sweep_one-IsSwept r g w =
      rw (deletes r.object_key g.world.storage, after_row-files r _ _)
        (delete_by_id-IsSwept r g.world.files w)

  sweep_loop-IsSwept :
      (rs : List FileRecord) (g : Progress S)
      → Working g.world.files
      → IsSwept rs g.world.files (sweep_loop p rs g).world.files
  unfolding sweep_loop
  sweep_loop-IsSwept [] g w = (w, refl)
  sweep_loop-IsSwept (r ∷ rs) g w =
      let (w2, e) = sweep_one-IsSwept r g w in
      let (w3, e2) = sweep_loop-IsSwept rs (sweep_one p r g) w2 in (w3, e2 ∙ ap (without_all rs) e)

  purge_all-files : (g : Progress S) → (purge_all p g).files ≡ g.world.files
  unfolding purge_all
  purge_all-files g = ground arith

  find_expired-Working :
      (locked : FileRecord → Bool) (now : Time) (c : FilesDb)
      → Working c
      → ((find_expired locked now batch_size c).0
          ≡ ok (expired_rows locked now batch_size c.tables))
        × Working (find_expired locked now batch_size c).1
        × ((find_expired locked now batch_size c).1.tables ≡ c.tables)
  unfolding find_expired query run
  find_expired-Working locked now c w = ground arith

  after_search-IsSwept :
      (w : World S) (rs : List FileRecord)
      → Working w.files
      → IsSwept rs w.files (after_search p w (ok rs)).files
  unfolding after_search
  after_search-IsSwept w [] h = (h, refl)
  after_search-IsSwept w (r ∷ rs) h =
      rw
        (purge_all-files
          (sweep_loop p (r ∷ rs) (record { urls_to_purge = []; deleted_count = 0; world = w })))
        (sweep_loop-IsSwept (r ∷ rs) (record { urls_to_purge = []; deleted_count = 0; world = w })
          h)

  -- A pass removes the rows of its batch.
  sweep_once-IsSwept :
      (locked : FileRecord → Bool) (now : Time) (w : World S)
      → Working w.files
      → IsSwept
          (expired_rows locked now batch_size w.files.tables)
          w.files
          (sweep_once p locked now w).files
  unfolding sweep_once
  sweep_once-IsSwept locked now w h =
      let (e, working, same_tables) = find_expired-Working locked now w.files h in
      let v : World S = record {
        files = (find_expired locked now batch_size w.files).1;
        storage = w.storage;
        purges = w.purges;
      } in
      let batch : List FileRecord = expired_rows locked now batch_size w.files.tables in
      let (a, b) = after_search-IsSwept v batch working in
      rw e (a, b ∙ ap (without_all batch) same_tables)

  sweep_once-fewer :
      (locked : FileRecord → Bool) (t now : Time) (w : World S)
      → Working w.files
      → ((r : FileRecord) → locked r ≡ false)
      → t ≤ now
      → (expired_count t (sweep_once p locked now w).files.tables ≡ 0)
        ⊎ (expired_count t (sweep_once p locked now w).files.tables
            < expired_count t w.files.tables)
  sweep_once-fewer locked t now w h free le =
      let batch : List FileRecord = expired_rows locked now batch_size w.files.tables in
      let (_, e) = sweep_once-IsSwept locked now w h in
      elim (expired_count-some t w.files.tables) [
        | inl z ↦ inl (
            omega
              (arith, ap (expired_count t) e, z, expired_count-without_all t batch w.files.tables))
        | inr (q, i, old) ↦
            let (r, j, k, older) = batch-reaches locked t now w.files.tables q le i old (free q) in
            inr (
              omega (
                arith,
                ap (expired_count t) e,
                expired_count-without_all_lt t r batch w.files.tables j k older,
              ))
      ]

  drained :
      (t : Time) (passes : List ((FileRecord → Bool) × Time)) (w : World S)
      → Working w.files
      → IsLater t passes
      → expired_count t w.files.tables ≤ length passes
      → expired_count t (run_passes p passes w).files.tables ≡ 0
  unfolding run_passes
  drained t [] w h later enough = omega (arith, enough)
  drained t ((locked, now) ∷ passes) w h later enough =
      let (working, _) = sweep_once-IsSwept locked now w h in
      drained t passes (sweep_once p locked now w) working later.1
        (elim (sweep_once-fewer locked t now w h later.0.0 later.0.1) [
          | inl z ↦ omega (arith, z)
          | inr less ↦ omega (arith, less, enough)
        ])

  -- Over a working database and an object store that carries out every delete, and with no row locked
  -- by another instance, as many passes as there are rows that have expired at a time, none of them
  -- earlier, leave no such row: every row that is left expires later.
  pub run_passes-drains :
      (t : Time) (passes : List ((FileRecord → Bool) × Time)) (w : World S) (q : FileRecord)
      → Working w.files
      → IsLater t passes
      → expired_count t w.files.tables ≤ length passes
      → In q (run_passes p passes w).files.tables
      → t < q.expires_at
  run_passes-drains t passes w q h later enough i =
      expired_count-zero t (run_passes p passes w).files.tables q
        (drained t passes w h later enough) i

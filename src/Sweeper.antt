-- ===== src/Sweeper.antt =====
-- internal/sweeper/sweeper.go: one pass of the expiry sweeper. Its state is that of internal/file:
-- the connection to the table `files`, the object store and the purge requests.
pub mod Rows
pub mod Objects
pub mod Counts
pub mod Drain
mod Tests
use tempcdn.Prelude.{
  ℕ, ◌+◌, Bool, true, false, not, ◌&&◌, Option, none, some, List, [], ◌∷◌, ◌++◌, if◌then◌else◌,
}
use tempcdn.Text.{Text, is_empty}
use tempcdn.Action.{Result, ok, err}
use tempcdn.Storage.{ObjectStorage}
use tempcdn.Metadata.Model.{Time, FileRecord, Cause, Error, file_not_found}
use tempcdn.Metadata.Files.{find_expired, delete_by_id}
use tempcdn.File.Service.{Platform, World}

abbrev pub batch_size : ℕ
batch_size = 100

-- The variables of the loop: `purgeURLs`, `deletedCount`, and the state.
pub record Progress (S : Type 0) : Type 0 where
  pub urls_to_purge : List Text
  pub deleted_count : ℕ
  pub world : World S

abbrev pub is_nil : List Text → Bool
is_nil [] = true
is_nil (u ∷ us) = false

module _ {S : Type 0} (p : Platform S) where
  abbrev pub counted : FileRecord → Progress S → Progress S
  counted r g = record {
    urls_to_purge =
        if is_empty r.cdn_url then g.urls_to_purge else g.urls_to_purge ++ r.cdn_url ∷ [];
    deleted_count = g.deleted_count + 1;
    world = g.world;
  }

  -- What is done with the answer of `DeleteByID`.
  unfoldable pub after_row : FileRecord → Result Error (Unit {0}) → Progress S → Progress S
  after_row r (ok _) g = counted r g
  after_row r (err file_not_found) g = counted r g
  after_row r (err e) g = g

  -- What is done with the answer of `DeleteObject`: the row of an object that could not be deleted
  -- is kept.
  unfoldable pub after_object : FileRecord → Option Cause → Progress S → Progress S
  after_object r (some e) g = g
  after_object r none g =
      let (answer, files) = delete_by_id r.id g.world.files in
      after_row r answer (record {
        urls_to_purge = g.urls_to_purge;
        deleted_count = g.deleted_count;
        world = record { files = files; storage = g.world.storage; purges = g.world.purges };
      })

  -- The body of the loop.
  unfoldable pub sweep_one : FileRecord → Progress S → Progress S
  sweep_one r g =
      let (failure, storage) = p.objects.delete_object r.object_key g.world.storage in
      after_object r failure (record {
        urls_to_purge = g.urls_to_purge;
        deleted_count = g.deleted_count;
        world = record { files = g.world.files; storage = storage; purges = g.world.purges };
      })

  unfoldable pub sweep_loop : List FileRecord → Progress S → Progress S
  sweep_loop [] g = g
  sweep_loop (r ∷ rs) g = sweep_loop rs (sweep_one r g)

  -- The purge at the end, and the state that the pass leaves.
  unfoldable pub purge_all : Progress S → World S
  purge_all g =
      if p.cache_purge_on && p.has_purger && not (is_nil g.urls_to_purge)
      then record {
        files = g.world.files;
        storage = g.world.storage;
        purges = g.world.purges ++ g.urls_to_purge ∷ [];
      }
      else g.world

  unfoldable pub after_search : World S → Result Error (List FileRecord) → World S
  after_search w (err e) = w
  after_search w (ok []) = w
  after_search w (ok (r ∷ rs)) =
      purge_all (sweep_loop (r ∷ rs) (record { urls_to_purge = []; deleted_count = 0; world = w }))

  -- `locked` holds of the rows that another instance has locked during the search.
  unfoldable pub sweep_once : (FileRecord → Bool) → Time → World S → World S
  sweep_once locked now w =
      let (found, files) = find_expired locked now batch_size w.files in
      after_search (record { files = files; storage = w.storage; purges = w.purges }) found

  -- `Run`: a pass at the start and one at every tick, until the context is done; each with its time
  -- and the rows that are locked during its search.
  unfoldable pub run_passes : List ((FileRecord → Bool) × Time) → World S → World S
  unfolding sweep_once
  run_passes [] w = w
  run_passes ((locked, now) ∷ passes) w = run_passes passes (sweep_once locked now w)

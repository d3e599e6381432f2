-- ===== src/Metadata/Files.antt =====
-- internal/metadata/postgres_repository_files.go: the statements on the table `files`, whose
-- primary key is `id` (postgres_migrations/0001_init.sql).
pub mod Effects
pub mod Search
mod Tests
use tempcdn.Prelude.{
  ℕ, ◌+◌, Bool, true, false, not, ◌&&◌, Option, none, some, List, [], ◌∷◌, ◌++◌, ltb, leb, ◌==◌,
  if◌then◌else◌, any, filter, take, length,
}
use tempcdn.Text.{Text, same, before, is_empty, has_char, lit}
use tempcdn.Action.{Result, ok, err, Action, pure, raise, lift, wrap, or_raise, ◌>>=◌, ◌>>◌}
use tempcdn.Metadata.Model.{
  Time, FileRecord, stored_file, Error, file_not_found, unique_violation, database,
}
use tempcdn.Metadata.Sql.{head?, order_by}
use tempcdn.Metadata.Conn.{Conn, run, query}

abbrev pub FilesDb : Type 0
FilesDb = Conn (List FileRecord)

abbrev pub has_id : Text → FileRecord → Bool
has_id id r = same r.id id

-- `INSERT INTO files`: false says that the primary key is taken.
abbrev pub insert_row : FileRecord → List FileRecord → Bool × List FileRecord
insert_row r rows =
    if any (has_id r.id) rows then (false, rows) else (true, rows ++ stored_file r ∷ [])

unfoldable pub insert : FileRecord → Action FilesDb Error (Unit {0})
unfolding run
insert r = do
  inserted ← wrap database (run (insert_row r))
  if inserted then pure tt else raise unique_violation

abbrev pub is_active_copy : Text → Time → FileRecord → Bool
is_active_copy checksum now r = same r.checksum_sha256 checksum && ltb now r.expires_at

abbrev pub newer_first : FileRecord → FileRecord → Bool
newer_first a b = leb b.created_at a.created_at

unfoldable pub active_by_checksum : Text → Time → List FileRecord → Option FileRecord
unfolding order_by
active_by_checksum checksum now rows =
    head? (order_by newer_first (filter (is_active_copy checksum now) rows))

unfoldable pub find_active_by_checksum : Text → Time → Action FilesDb Error FileRecord
unfolding query
find_active_by_checksum checksum now = do
  row ← wrap database (query (active_by_checksum checksum now))
  or_raise row file_not_found

abbrev pub by_id : Text → List FileRecord → Option FileRecord
by_id id [] = none
by_id id (r ∷ rows) = if same r.id id then some r else by_id id rows

unfoldable pub find_by_id : Text → Action FilesDb Error FileRecord
unfolding query
find_by_id id = do row ← wrap database (query (by_id id)); or_raise row file_not_found

abbrev pub expires_first : FileRecord → FileRecord → Bool
expires_first a b = leb a.expires_at b.expires_at

-- The rows that `FOR UPDATE SKIP LOCKED` returns: `locked` holds of those that a transaction of
-- another instance has locked at that time.
unfoldable pub expired_rows : (FileRecord → Bool) → Time → ℕ → List FileRecord → List FileRecord
unfolding order_by
expired_rows locked now limit rows =
    take limit (order_by expires_first (filter (λ r. leb r.expires_at now && not (locked r)) rows))

-- The transaction: begin, query, commit. The locks end with it.
unfoldable pub find_expired :
    (FileRecord → Bool) → Time → ℕ → Action FilesDb Error (List FileRecord)
unfolding query
find_expired locked now limit = do
  wrap database (query (λ _. tt))
  rows ← wrap database (query (expired_rows locked now limit))
  wrap database (query (λ _. tt))
  pure rows

-- `DELETE FROM files WHERE id = $1`, with whether a row was deleted.
abbrev pub delete_row : Text → List FileRecord → Bool × List FileRecord
delete_row id rows = (any (has_id id) rows, filter (λ r. not (same r.id id)) rows)

unfoldable pub delete_by_id : Text → Action FilesDb Error (Unit {0})
unfolding run
delete_by_id id = do
  deleted ← wrap database (run (delete_row id))
  if deleted then pure tt else raise file_not_found

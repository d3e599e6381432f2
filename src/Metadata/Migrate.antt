-- ===== src/Metadata/Migrate.antt =====
-- internal/metadata/postgres_repository.go: `Migrate`, over one connection. The files are embedded
-- in the program: `entries` are the names in their directory with whether each is a directory, and
-- `read_file` is their contents. What a file's SQL does to the data is outside: `apply_sql`.
pub mod Transaction
pub mod Applies
pub mod Again
mod Tests
use tempcdn.Prelude.{
  ℕ, Bool, true, false, not, ◌&&◌, Option, none, some, List, [], ◌∷◌, ◌++◌, any, ltb, ◌==◌,
  if◌then◌else◌,
}
use tempcdn.Text.{Text, same}
use tempcdn.Action.{Result, ok, err, Action, pure, raise, attempt, wrap, or_raise, ◌>>=◌, ◌>>◌}
use tempcdn.Metadata.Model.{Cause}
use tempcdn.Metadata.Conn.{Conn, run, query}
use tempcdn.Metadata.Sql.{order_by}

-- What is committed: the content of the database, and the names in `schema_migrations`.
pub record Committed (D : Type 0) : Type 0 where
  pub content : D
  pub filenames : List Text

-- The connection's view: what is committed, and what the open transaction would commit.
pub record Schema (D : Type 0) : Type 0 where
  pub committed : Committed D
  pub pending : Committed D
  pub locked : Bool

pub data MigrateError : Type 0 where
  acquire lock create_table read_directory : MigrateError
  check read_file begin apply record_name commit : Text → MigrateError

-- `sort.Strings`, and its order.
unfoldable pub precedes : Text → Text → Bool
precedes [] t = true
precedes (c ∷ s) [] = false
precedes (c ∷ s) (d ∷ t) = if c == d then precedes s t else ltb c d

unfoldable pub sort_names : List Text → List Text
unfolding order_by precedes
sort_names names = order_by precedes names

-- The loop that collects the names of the files.
unfoldable pub file_names : List (Text × Bool) → List Text
file_names [] = []
file_names ((name, is_dir) ∷ entries) =
    let rest = file_names entries in if is_dir then rest else name ∷ rest

abbrev pub has_name : Text → List Text → Bool
has_name name names = any (same name) names

module _ {D : Type 0} where
  -- `BEGIN`
  abbrev pub opened : Schema D → Unit {0} × Schema D
  opened s = (tt, record s { pending = s.committed })

  -- The name's row in the transaction; false says that the primary key is violated.
  abbrev pub named : Text → Schema D → Bool × Schema D
  named name s = if has_name name s.pending.filenames then (false, s) else (
    true,
    record s {
      pending = record {
        content = s.pending.content;
        filenames = s.pending.filenames ++ name ∷ [];
      };
    },
  )

  -- `COMMIT`
  abbrev pub closed : Schema D → Unit {0} × Schema D
  closed s = (tt, record s { committed = s.pending })

  -- `ROLLBACK`, whose error is ignored: what is not committed is gone with the transaction.
  abbrev pub rolled_back : {A : Type 0} → MigrateError → Action (Conn (Schema D)) MigrateError A
  rolled_back e = do _ ← attempt (run (λ s. (tt, record s { pending = s.committed }))); raise e

  -- What is done with the answer to a statement of the transaction.
  abbrev pub or_roll_back :
      MigrateError → Result Cause Bool → Action (Conn (Schema D)) MigrateError (Unit {0})
  or_roll_back e (ok true) = pure tt
  or_roll_back e (ok false) = rolled_back e
  or_roll_back e (err c) = rolled_back e

module _ {D : Type 0} (apply_sql : Text → D → Option D) where
  -- The statements of a file in the transaction; false says that one fails.
  abbrev pub applied_to : Option D → Schema D → Bool × Schema D
  applied_to none s = (false, s)
  applied_to (some content) s =
      (true, record s { pending = record { content = content; filenames = s.pending.filenames } })

  abbrev pub applied : Text → Schema D → Bool × Schema D
  applied contents s = applied_to (apply_sql contents s.pending.content) s

  -- The transaction of one file.
  unfoldable pub apply_file : Text → Text → Action (Conn (Schema D)) MigrateError (Unit {0})
  unfolding run
  apply_file name contents = do
    wrap (λ c. begin name) (run opened)
    done ← attempt (run (applied contents))
    or_roll_back (apply name) done
    recorded ← attempt (run (named name))
    or_roll_back (record_name name) recorded
    wrap (λ c. commit name) (run closed)

  -- One round of the loop, behind the query; `contents` is what `ReadFile` gives.
  unfoldable pub migrate_file :
      Text → Option Text → Bool → Action (Conn (Schema D)) MigrateError (Unit {0})
  unfolding apply_file
  migrate_file name contents true = pure tt
  migrate_file name none false = raise (read_file name)
  migrate_file name (some contents) false = apply_file name contents

  unfoldable pub migrate_files :
      (Text → Option Text) → List Text → Action (Conn (Schema D)) MigrateError (Unit {0})
  unfolding query migrate_file
  migrate_files read [] = pure tt
  migrate_files read (name ∷ names) = do
    already ← wrap (λ c. check name) (query (λ s. has_name name s.committed.filenames))
    migrate_file name (read name) already
    migrate_files read names

  -- The loop over the sorted names; `none` is the error of `ReadDir`.
  unfoldable pub migrate_entries :
      (Text → Option Text)
      → Option (List (Text × Bool))
      → Action (Conn (Schema D)) MigrateError (Unit {0})
  unfolding sort_names file_names migrate_files
  migrate_entries read none = raise read_directory
  migrate_entries read (some entries) = migrate_files read (sort_names (file_names entries))

  -- The deferred `pg_advisory_unlock`, whose error is ignored.
  abbrev pub unlocked :
      Result MigrateError (Unit {0}) × Conn (Schema D)
      → Result MigrateError (Unit {0}) × Conn (Schema D)
  unlocked (r, c) = (r, (run (λ s. (tt, record s { locked = false })) c).1)

  -- From the lock to the end.
  unfoldable pub migrate_locked :
      (Text → Option Text)
      → Option (List (Text × Bool))
      → Action (Conn (Schema D)) MigrateError (Unit {0})
  unfolding run migrate_entries
  migrate_locked read entries c = unlocked (
      let m : Action (Conn (Schema D)) MigrateError (Unit {0}) = (do
        wrap (λ c. create_table) (run (λ s. (tt, s)))
        migrate_entries read entries) in
      m c)

  -- `acquired` says that the pool has a connection.
  unfoldable pub migrate :
      Bool
      → (Text → Option Text)
      → Option (List (Text × Bool))
      → Action (Conn (Schema D)) MigrateError (Unit {0})
  unfolding run migrate_locked
  migrate false read entries = raise acquire
  migrate true read entries = do
    wrap (λ c. lock) (run (λ s. (tt, record s { locked = true })))
    migrate_locked read entries

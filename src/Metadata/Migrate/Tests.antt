-- ===== src/Metadata/Migrate/Tests.antt =====
-- Two migrations, of which one is applied already, and a connection that loses a reply.
use tempcdn.Prelude.{ℕ, ◌+◌, ◌≡◌, refl, Bool, true, false, Option, some, List, [], ◌∷◌, length}
use tempcdn.Text.{Text, lit, same}
use tempcdn.Action.{ok}
use tempcdn.Metadata.Model.{Cause}
use tempcdn.Metadata.Sql.{insert_by, order_by}
use tempcdn.Metadata.Conn.{Conn, done, lost, run, query}
use tempcdn.Metadata.Migrate.{
  Committed, Schema, precedes, sort_names, file_names, apply_file, migrate_file, migrate_files,
  migrate_entries, migrate_locked, migrate,
}
use tempcdn.Metadata.Migrate.Applies.{Applies, migrate-Applies}
use tempcdn.Metadata.Migrate.Again.{migrate_again}

abbrev apply_sql : Text → ℕ → Option ℕ
apply_sql contents d = some (length contents + d)

abbrev read_name : Text → Option Text
read_name name = some name

abbrev entries : List (Text × Bool)
entries = (lit "0002_b", false) ∷ (lit "old", true) ∷ (lit "0001_a", false) ∷ []

abbrev committed : Committed ℕ
committed = record { content = 6; filenames = lit "0001_a" ∷ [] }

abbrev schema : Schema ℕ
schema = record { committed = committed; pending = committed; locked = false }

-- The reply to the commit is lost.
abbrev bad_conn : Conn (Schema ℕ)
bad_conn = record {
  tables = schema;
  outcomes = done ∷ done ∷ done ∷ done ∷ done ∷ done ∷ done ∷ lost Cause.other ∷ [];
}

abbrev good_conn : Conn (Schema ℕ)
good_conn = record { tables = schema; outcomes = [] }

abbrev after : Schema ℕ
after = record {
  committed = record { content = 12; filenames = lit "0001_a" ∷ lit "0002_b" ∷ [] };
  pending = record { content = 12; filenames = lit "0001_a" ∷ lit "0002_b" ∷ [] };
  locked = false;
}

migrate-Applies_example :
    Applies apply_sql read_name
      (sort_names (file_names entries))
      committed
      (migrate apply_sql true read_name (some entries) bad_conn)
migrate-Applies_example = migrate-Applies apply_sql true read_name entries bad_conn

runs : Unit {0}
unfolding migrate migrate_locked migrate_entries migrate_files migrate_file apply_file run query
    sort_names file_names order_by insert_by precedes same
runs = tt

good_run :
    migrate apply_sql true read_name (some entries) good_conn
    ≡ (ok tt, record { tables = after; outcomes = [] })
unfolding runs
good_run = refl

abbrev migrated : Conn (Schema ℕ)
migrated = record { tables = after; outcomes = lost Cause.other ∷ [] }

migrate_again_example :
    (migrate apply_sql true read_name (some entries) migrated).1.tables.committed ≡ after.committed
unfolding runs
migrate_again_example =
    migrate_again apply_sql read_name true true entries good_conn migrated refl refl

-- ===== src/Metadata/Legal.antt =====
-- internal/metadata/postgres_repository_legal.go: the statements on the table `legal_documents`.
use tempcdn.Prelude.{Bool, none, some, [], ◌∷◌, ◌++◌, any, if◌then◌else◌}
use tempcdn.Text.{Text, same}
use tempcdn.Action.{Action, wrap, or_raise, ◌>>=◌}
use tempcdn.Metadata.Model.{
  Time, stored_time, LegalDocument, Error, legal_document_not_found, database,
}
use tempcdn.Metadata.Sql.{first_where, update_where}
use tempcdn.Metadata.Conn.{run, query}
use tempcdn.Metadata.Tables.{AdminDb}

abbrev pub has_type : Text → LegalDocument → Bool
has_type doc_type d = same d.doc_type doc_type

unfoldable pub get_legal_document : Text → Action AdminDb Error LegalDocument
unfolding query
get_legal_document doc_type = do
  row ← wrap database (query (λ t. first_where (has_type doc_type) t.legal_documents))
  or_raise row legal_document_not_found

-- The row that the seeding inserts.
abbrev pub stored_document : LegalDocument → LegalDocument
stored_document d = record d { updated_at = stored_time d.updated_at; updated_by = none }

-- `ON CONFLICT (doc_type) DO NOTHING`
unfoldable pub seed_legal_document_if_missing : LegalDocument → Action AdminDb Error (Unit {0})
unfolding run
seed_legal_document_if_missing d = wrap database (
    run (λ t. (
      tt,
      record t {
        legal_documents =
            if any (has_type d.doc_type) t.legal_documents
            then t.legal_documents
            else t.legal_documents ++ stored_document d ∷ [];
      },
    )))

abbrev pub rewritten : Text → Text → Time → LegalDocument → LegalDocument
rewritten content updated_by now d = record d {
  content = content;
  updated_at = stored_time now;
  updated_by = some updated_by;
}

-- `UPDATE ... RETURNING`
unfoldable pub update_legal_document :
    Text → Text → Text → Time → Action AdminDb Error LegalDocument
unfolding run
update_legal_document doc_type content updated_by now = do
  row ← wrap database (
      run (λ t.
        let rows =
          update_where (has_type doc_type) (rewritten content updated_by now) t.legal_documents in
        (first_where (has_type doc_type) rows, record t { legal_documents = rows })))
  or_raise row legal_document_not_found

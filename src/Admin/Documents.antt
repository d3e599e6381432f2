-- ===== src/Admin/Documents.antt =====
-- internal/admin/service.go: `GetLegalDocument` and `UpdateLegalDocument`.
use tempcdn.Prelude.{Bool, not, ◌||◌, if◌then◌else◌}
use tempcdn.Text.{Text, same, is_empty, trim_space}
use tempcdn.Action.{Action, raise, wrap}
use tempcdn.Metadata.Model.{Time, LegalDocument, legal_doc_terms, legal_doc_privacy}
use tempcdn.Metadata.Tables.{AdminDb}
use tempcdn.Metadata.Legal.{get_legal_document, update_legal_document}
use tempcdn.Admin.Model.{
  AdminError, invalid_legal_doc_type, legal_document_content_empty, repository,
}

unfoldable pub is_valid_legal_doc_type : Text → Bool
is_valid_legal_doc_type doc_type = same doc_type legal_doc_terms || same doc_type legal_doc_privacy

unfoldable pub get_document : Text → Action AdminDb AdminError LegalDocument
get_document doc_type =
    if is_valid_legal_doc_type doc_type
    then wrap repository (get_legal_document doc_type)
    else raise invalid_legal_doc_type

unfoldable pub update_document : Text → Text → Text → Time → Action AdminDb AdminError LegalDocument
unfolding trim_space
update_document doc_type content admin_id now =
    if not (is_valid_legal_doc_type doc_type)
    then raise invalid_legal_doc_type
    else if is_empty (trim_space content)
    then raise legal_document_content_empty
    else wrap repository (update_legal_document doc_type content admin_id now)

-- ===== src/Public/Documents.antt =====
-- The answer to a request for a public legal document that is in the table.
use tempcdn.Prelude.{◌≡◌, refl, Bool, true, List, [], ◌∷◌, any, some, arith, inl, inr, Bool-cases}
use tempcdn.Text.{Text}
use tempcdn.Text.Laws.{same_iff}
use tempcdn.Action.{ok}
use tempcdn.Metadata.Model.{LegalDocument}
use tempcdn.Metadata.Sql.{first_where}
use tempcdn.Metadata.Conn.{query, run}
use tempcdn.Metadata.Tables.{AdminDb}
use tempcdn.Metadata.Admins.Effects.{Working}
use tempcdn.Metadata.Legal.{has_type, get_legal_document}
use tempcdn.Http.{Request, json, payload}
use tempcdn.Public.{document, document_answer, serve_document}

first_where_of_any :
    (p : LegalDocument → Bool) (rows : List LegalDocument)
    → any p rows ≡ true
    → (d : LegalDocument) × (first_where p rows ≡ some d) × (p d ≡ true)
unfolding first_where
first_where_of_any p [] h = absurd (ground arith)
first_where_of_any p (r ∷ rows) h = elim (Bool-cases (p r)) [
  | inl t ↦ rw t (r, refl, t)
  | inr f ↦ rw f (first_where_of_any p rows (rw f at h))
]

get_legal_document_of_some :
    (t : Text) (c : AdminDb) (d : LegalDocument)
    → Working c
    → first_where (has_type t) c.tables.legal_documents ≡ some d
    → (get_legal_document t c).0 ≡ ok d
unfolding get_legal_document query run
get_legal_document_of_some t c d w e = ground arith

-- The response to a request for a document of this type is the document, with status 200.
pub IsServed : Text → Request → AdminDb → Type 0
IsServed t r c =
    (d : LegalDocument) × (d.doc_type ≡ t)
    × ((serve_document t r c).0.events ≡ json 200 (payload (document d)))

pub serve_document-IsServed :
    (t : Text) (r : Request) (c : AdminDb)
    → Working c
    → any (has_type t) c.tables.legal_documents ≡ true
    → IsServed t r c
unfolding IsServed serve_document document_answer
serve_document-IsServed t r c w h =
    let (d, e, q) = first_where_of_any (has_type t) c.tables.legal_documents h in
    (d, (same_iff d.doc_type t).0 q, rw (get_legal_document_of_some t c d w e) refl)

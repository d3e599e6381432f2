-- ===== src/Server/Run/Documents.antt =====
-- The public legal documents while an instance runs.
use tempcdn.Prelude.{◌≡◌, true, any}
use tempcdn.Text.{Text}
use tempcdn.Metadata.Tables.{AdminDb}
use tempcdn.Metadata.Legal.{has_type}
use tempcdn.Admin.Handler.Frame.{Keeps}

-- The table has a document of the type.
HasDocument : Text → AdminDb → Type 0
HasDocument t c = any (has_type t) c.tables.legal_documents ≡ true

-- It still has it, if it had it.
StaysThere : Text → AdminDb → AdminDb → Type 0
unfolding HasDocument
StaysThere t c d = HasDocument t c → HasDocument t d

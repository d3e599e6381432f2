-- ===== src/Metadata/Tables.antt =====
-- The tables of the administration: postgres_migrations/0003_admin_auth.sql and the files after it.
use tempcdn.Prelude.{Option, List}
use tempcdn.Metadata.Model.{Admin, AdminSession, ApiKey, UploadSettings, LegalDocument}
use tempcdn.Metadata.Conn.{Conn}

-- The table `upload_settings` has at most one row, of identifier 1.
pub record AdminTables : Type 0 where
  pub admins : List Admin
  pub sessions : List AdminSession
  pub api_keys : List ApiKey
  pub upload_settings : Option UploadSettings
  pub legal_documents : List LegalDocument

abbrev pub AdminDb : Type 0
AdminDb = Conn AdminTables

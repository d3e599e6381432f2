-- ===== src/Metadata.antt =====
-- internal/metadata: the records, the connection to Postgres, and the repositories over it.
pub mod Model
pub mod Times
pub mod Sql
pub mod Conn
pub mod Connect
pub mod Migrate
pub mod Files
pub mod Stats
pub mod Tables
pub mod Admins
pub mod ApiKeys
pub mod Settings
pub mod Legal
pub mod Nodes

-- ===== src/Admin.antt =====
-- internal/admin: accounts, sessions, API keys, and what an admin may edit.
pub mod Model
pub mod Sessions
pub mod Frame
pub mod Keys
pub mod Settings
pub mod Documents
pub mod Bootstrap
pub mod Access
pub mod Handler
mod Tests

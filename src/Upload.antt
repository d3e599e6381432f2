-- ===== src/Upload.antt =====
-- internal/upload: the rules that a file must meet, its checksum, and the upload itself.
pub mod Validator
pub mod Checksum
pub mod Key
pub mod Service
pub mod Synchronizer
pub mod Handler

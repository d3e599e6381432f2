-- ===== src/File.antt =====
-- internal/file: what is known of a file, and its early deletion.
pub mod Service
pub mod Handler

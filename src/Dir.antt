-- ===== src/Dir.antt =====
-- dir.c: paths, and what the server knows of a file.
pub mod Path
pub mod Listing
pub mod Files

-- ===== src/Files.antt =====
-- rust/src/domain/files: the part of it that a session carries.
pub mod Flagged

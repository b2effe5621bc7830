-- ===== src/Restic/Safe.antt =====
-- What a retention run may delete.
pub mod Groups
pub mod Trace
pub mod Deletions

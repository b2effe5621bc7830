-- ===== src/Node/Removal.antt =====
-- internal/node/removal.go: whether an account may be removed, and the backups that would make it so.
pub mod Cover
pub mod Safety
pub mod Promised
pub mod Copies
pub mod Listed
pub mod Allowed
pub mod Queue
pub mod Written
pub mod Prepared
mod Tests

-- ===== src/Sync.antt =====
-- main.go: the sync of one repository.
pub mod Auth
pub mod Repo
pub mod Lock

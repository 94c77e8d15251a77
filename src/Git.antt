-- ===== src/Git.antt =====
-- internal/git/git.go: what is checked of names, refs and URLs, the redaction of credentials, and the
-- git commands of a sync.
pub mod Validate
pub mod Redact
pub mod Sync

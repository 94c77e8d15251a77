-- ===== src/Stacks.antt =====
-- main.go: the stacks of a repository, from the compose file to the applied state.
pub mod Compose
pub mod Summary
pub mod Apply

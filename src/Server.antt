-- ===== src/Server.antt =====
-- internal/server: the dashboard server.
pub mod Http
pub mod Repos
pub mod Settings
pub mod Auth
pub mod Limiter
pub mod Trigger
pub mod Apply
pub mod Status
pub mod Keys
pub mod Origin
pub mod Files
pub mod Containers
pub mod Exec
pub mod Routes
pub mod Stream
pub mod System

-- ===== src/Main.antt =====
-- main.go: the main loop, the callback of the dashboard, and the start of the program.
pub mod Config
pub mod Round
pub mod Loop
pub mod Callback
pub mod Token
pub mod Startup

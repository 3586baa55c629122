-- ===== src/Launch.antt =====
-- src/bin/flyingsquirrel.rs and src/config.rs: what a start of the program does before any task runs.
pub mod Words
pub mod Config
pub mod Options
pub mod Cli
pub mod Startup
pub mod Guards
pub mod Sanctions
pub mod Printed
pub mod Replay

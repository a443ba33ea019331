-- ===== src/Daemon.antt =====
-- The daemon of crates/rrjj/src/main.rs.
mod Tests
pub mod Options
pub mod Modes
pub mod Socket
pub mod Control

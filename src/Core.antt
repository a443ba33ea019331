-- ===== src/Core.antt =====
-- The recorder's coordinator, crates/rrjj-core.
pub mod Tests
pub mod PathMap
pub mod Audit
pub mod Coordinator
pub mod Command
pub mod Recorder
pub mod Watcher
pub mod System
pub mod Start

-- ===== src/Sinks.antt =====
-- The event sinks of crates/rrjj-sinks.
mod Tests
pub mod Error
pub mod Traits
pub mod Util
pub mod Journal
pub mod Http
pub mod Durable
pub mod Broadcast
pub mod Files
pub mod Git
pub mod Local

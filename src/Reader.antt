-- ===== src/Reader.antt =====
-- The reader of a recorded session, crates/rrjj-reader.
mod Tests
pub mod Errors
pub mod Timeline
pub mod Session
pub mod ObjectId

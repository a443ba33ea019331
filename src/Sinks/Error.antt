-- ===== src/Sinks/Error.antt =====
-- The errors of crates/rrjj-sinks/src/error.rs. A message is held as its fixed text: the values that
-- the source formats into it, which nothing reads back, are left out.
use rrjj.Prelude.{ℕ, String}

-- What the program reads of a `std::io::Error`.
pub data IoError : Type 0 where
  not_found : IoError
  -- `raw_os_error() == Some(28)`
  no_space : IoError
  other : String → IoError

pub data SinkError : Type 0 where
  serialize : String → SinkError
  io : IoError → SinkError
  spool_full : (used attempted limit : ℕ) → SinkError
  disk_exhausted : String → SinkError
  failed : String → SinkError
  invalid_flush : String → SinkError
  invalid_config : String → SinkError
  checkpoint_conflict : String → SinkError
  event_conflict : String → SinkError
  transient : String → SinkError

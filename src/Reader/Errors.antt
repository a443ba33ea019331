-- ===== src/Reader/Errors.antt =====
-- `ReadError` of crates/rrjj-reader/src/lib.rs.
use rrjj.Prelude.{ℕ, String}
use rrjj.Sinks.Error.{IoError}

pub data ReadError : Type 0 where
  io : IoError → ReadError
  json : (line : ℕ) → (source : String) → ReadError
  version : (line version : ℕ) → ReadError
  sequence : (line expected actual : ℕ) → ReadError
  session : (line : ℕ) → (expected actual : String) → ReadError
  missing_manifest : ReadError
  incompatible : (session_format schema_version : ℕ) → ReadError
  not_durable : ReadError
  beyond_watermark : (requested durable : ℕ) → ReadError
  unknown_operation : String → ReadError
  unknown_tree : String → ReadError
  invalid_object_id : String → ReadError
  repository : String → ReadError
  destination_inside_session : ReadError
  destination_not_empty : String → ReadError

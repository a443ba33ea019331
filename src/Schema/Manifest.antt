-- ===== src/Schema/Manifest.antt =====
-- The session manifest of crates/rrjj-schema/src/lib.rs.
use rrjj.Prelude.{ℕ, ◌&&◌, Bool, Option, String, ◌==◌}

pub record FormatMetadata : Type 0 where
  pub session_format : ℕ
  pub schema_version : ℕ
  pub rrjj_version : String
  pub jj_lib_version : String
  pub jj_store_version : String

pub record StoragePointers : Type 0 where
  pub provider : String
  pub session_uri : String
  pub manifest_uri : String
  pub repository_uri : String
  pub events_uri : Option String

pub record SessionManifest : Type 0 where
  pub session_id : String
  pub format : FormatMetadata
  pub last_seq : ℕ
  pub last_op : String
  pub events_object : Option String
  pub durable_seq : Option ℕ
  pub durable_op : Option String
  pub storage : Option StoragePointers

-- `SessionManifest::is_compatible`: both versions are the ones that this build writes, format 1 and
-- schema 0.
unfoldable pub is_compatible : SessionManifest → Bool
is_compatible m = m.format.session_format == 1 && m.format.schema_version == 0

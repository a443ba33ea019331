-- ===== src/Schema.antt =====
-- The records that the recorder writes and the reader reads: crates/rrjj-schema/src/lib.rs.
-- The JSON of a record is the work of serde, which is outside this repository, so the structs are
-- modelled and their encoding is a parameter where it is used. The `meta` map of a mark, which the
-- program only passes on, is held as its JSON text.
pub mod Manifest
pub mod Numbering
use rrjj.Prelude.{ℕ, ◌+◌, String, Bool, true, false, Option, List, wrap64}

-- `SCHEMA_VERSION`
abbrev pub schema_version : ℕ
schema_version = 0

-- `SESSION_FORMAT_VERSION`
abbrev pub session_format_version : ℕ
session_format_version = 1

pub data ChangeKind : Type 0 where
  added removed modified renamed mode_changed : ChangeKind

pub record Change : Type 0 where
  pub path : String
  pub kind : ChangeKind
  pub blob : Option String
  pub prev_blob : Option String
  pub from : Option String
  pub bytes : Option ℕ

pub record ChangeStats : Type 0 where
  pub added : ℕ
  pub removed : ℕ
  pub modified : ℕ
  pub renamed : ℕ
  pub mode_changed : ℕ

-- `ChangeStats::default`
abbrev pub no_changes : ChangeStats
no_changes = record { added = 0; removed = 0; modified = 0; renamed = 0; mode_changed = 0 }

-- `ChangeStats::record`
unfoldable pub record_change : ChangeKind → ChangeStats → ChangeStats
record_change ChangeKind.added s = record s { added = wrap64 (s.added + 1) }
record_change ChangeKind.removed s = record s { removed = wrap64 (s.removed + 1) }
record_change ChangeKind.modified s = record s { modified = wrap64 (s.modified + 1) }
record_change ChangeKind.renamed s = record s { renamed = wrap64 (s.renamed + 1) }
record_change ChangeKind.mode_changed s = record s { mode_changed = wrap64 (s.mode_changed + 1) }

pub record SessionStart : Type 0 where
  pub roots : List String
  pub baseline_op : String
  pub baseline_tree : String
  pub ignore : List String
  pub rrjj_version : String
  pub jj_lib_version : String
  pub jj_store_version : String

pub record Snapshot : Type 0 where
  pub op : String
  pub parent_op : String
  pub commit : String
  pub tree : String
  pub changes : List Change
  pub stats : ChangeStats
  pub truncated : Bool

pub data TouchOperation : Type 0 where
  create modify remove rename other : TouchOperation

pub record TouchedPath : Type 0 where
  pub path : String
  pub operations : List TouchOperation

pub record TouchedPaths : Type 0 where
  pub paths : List TouchedPath
  pub raw_events : ℕ
  pub window_started_at : String
  pub window_ended_at : String

pub record Mark : Type 0 where
  pub label : String
  pub meta : String
  pub ref_op : String

pub record Flush : Type 0 where
  pub op : String
  pub through_seq : ℕ

pub record SessionEnd : Type 0 where
  pub final_op : String
  pub reason : String
  pub snapshots : ℕ
  pub events : ℕ

pub record ErrorEvent : Type 0 where
  pub scope : String
  pub message : String
  pub fatal : Bool
  pub retrying : Bool

pub data OverflowRecovery : Type 0 where
  full_scan_snapshot : OverflowRecovery

pub record Overflow : Type 0 where
  pub source : String
  pub raw_events : ℕ
  pub recovery : OverflowRecovery

pub data EventBody : Type 0 where
  session_start : SessionStart → EventBody
  snapshot : Snapshot → EventBody
  touched_paths : TouchedPaths → EventBody
  mark : Mark → EventBody
  flush : Flush → EventBody
  session_end : SessionEnd → EventBody
  error : ErrorEvent → EventBody
  overflow : Overflow → EventBody

pub record Event : Type 0 where
  pub v : ℕ
  pub seq : ℕ
  pub session_id : String
  pub ts : String
  pub body : EventBody

-- `Event::at`; `Event::new` is `at` with the clock's reading.
abbrev pub event_at : String → ℕ → String → EventBody → Event
event_at session_id seq timestamp body = record {
  v = schema_version;
  seq = seq;
  session_id = session_id;
  ts = timestamp;
  body = body;
}

-- The body is a snapshot's.
abbrev pub is_snapshot : EventBody → Bool
is_snapshot (EventBody.snapshot s) = true
is_snapshot _ = false

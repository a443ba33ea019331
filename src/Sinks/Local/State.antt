-- ===== src/Sinks/Local/State.antt =====
-- The state of `DirectorySessionSink` in crates/rrjj-sinks/src/local.rs, how it is made, and the steps
-- on it that call nothing; a call's answer is an argument.
use rrjj.Prelude.{ℕ, ◌+◌, String, Option, none, some, List, ltb, if◌then◌else◌, wrap64, length}
use rrjj.Prelude.Action.{Result, ok, err, Action, and_then, map_err}
use rrjj.Schema.{Event}
use rrjj.Schema.Manifest.{SessionManifest, FormatMetadata}
use rrjj.Sinks.Error.{IoError, SinkError, io, failed, spool_full, disk_exhausted}
use rrjj.Sinks.Traits.{SinkCursor}
use rrjj.Sinks.Util.{Encoder, event_op}
use rrjj.Sinks.Journal.{Writer}
use rrjj.Sinks.Files.{Location, Files}
use rrjj.Sinks.Local.Repository.{DirectorySyncStats}
use rrjj.Sinks.Local.Copying.{Tree}

pub record DirectoryState : Type 0 where
  pub manifest : SessionManifest
  pub spool_bytes : ℕ
  pub failed : Option SinkError
  pub last_sync : Option DirectorySyncStats

pub record DirectorySessionSink (W F : Type 0) : Type 0 where
  pub spool : W
  pub disk : F
  pub spool_path : Location
  pub session_dir : Location
  pub max_spool_bytes : ℕ
  pub state : DirectoryState

-- What the sink reaches: the spool's file, the file system, serde's JSON, the names of event files
-- and the listing of the shadow repository.
pub record Outside (W F : Type 0) : Type 0 where
  pub writer : Writer W
  pub files : Files F
  pub encode : Encoder
  pub manifest_json : SessionManifest → Result IoError (List ℕ)
  pub cursor_json : SinkCursor → Result IoError (List ℕ)
  -- `format!("{:020}.ndjson", last_seq)`
  pub events_name : ℕ → String
  pub location : String → Location
  pub shadow_tree : Location → F → Tree

-- What the calls of `create` answer.
pub record Opening (W : Type 0) : Type 0 where
  pub create_parent : Result IoError Unit
  pub create_session_dir : Result IoError Unit
  pub set_directory_permissions : Result IoError Unit
  pub opened : Result IoError W
  pub set_file_permissions : Result IoError Unit
  pub metadata_len : Result IoError ℕ

abbrev pub new_manifest : String → FormatMetadata → SessionManifest
new_manifest session_id format = record {
  session_id = session_id;
  format = format;
  last_seq = 0;
  last_op = "";
  events_object = none;
  durable_seq = none;
  durable_op = none;
  storage = none;
}

abbrev pub latched : Option SinkError → Result SinkError Unit
latched none = ok tt
latched (some e) = err (failed "an earlier write failed")

abbrev pub io_failure : IoError → SinkError
io_failure IoError.no_space = disk_exhausted "spool"
io_failure e = io e

abbrev pub op_or : String → Option String → String
op_or last_op none = last_op
op_or last_op (some op) = op

module _ {W F : Type 0} where
  unfoldable pub create :
      Opening W
      → F
      → (spool_path session_dir : Location) → String
      → FormatMetadata
      → ℕ
      → Result SinkError (DirectorySessionSink W F)
  create calls disk spool_path session_dir session_id format max_spool_bytes =
      and_then (map_err io calls.create_parent) λ _.
        and_then (map_err io calls.create_session_dir) λ _.
          and_then (map_err io calls.set_directory_permissions) λ _.
            and_then (map_err io calls.opened) λ spool.
              and_then (map_err io calls.set_file_permissions) λ _.
                and_then (map_err io calls.metadata_len) λ spool_bytes.
                  if ltb max_spool_bytes spool_bytes
                  then err (spool_full spool_bytes 0 max_spool_bytes)
                  else ok (record {
                    spool = spool;
                    disk = disk;
                    spool_path = spool_path;
                    session_dir = session_dir;
                    max_spool_bytes = max_spool_bytes;
                    state = record {
                      manifest = new_manifest session_id format;
                      spool_bytes = spool_bytes;
                      failed = none;
                      last_sync = none;
                    };
                  })

  unfoldable pub check_failed : Action (DirectorySessionSink W F) SinkError Unit
  check_failed s = (latched s.state.failed, s)

  -- The message that the state keeps is the text of the error.
  unfoldable pub fail_io :
      IoError → DirectorySessionSink W F → Result SinkError Unit × DirectorySessionSink W F
  fail_io e s =
      (err (io_failure e), record s { state = record (s.state) { failed = some (io_failure e) } })

  -- A call on the spool, whose error is latched or only returned.
  unfoldable pub after_write :
      Result IoError Unit × W
      → DirectorySessionSink W F
      → Result SinkError Unit × DirectorySessionSink W F
  unfolding fail_io
  after_write (ok _, spool) s = (ok tt, record s { spool = spool })
  after_write (err e, spool) s = fail_io e (record s { spool = spool })

  abbrev pub after_flush :
      Result IoError Unit × W
      → DirectorySessionSink W F
      → Result SinkError Unit × DirectorySessionSink W F
  after_flush (r, spool) s = (map_err io r, record s { spool = spool })

  unfoldable pub check_room : List ℕ → DirectorySessionSink W F → Result SinkError (List ℕ)
  check_room line s =
      if ltb s.max_spool_bytes (wrap64 (s.state.spool_bytes + length line))
      then err (spool_full s.state.spool_bytes (length line) s.max_spool_bytes)
      else ok line

  -- The manifest and the size after an event is accepted.
  unfoldable pub accept : Event → List ℕ → DirectorySessionSink W F → DirectorySessionSink W F
  accept event line s = record s {
    state = record (s.state) {
      spool_bytes = wrap64 (s.state.spool_bytes + length line);
      manifest = record (s.state.manifest) {
        last_seq = event.seq;
        last_op = op_or s.state.manifest.last_op (event_op event);
      };
    };
  }

-- ===== src/Sinks/Local.antt =====
-- `DirectorySessionSink` of crates/rrjj-sinks/src/local.rs: a spool of JSON lines, and a session
-- directory that a flush brings up to date. The file systems are parameters, and so is the JSON.
mod Tests
pub mod Immutable
pub mod Repository
pub mod Copying
pub mod State
pub mod Latch
pub mod Watermark
pub mod Content
pub mod Synced
unfoldable pub use rrjj.Sinks.Local.State.{
  create, check_failed, fail_io, after_write, check_room, accept,
}
pub use rrjj.Sinks.Local.State.{
  DirectoryState, DirectorySessionSink, Outside, Opening, new_manifest, latched, io_failure,
  after_flush, op_or,
}
use Prim.Native.String.{◌++◌ as text_append}
use rrjj.Prelude.{
  ℕ, ◌+◌, ◌==◌, Bool, true, false, not, String, Option, none, some, List, [], ◌∷◌, ◌++◌, ltb,
  if◌then◌else◌, wrap64, length,
}
use rrjj.Prelude.Action.{
  Result, ok, err, Action, and_then, map_err, lift, pure, fail, modify, gets, when, ◌>>=◌, ◌>>◌,
}
use rrjj.Schema.{Event}
use rrjj.Schema.Manifest.{SessionManifest, FormatMetadata}
use rrjj.Sinks.Error.{
  IoError, SinkError, serialize, io, failed, invalid_flush, spool_full, disk_exhausted,
}
use rrjj.Sinks.Traits.{Sink, FlushRequest, SinkCursor}
use rrjj.Sinks.Util.{Encoder, newline, event_op}
use rrjj.Sinks.Journal.{Writer, encode_line}
use rrjj.Sinks.Files.{Location, Files, join, sync_directory, copy_file_atomic, write_json_atomic}
use rrjj.Sinks.Local.Repository.{DirectorySyncStats, Sync, no_stats, on_disk, mark}
use rrjj.Sinks.Local.Copying.{Tree, sync_repository_tree, sync_directories}

module _ {W F : Type 0} (out : Outside W F) where
  unfoldable pub on_spool : Action W IoError Unit → Action (DirectorySessionSink W F) SinkError Unit
  unfolding after_write
  on_spool call s = after_write (call s.spool) s

  unfoldable pub admit : Event → DirectorySessionSink W F → Result SinkError (List ℕ)
  unfolding encode_line check_room
  admit event s = and_then (encode_line out.encode event) λ line. check_room line s

  unfoldable pub write_manifest : Location → Result IoError (List ℕ) → Action F IoError Unit
  write_manifest session_dir (err e) = fail e
  write_manifest session_dir (ok bytes) = do
    out.files.write (join session_dir "manifest.json.tmp") bytes
    out.files.sync_all (join session_dir "manifest.json.tmp")
    out.files.rename (join session_dir "manifest.json.tmp") (join session_dir "manifest.json")
    sync_directory out.files session_dir

  unfoldable pub write_manifest_atomic : Location → SessionManifest → Action F IoError Unit
  unfolding write_manifest
  write_manifest_atomic session_dir manifest =
      out.files.create_dir_all session_dir
      >> write_manifest session_dir (out.manifest_json manifest)

  -- An update that fails after the acceptance is only reported.
  unfoldable pub observe_manifest : DirectorySessionSink W F → DirectorySessionSink W F
  unfolding write_manifest_atomic
  observe_manifest s = record s {
    disk = (write_manifest_atomic s.session_dir s.state.manifest s.disk).1;
  }

  unfoldable pub append : Event → List ℕ → Action (DirectorySessionSink W F) SinkError Unit
  unfolding on_spool accept observe_manifest
  append event line = do
    on_spool (out.writer.write_all line)
    on_spool out.writer.flush
    on_spool out.writer.sync_data
    modify (accept event line)
    modify observe_manifest

  unfoldable pub emit : Event → Action (DirectorySessionSink W F) SinkError Unit
  unfolding check_failed admit append
  emit event = do check_failed; line ← (λ s. (admit event s, s)); append event line

  abbrev pub flush_spool : Action W IoError Unit → Action (DirectorySessionSink W F) SinkError Unit
  flush_spool call s = after_flush (call s.spool) s

  unfoldable pub flush : Action (DirectorySessionSink W F) SinkError Unit
  unfolding check_failed
  flush = do check_failed; flush_spool out.writer.flush; flush_spool out.writer.sync_all

  unfoldable pub ensure_store : Location → Action (Sync F) IoError Unit
  ensure_store session_dir s =
      if out.files.exists (join session_dir "store") s.disk
      then (ok tt, s)
      else (do
        on_disk out.files (out.files.create_dir_all (join session_dir "store"))
        modify (mark out.files (join session_dir "store"))
        modify (mark out.files session_dir))
          s

  unfoldable pub copy_events : Location → Location → Location → Action F IoError Unit
  copy_events spool_path session_dir events disk =
      if out.files.exists events disk
      then (ok tt, disk)
      else (do
        copy_file_atomic out.files spool_path events
        sync_directory out.files (join session_dir "events")
        sync_directory out.files session_dir)
          disk

  abbrev pub with_events : SessionManifest → SessionManifest
  with_events m = record m {
    durable_seq = some m.last_seq;
    durable_op = some m.last_op;
    events_object = some (text_append "events/" (out.events_name m.last_seq));
  }

  abbrev pub cursor_of : SessionManifest → Option String → SinkCursor
  cursor_of m checkpoint = record {
    delivered_seq = some m.last_seq;
    delivered_op = some m.last_op;
    checkpoint = checkpoint;
  }

  -- The repository, then the events, then the cursor, and the manifest last.
  unfoldable pub sync_directory_session :
      (shadow_root spool_path session_dir : Location)
      → SessionManifest
      → Option String
      → Action (Sync F) IoError DirectorySyncStats
  unfolding ensure_store copy_events
  sync_directory_session shadow_root spool_path session_dir manifest checkpoint = do
    ensure_store session_dir
    (λ s.
        sync_repository_tree out.files (out.shadow_tree (join shadow_root "repo") s.disk)
          (join shadow_root "repo") (join (join session_dir "store") "repo") [] s)
    (λ s. on_disk out.files (sync_directories out.files s.dirty_directories) s)
    on_disk out.files (out.files.create_dir_all (join session_dir "events"))
    on_disk out.files (
        copy_events spool_path session_dir
          (join (join session_dir "events") (out.events_name manifest.last_seq)))
    on_disk out.files (
        write_json_atomic out.files (join session_dir "cursor.json")
          (out.cursor_json (cursor_of manifest checkpoint)))
    on_disk out.files (write_manifest_atomic session_dir (with_events manifest))
    gets (λ s. s.stats)

  -- The manifest in memory after a sync that succeeded.
  abbrev pub durable : FlushRequest → SessionManifest → SessionManifest
  durable request m = record m {
    durable_seq = some request.last_seq;
    durable_op = some request.last_op;
    events_object = some (text_append "events/" (out.events_name request.last_seq));
  }

  abbrev pub synced :
      FlushRequest
      → SessionManifest
      → Result IoError DirectorySyncStats × Sync F
      → DirectorySessionSink W F
      → Result SinkError Unit × DirectorySessionSink W F
  synced request manifest (err e, t) s = (err (io e), record s { disk = t.disk })
  synced request manifest (ok stats, t) s = (
    ok tt,
    record s {
      disk = t.disk;
      state = record (s.state) { manifest = durable request manifest; last_sync = some stats };
    },
  )

  unfoldable pub sync_session : FlushRequest → Action (DirectorySessionSink W F) SinkError Unit
  unfolding sync_directory_session
  sync_session request s =
      let manifest = record (s.state.manifest) { last_op = request.last_op } in
      synced request manifest
        (sync_directory_session (out.location request.shadow_root) s.spool_path s.session_dir
          manifest request.checkpoint
          (record { disk = s.disk; stats = no_stats; dirty_directories = [] }))
        s

  unfoldable pub check_seq : FlushRequest → DirectorySessionSink W F → Result SinkError Unit
  check_seq request s =
      if not (request.last_seq == s.state.manifest.last_seq)
      then err (invalid_flush "coordinator seq does not match spool seq")
      else ok tt

  unfoldable pub flush_session : FlushRequest → Action (DirectorySessionSink W F) SinkError Unit
  unfolding flush check_seq sync_session
  flush_session request = do flush; (λ s. (check_seq request s, s)); sync_session request

  unfoldable pub directory_sink : Sink (DirectorySessionSink W F)
  unfolding emit flush flush_session
  directory_sink = record { emit = emit; flush = flush; flush_session = flush_session }

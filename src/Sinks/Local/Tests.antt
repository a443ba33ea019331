-- ===== src/Sinks/Local/Tests.antt =====
-- Names of repository files, and a sink on which the theorems about Sinks/Local are applied.
use rrjj.Prelude.Texts.{strip_text, rsplit_once}
use rrjj.Sinks.Util.Oid.{all_hex}
use rrjj.Prelude.{
  ◌≡◌, refl, Bool, true, false, Option, none, some, List, [], ◌∷◌, ℕ, if◌then◌else◌, ◌==◌, length,
}
use rrjj.Prelude.Action.{Result, ok, err}
use rrjj.Schema.{Event, EventBody, event_at}
use rrjj.Schema.Manifest.{FormatMetadata}
use rrjj.Sinks.Error.{IoError, not_found}
use rrjj.Sinks.Traits.{FlushRequest}
use rrjj.Sinks.Files.{Files, Location}
use rrjj.Sinks.Local.{DirectorySessionSink, Outside, new_manifest, emit, flush_session}
use rrjj.Sinks.Local.Copying.{listed, end}
use rrjj.Sinks.Local.Immutable.{is_immutable_repository_file}
use rrjj.Sinks.Local.Repository.{Sync, no_stats, same_location}
use rrjj.Sinks.Local.Latch.{Emitted, emit-Emitted}
use rrjj.Sinks.Local.Watermark.{Flushed, flush_session-Flushed}
use rrjj.Sinks.Local.Synced.{Synced}

operation_immutable : is_immutable_repository_file ("0a1b" ∷ "operations" ∷ "op_store" ∷ []) ≡ true
unfolding is_immutable_repository_file all_hex
operation_immutable = refl

pack_immutable :
    is_immutable_repository_file (
      "pack-0123456789012345678901234567890123456789.idx" ∷ "pack" ∷ "objects" ∷ "git" ∷ "store"
      ∷ [])
    ≡ true
unfolding is_immutable_repository_file rsplit_once strip_text all_hex
pack_immutable = refl

heads_mutable : is_immutable_repository_file ("0a1b" ∷ "heads" ∷ "op_heads" ∷ []) ≡ false
unfolding is_immutable_repository_file
heads_mutable = refl

-- A disk in memory.
abbrev Disk : Type 0
Disk = Location → Option (List ℕ)

set : {A : Type 0} → Location → Option A → (Location → Option A) → Location → Option A
set p content f q = if same_location q p then content else f q

abbrev is_some : Option (List ℕ) → Bool
is_some none = false
is_some (some c) = true

abbrev memory : Files Disk
memory = record {
  create_dir_all = λ p f. (ok tt, f);
  exists = λ p f. is_some (f p);
  read = λ p f. err not_found;
  metadata_len = λ p f. ok 1;
  chunks = λ p f. ok [];
  write = λ p b f. (ok tt, set p (some b) f);
  sync_all = λ p f. (ok tt, f);
  rename = λ a p f. (ok tt, set p (f a) (set a none f));
  remove_file = λ p f. (ok tt, set p none f);
  copy = λ a p f. (ok 1, set p (f a) f);
  hard_link = λ a p f. (ok tt, set p (f a) f);
  read_dir = λ p f. ok [];
}

-- A disk with hard links: the names with one number are one file.
abbrev Linked : Type 0
Linked = Location → Option (ℕ × List ℕ)

abbrev bytes_at : Option (ℕ × List ℕ) → Option (List ℕ)
bytes_at none = none
bytes_at (some (n, bytes)) = some bytes

-- Writing through one name of the file `n` changes all of its names.
abbrev through : ℕ → List ℕ → Option (ℕ × List ℕ) → Option (ℕ × List ℕ)
through n bytes none = none
through n bytes (some (m, old)) = if m == n then some (m, bytes) else some (m, old)

abbrev overwrite : Option (ℕ × List ℕ) → Location → List ℕ → Linked → Linked
overwrite none p bytes f = set p (some (length p, bytes)) f
overwrite (some (n, old)) p bytes f = λ q. through n bytes (f q)

abbrev copy_of : Option (ℕ × List ℕ) → Location → Linked → Result IoError ℕ × Linked
copy_of none p f = (err not_found, f)
copy_of (some (n, bytes)) p f = (ok 1, overwrite (f p) p bytes f)

abbrev link_of : Option (ℕ × List ℕ) → Location → Linked → Result IoError Unit × Linked
link_of none p f = (err not_found, f)
link_of (some file) p f = (ok tt, set p (some file) f)

abbrev reads_of : Option (ℕ × List ℕ) → Result IoError (List (List ℕ))
reads_of none = err not_found
reads_of (some (n, bytes)) = ok (bytes ∷ [])

abbrev linking : Files Linked
linking = record {
  create_dir_all = λ p f. (ok tt, f);
  exists = λ p f. is_some (bytes_at (f p));
  read = λ p f. err not_found;
  metadata_len = λ p f. ok 1;
  chunks = λ p f. reads_of (f p);
  write = λ p b f. (ok tt, overwrite (f p) p b f);
  sync_all = λ p f. (ok tt, f);
  rename = λ a p f. (ok tt, set p (f a) (set a none f));
  remove_file = λ p f. (ok tt, set p none f);
  copy = λ a p f. copy_of (f a) p f;
  hard_link = λ a p f. link_of (f a) p f;
  read_dir = λ p f. ok [];
}

abbrev linked_source : Linked
linked_source = set ("type" ∷ "shadow" ∷ []) (some (3, 7 ∷ [])) (λ q. none)

abbrev at_source : Disk
at_source = set ("type" ∷ "shadow" ∷ []) (some (7 ∷ [])) (λ q. none)

abbrev syncing : Sync Linked
syncing = record { disk = linked_source; stats = no_stats; dirty_directories = [] }

abbrev outside : Outside Unit Disk
outside = record {
  writer = record {
    write_all = λ b w. (err IoError.no_space, w);
    flush = λ w. (ok tt, w);
    sync_data = λ w. (ok tt, w);
    sync_all = λ w. (ok tt, w);
  };
  files = memory;
  encode = λ e. ok (1 ∷ []);
  manifest_json = λ m. ok (2 ∷ []);
  cursor_json = λ c. ok (3 ∷ []);
  events_name = λ n. "00000000000000000003.ndjson";
  location = λ t. t ∷ [];
  shadow_tree = λ p f. listed end;
}

abbrev format : FormatMetadata
format = record {
  session_format = 1;
  schema_version = 0;
  rrjj_version = "0.1.0";
  jj_lib_version = "0.43.0";
  jj_store_version = "git";
}

abbrev opened : DirectorySessionSink Unit Disk
opened = record {
  spool = tt;
  disk = at_source;
  spool_path = "spool" ∷ [];
  session_dir = "session" ∷ [];
  max_spool_bytes = 100;
  state = record {
    manifest = new_manifest "session" format;
    spool_bytes = 0;
    failed = none;
    last_sync = none;
  };
}

abbrev request : FlushRequest
request = record { shadow_root = "shadow"; last_seq = 0; last_op = "op"; checkpoint = none }

abbrev first : Event
first = event_at "session" 0 "now" (EventBody.flush (record { op = "op"; through_seq = 0 }))

emit-Emitted_example : Emitted first opened (emit outside first opened)
emit-Emitted_example = emit-Emitted outside first opened

flush_session-Flushed_example : Flushed request opened (flush_session outside request opened)
flush_session-Flushed_example = flush_session-Flushed outside request opened

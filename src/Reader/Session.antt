-- ===== src/Reader/Session.antt =====
-- `Session` of crates/rrjj-reader/src/lib.rs: a recorded session, opened up to its durable watermark.
-- The files under its root and the JSON of the manifest are parameters. `diff` and `materialize`,
-- which work on the repository of jj-lib, are left out.
pub mod Lookup
use rrjj.Prelude.{
  ℕ, Bool, true, false, String, str_eq, Option, none, some, List, [], ◌∷◌, map, ltb, ◌==◌,
  if◌then◌else◌, last,
}
use rrjj.Prelude.Action.{Result, ok, err, and_then, map_err}
use rrjj.Schema.{Event, EventBody}
use rrjj.Schema.Manifest.{SessionManifest, is_compatible}
use rrjj.Sinks.Error.{IoError, not_found}
use rrjj.Reader.Errors.{
  ReadError, io, json, missing_manifest, incompatible, not_durable, beyond_watermark,
  unknown_operation, unknown_tree,
}
use rrjj.Reader.Timeline.{Timeline, Text, read}
use rrjj.Reader.Timeline

pub record Session : Type 0 where
  pub root : String
  pub manifest : SessionManifest
  pub timeline : Timeline

pub record TimelineEntry : Type 0 where
  pub seq : ℕ
  pub timestamp : String
  pub kind : String
  pub op : Option String
  pub tree : Option String

pub record OperationInfo : Type 0 where
  pub seq : ℕ
  pub op : String
  pub parent_op : Option String
  pub commit : Option String
  pub tree : String

-- The files below a root, by their paths from it.
pub record Files (B L : Type 0) : Type 0 where
  pub read : String → String → Result IoError B
  pub open_lines : String → String → Result IoError (List (Result IoError L))
  pub decode_manifest : B → Result String SessionManifest

abbrev pub manifest_error : IoError → ReadError
manifest_error not_found = missing_manifest
manifest_error e = io e

abbrev pub or_value {ℓ} : {A : Type ℓ} → A → Option A → A
or_value a none = a
or_value a (some b) = b

-- `ok_or`
abbrev pub ok_or : {E A : Type 0} → E → Option A → Result E A
ok_or e none = err e
ok_or e (some a) = ok a

-- `timeline.events().last().map(|event| event.seq) != Some(durable)`
unfoldable pub check_watermark : ℕ → Option Event → Result ReadError Unit
check_watermark durable none = err (beyond_watermark 0 durable)
check_watermark durable (some event) =
    if event.seq == durable then ok tt else err (beyond_watermark event.seq durable)

unfoldable pub check_format : SessionManifest → Result ReadError Unit
unfolding is_compatible
check_format manifest =
    if is_compatible manifest
    then ok tt
    else err (incompatible manifest.format.session_format manifest.format.schema_version)

unfoldable pub open_session :
    {B L : Type 0} → Files B L → Text L → String → Result ReadError Session
unfolding check_format check_watermark Timeline.read
open_session files text root =
    and_then (map_err manifest_error (files.read root "manifest.json")) λ bytes.
      and_then (map_err (json 0) (files.decode_manifest bytes)) λ manifest.
        and_then (check_format manifest) λ _.
          and_then (ok_or not_durable manifest.durable_seq) λ durable.
            and_then
              (map_err io
                (files.open_lines root (or_value "events/000000.ndjson" manifest.events_object)))
              λ lines. and_then (Timeline.read text lines) λ timeline.
                and_then (check_watermark durable (last timeline.events))
                  λ _. ok (record { root = root; manifest = manifest; timeline = timeline })

-- The kind, the operation and the tree that an event shows in the index.
abbrev pub entry_of : EventBody → String × (Option String × Option String)
entry_of (EventBody.session_start v) = ("session_start", (some v.baseline_op, some v.baseline_tree))
entry_of (EventBody.snapshot v) = ("snapshot", (some v.op, some v.tree))
entry_of (EventBody.touched_paths v) = ("touched_paths", (none, none))
entry_of (EventBody.mark v) = ("mark", (some v.ref_op, none))
entry_of (EventBody.flush v) = ("flush", (some v.op, none))
entry_of (EventBody.session_end v) = ("session_end", (some v.final_op, none))
entry_of (EventBody.error v) = ("error", (none, none))
entry_of (EventBody.overflow v) = ("overflow", (none, none))

abbrev pub timeline_entry : Event → TimelineEntry
timeline_entry event =
    let (kind, (op, tree)) = entry_of event.body in
    record { seq = event.seq; timestamp = event.ts; kind = kind; op = op; tree = tree }

unfoldable pub index : Session → List TimelineEntry
index session = map timeline_entry session.timeline.events

unfoldable pub event : ℕ → Session → Result ReadError Event
unfolding Timeline.event
event seq session = and_then (ok_or not_durable session.manifest.durable_seq) λ durable.
    if ltb durable seq
    then err (beyond_watermark seq durable)
    else ok_or (beyond_watermark seq durable) (Timeline.event seq session.timeline)

-- What `inspect_operation` makes of one event.
unfoldable pub operation_at : String → ℕ → EventBody → Option OperationInfo
operation_at op seq (EventBody.session_start value) =
    if str_eq value.baseline_op op
    then some (record {
      seq = seq;
      op = value.baseline_op;
      parent_op = none;
      commit = none;
      tree = value.baseline_tree;
    })
    else none
operation_at op seq (EventBody.snapshot value) =
    if str_eq value.op op
    then some (record {
      seq = seq;
      op = value.op;
      parent_op = some value.parent_op;
      commit = some value.commit;
      tree = value.tree;
    })
    else none
operation_at op seq _ = none

abbrev or_found {ℓ} : {A : Type ℓ} → Option A → Option A → Option A
or_found (some a) later = some a
or_found none later = later

unfoldable pub find_operation : String → List Event → Option OperationInfo
unfolding operation_at
find_operation op [] = none
find_operation op (e ∷ es) = or_found (operation_at op e.seq e.body) (find_operation op es)

unfoldable pub inspect_operation : String → Session → Result ReadError OperationInfo
unfolding find_operation
inspect_operation op session =
    ok_or (unknown_operation op) (find_operation op session.timeline.events)

abbrev shows_tree : String → Option String → Bool
shows_tree tree none = false
shows_tree tree (some t) = str_eq t tree

-- `find` and `and_then(|entry| entry.op)`
unfoldable pub find_tree : String → List TimelineEntry → Option String
find_tree tree [] = none
find_tree tree (entry ∷ entries) =
    let rest = find_tree tree entries in if shows_tree tree entry.tree then entry.op else rest

unfoldable pub inspect_tree : String → Session → Result ReadError OperationInfo
unfolding find_tree index inspect_operation
inspect_tree tree session =
    and_then (ok_or (unknown_tree tree) (find_tree tree (index session)))
      λ op. inspect_operation op session

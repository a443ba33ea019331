-- ===== src/Sinks/Util.antt =====
-- crates/rrjj-sinks/src/util.rs: what an event says of operations and commits, and the parser of a
-- spool. Bytes are numbers; decoding a line is serde's and a parameter.
pub mod Oid
use rrjj.Prelude.{
  ℕ, suc, Bool, false, not, ◌&&◌, String, str_eq, Option, none, some, List, [], ◌∷◌, ◌==◌,
  if◌then◌else◌, is_empty, last,
}
use rrjj.Prelude.Action.{Result, ok, err, and_then, map_err}
use rrjj.Schema.{Event, EventBody}
use rrjj.Sinks.Error.{SinkError, failed, serialize}

-- `serde_json::to_vec` and `serde_json::from_slice` of an event
abbrev pub Encoder : Type 0
Encoder = Event → Result String (List ℕ)

abbrev pub Decoder : Type 0
Decoder = List ℕ → Result String Event

abbrev pub newline : ℕ
newline = 10

abbrev body_op : EventBody → Option String
body_op (EventBody.session_start value) = some value.baseline_op
body_op (EventBody.snapshot value) = some value.op
body_op (EventBody.session_end value) = some value.final_op
body_op (EventBody.flush value) = some value.op
body_op _ = none

unfoldable pub event_op : Event → Option String
event_op event = body_op event.body

abbrev body_commit : EventBody → Option String
body_commit (EventBody.snapshot snapshot) = some snapshot.commit
body_commit _ = none

abbrev or_else {ℓ} : {A : Type ℓ} → Option A → Option A → Option A
or_else none b = b
or_else (some a) b = some a

-- `find_map` from the end
unfoldable pub latest_snapshot_commit : List Event → Option String
latest_snapshot_commit [] = none
latest_snapshot_commit (event ∷ events) =
    or_else (latest_snapshot_commit events) (body_commit event.body)

abbrev pub add_head : ℕ → List (List ℕ) → List (List ℕ)
add_head b [] = (b ∷ []) ∷ []
add_head b (line ∷ lines) = (b ∷ line) ∷ lines

-- `bytes.split(|byte| *byte == b'\n')`
unfoldable pub split_lines : List ℕ → List (List ℕ)
split_lines [] = [] ∷ []
split_lines (b ∷ bytes) =
    let rest = split_lines bytes in if b == newline then [] ∷ rest else add_head b rest

-- One line: the checks of the closure, in their order.
unfoldable pub check_event : String → ℕ → ℕ → Event → Result SinkError Event
check_event session_id schema_version expected event =
    if not (event.seq == expected)
    then err (failed "spool sequence mismatch")
    else if not (str_eq event.session_id session_id)
    then err (failed "spool belongs to another session")
    else if not (event.v == schema_version)
    then err (failed "spool schema is incompatible with configured schema")
    else ok event

abbrev pub ends_with_newline : Option ℕ → Bool
ends_with_newline none = false
ends_with_newline (some b) = b == newline

module _ (decode : Decoder) (session_id : String) (schema_version : ℕ) where
  unfoldable pub parse_line : ℕ → List ℕ → Result SinkError Event
  unfolding check_event
  parse_line index line =
      and_then (map_err serialize (decode line)) (check_event session_id schema_version index)

  -- `filter`, `enumerate`, `map` and `collect`, which stops at the first error
  unfoldable pub parse_lines : ℕ → List (List ℕ) → Result SinkError (List Event)
  parse_lines index [] = ok []
  parse_lines index ([] ∷ lines) = parse_lines index lines
  parse_lines index ((b ∷ line) ∷ lines) =
      and_then (parse_line index (b ∷ line))
        λ event. and_then (parse_lines (suc index) lines) λ events. ok (event ∷ events)

  unfoldable pub parse_event_spool : List ℕ → Result SinkError (List Event)
  unfolding parse_lines split_lines parse_line
  parse_event_spool bytes =
      if not (is_empty bytes) && not (ends_with_newline (last bytes))
      then err (failed "spool has an incomplete final line")
      else parse_lines 0 (split_lines bytes)

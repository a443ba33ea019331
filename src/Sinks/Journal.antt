-- ===== src/Sinks/Journal.antt =====
-- `NdjsonSink` of crates/rrjj-sinks/src/journal.rs: the local journal, a file of JSON lines and the
-- list of the events that it has accepted. The file is reached through tokio, whose calls are a
-- parameter; so is the JSON of an event, which is serde's.
pub mod Acceptance
pub mod Recovery
use rrjj.Prelude.{
  ℕ, ◌+◌, Bool, true, false, String, str_eq, Option, none, some, List, [], ◌∷◌, ◌++◌, ltb, ◌==◌,
  if◌then◌else◌, length, last, wrap64, u64_modulus, ◌-◌,
}
use rrjj.Prelude.Action.{
  Result, ok, err, Action, and_then, map_err, lift, modify, gets, ◌>>=◌, ◌>>◌,
}
use rrjj.Schema.{Event}
use rrjj.Sinks.Error.{
  IoError, SinkError, serialize, io, failed, invalid_flush, spool_full, not_found,
}
use rrjj.Sinks.Traits.{Sink, FlushRequest}
use rrjj.Sinks.Util.{Encoder, Decoder, newline, parse_event_spool}

-- `BufWriter<File>` opened for appending.
pub record Writer (W : Type 0) : Type 0 where
  pub write_all : List ℕ → Action W IoError Unit
  pub flush : Action W IoError Unit
  pub sync_data : Action W IoError Unit
  pub sync_all : Action W IoError Unit

pub record Journal (W : Type 0) : Type 0 where
  pub writer : W
  pub bytes : ℕ
  pub max_spool_bytes : ℕ
  pub session_id : Option String
  pub schema_version : Option ℕ
  pub accepted : List Event

-- The guards of `emit`, in their order.
unfoldable pub check_session : Option String → Event → Result SinkError Unit
check_session none event = ok tt
check_session (some session_id) event =
    if str_eq event.session_id session_id
    then ok tt
    else err (failed "journal belongs to another session")

unfoldable pub check_schema : Option ℕ → Event → Result SinkError Unit
check_schema none event = ok tt
check_schema (some schema_version) event =
    if event.v == schema_version
    then ok tt
    else err (failed "journal schema is incompatible with event schema")

unfoldable pub check_seq : ℕ → Event → Result SinkError Unit
check_seq expected event =
    if event.seq == expected then ok tt else err (failed "journal sequence mismatch")

unfoldable pub check_room : (max bytes : ℕ) → List ℕ → Result SinkError (List ℕ)
check_room max bytes line =
    if ltb max (wrap64 (bytes + length line))
    then err (spool_full bytes (length line) max)
    else ok line

unfoldable pub encode_line : Encoder → Event → Result SinkError (List ℕ)
encode_line encode event =
    and_then (map_err serialize (encode event)) (λ line. ok (line ++ newline ∷ []))

module _ {W : Type 0} where
  unfoldable pub next_seq : Journal W → ℕ
  next_seq j = length j.accepted

  -- `emit` up to the write: the line to append, or the reason to refuse.
  unfoldable pub admit : Encoder → Event → Journal W → Result SinkError (List ℕ)
  unfolding check_session check_schema check_seq check_room encode_line next_seq
  admit encode event j = and_then (check_session j.session_id event) λ _.
      and_then (check_schema j.schema_version event) λ _.
        and_then (check_seq (next_seq j) event)
          λ _. and_then (encode_line encode event) λ line. check_room j.max_spool_bytes j.bytes line

  unfoldable pub after_write :
      Result IoError Unit × W → Journal W → Result SinkError Unit × Journal W
  after_write (ok _, writer) j = (ok tt, record j { writer = writer })
  after_write (err e, writer) j = (err (io e), record j { writer = writer })

  -- One call on the writer, its error made the sink's.
  unfoldable pub on_writer : Action W IoError Unit → Action (Journal W) SinkError Unit
  unfolding after_write
  on_writer call j = after_write (call j.writer) j

  -- `state.bytes += line.len()` and `accepted.push(event.clone())`
  unfoldable pub accept : Event → List ℕ → Journal W → Journal W
  accept event line j = record j {
    bytes = wrap64 (j.bytes + length line);
    accepted = j.accepted ++ event ∷ [];
  }

  unfoldable pub events_through : ℕ → Journal W → Result SinkError (List Event)
  events_through last_seq j = elim (last j.accepted) [
    | none ↦ err (invalid_flush "journal does not end at requested sequence")
    | some event ↦
        if event.seq == last_seq
        then ok j.accepted
        else err (invalid_flush "journal does not end at requested sequence")
  ]

module _ {W : Type 0} (file : Writer W) (encode : Encoder) where
  unfoldable pub append_line : Event → List ℕ → Action (Journal W) SinkError Unit
  unfolding on_writer accept
  append_line event line = do
    on_writer (file.write_all line)
    on_writer file.flush
    on_writer file.sync_data
    modify (accept event line)

  unfoldable pub emit : Event → Action (Journal W) SinkError Unit
  unfolding admit append_line
  emit event j = (lift (admit encode event j) >>= append_line event) j

  unfoldable pub flush : Action (Journal W) SinkError Unit
  unfolding on_writer
  flush = do on_writer file.flush; on_writer file.sync_all

  -- The trait's default `flush_session` is `flush`.
  unfoldable pub journal_sink : Sink (Journal W)
  unfolding emit flush
  journal_sink = record { emit = emit; flush = flush; flush_session = λ request. flush }

-- What the calls of `create_for_session` answer.
pub record Opening (W : Type 0) : Type 0 where
  pub create_dir_all : Result IoError Unit
  pub read : Result IoError (List ℕ)
  pub opened : Result IoError W
  pub set_permissions : Result IoError Unit
  pub metadata_len : Result IoError ℕ

-- `tokio::fs::read`, a missing file read as an empty one
unfoldable pub existing_bytes : Result IoError (List ℕ) → Result SinkError (List ℕ)
existing_bytes (ok bytes) = ok bytes
existing_bytes (err not_found) = ok []
existing_bytes (err e) = err (io e)

unfoldable pub recovered_events :
    Decoder → Option String → Option ℕ → List ℕ → Result SinkError (List Event)
recovered_events decode (some session_id) (some schema_version) bytes =
    parse_event_spool decode session_id schema_version bytes
recovered_events decode _ _ bytes = ok []

unfoldable pub create_for_session :
    {W : Type 0} → Decoder → Opening W → ℕ → Option String → Option ℕ → Result SinkError (Journal W)
unfolding existing_bytes recovered_events
create_for_session decode calls max_spool_bytes session_id schema_version =
    and_then (map_err io calls.create_dir_all) λ _. and_then (existing_bytes calls.read) λ existing.
      and_then (recovered_events decode session_id schema_version existing) λ accepted.
        and_then (map_err io calls.opened) λ writer.
          and_then (map_err io calls.set_permissions) λ _.
            and_then (map_err io calls.metadata_len) λ bytes.
              if ltb max_spool_bytes bytes
              then err (spool_full bytes 0 max_spool_bytes)
              else ok (record {
                writer = writer;
                bytes = bytes;
                max_spool_bytes = max_spool_bytes;
                session_id = session_id;
                schema_version = schema_version;
                accepted = accepted;
              })

unfoldable pub create_bounded :
    {W : Type 0} → Decoder → Opening W → ℕ → Result SinkError (Journal W)
unfolding create_for_session
create_bounded decode calls max_spool_bytes =
    create_for_session decode calls max_spool_bytes none none

unfoldable pub create : {W : Type 0} → Decoder → Opening W → Result SinkError (Journal W)
unfolding create_bounded
create decode calls = create_bounded decode calls (u64_modulus - 1)

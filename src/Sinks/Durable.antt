-- ===== src/Sinks/Durable.antt =====
-- `DurableSessionSink` of crates/rrjj-sinks/src/durable.rs: a flush of the session makes the journal
-- durable, then publishes the checkpoint and then the events.
pub mod Published
use rrjj.Prelude.{ℕ, Bool, true, false, String, Option, none, some, List, ltb, if◌then◌else◌}
use rrjj.Prelude.Action.{Result, ok, err, Action, pure, fail, lift, ◌>>=◌, ◌>>◌}
use rrjj.Schema.{Event, schema_version}
use rrjj.Sinks.Error.{SinkError, failed, invalid_flush}
use rrjj.Sinks.Traits.{
  Sink, CheckpointSink, EventSink, FlushRequest, CheckpointRequest, CheckpointPublication,
  EventPublishRequest, EventAcknowledgement,
}
use rrjj.Sinks.Util.{Encoder, latest_snapshot_commit}
use rrjj.Sinks.Util.Oid.{normalize_commit_oid}
use rrjj.Sinks.Journal
use rrjj.Sinks.Journal.{Writer, Journal, events_through}

-- The parts of the sink, each with its state.
pub record DurableSessionSink (W C E : Type 0) : Type 0 where
  pub journal : Journal W
  pub checkpoint : C
  pub events : E
  pub session_id : String

abbrev or_else {ℓ} : {A : Type ℓ} → Option A → Option A → Option A
or_else none b = b
or_else (some a) b = some a

abbrev pub chosen : Option String → Result SinkError String
chosen none =
    err
      (invalid_flush "flush requires a checkpoint commit OID from the recorder or a snapshot event")
chosen (some commit) = ok commit

-- `request.checkpoint`, or else the commit of the last snapshot
unfoldable pub commit_of : FlushRequest → List Event → Result SinkError String
unfolding latest_snapshot_commit
commit_of request events = chosen (or_else request.checkpoint (latest_snapshot_commit events))

abbrev behind : ℕ → Option ℕ → Bool
behind last_seq none = false
behind last_seq (some seq) = ltb seq last_seq

unfoldable pub check_ack : ℕ → EventAcknowledgement → Result SinkError Unit
check_ack last_seq ack =
    if ltb ack.accepted_through_seq last_seq
    then err (failed "event sink acknowledged too little of what the flush required")
    else if behind last_seq ack.durable_through_seq
    then err (failed "event sink durable watermark is before flush target")
    else ok tt

module _ {W C E : Type 0} (file : Writer W) (encode : Encoder) (checkpoints : CheckpointSink C)
    (publisher : EventSink E) where
  abbrev pub Step : Type 0 → Type 0
  Step A = Action (DurableSessionSink W C E) SinkError A

  abbrev pub on_journal : {A : Type 0} → Action (Journal W) SinkError A → Step A
  on_journal m s = ((m s.journal).0, record s { journal = (m s.journal).1 })

  abbrev pub on_checkpoint : {A : Type 0} → Action C SinkError A → Step A
  on_checkpoint m s = ((m s.checkpoint).0, record s { checkpoint = (m s.checkpoint).1 })

  abbrev pub on_events : {A : Type 0} → Action E SinkError A → Step A
  on_events m s = ((m s.events).0, record s { events = (m s.events).1 })

  unfoldable pub emit : Event → Step Unit
  emit event = on_journal (Journal.emit file encode event)

  unfoldable pub flush : Step Unit
  flush = on_journal (Journal.flush file encode)

  abbrev pub checkpoint_request : String → FlushRequest → String → CheckpointRequest
  checkpoint_request session_id request commit = record {
    shadow_root = request.shadow_root;
    session_id = session_id;
    commit = commit;
    last_seq = request.last_seq;
    last_op = request.last_op;
  }

  abbrev pub publish_request : String → FlushRequest → List Event → String → EventPublishRequest
  publish_request session_id request events checkpoint = record {
    session_id = session_id;
    schema_version = schema_version;
    events = events;
    durable =
        some (record { seq = request.last_seq; op = request.last_op; checkpoint = checkpoint });
  }

  -- From `publish_checkpoint` on.
  unfoldable pub publish : FlushRequest → List Event → String → Step Unit
  unfolding check_ack normalize_commit_oid
  publish request events commit = do
    publication ← (λ s.
        on_checkpoint
          (checkpoints.publish_checkpoint (checkpoint_request s.session_id request commit)) s)
    checkpoint ← lift (normalize_commit_oid publication.checkpoint)
    ack ← (λ s.
        on_events
          (publisher.publish_events (publish_request s.session_id request events checkpoint)) s)
    lift (check_ack request.last_seq ack)

  unfoldable pub flush_session : FlushRequest → Step Unit
  unfolding flush commit_of publish events_through
  flush_session request = do
    flush
    events ← (λ s. (events_through request.last_seq s.journal, s))
    commit ← lift (commit_of request events)
    publish request events commit

  unfoldable pub durable_sink : Sink (DurableSessionSink W C E)
  unfolding emit flush flush_session
  durable_sink = record { emit = emit; flush = flush; flush_session = flush_session }

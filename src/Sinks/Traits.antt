-- ===== src/Sinks/Traits.antt =====
-- The interfaces of crates/rrjj-sinks/src/traits.rs. A trait is a record of its methods over the
-- implementor's state; what a client relies on beside the methods is a record of laws.
use rrjj.Prelude.{ℕ, String, ◌≡◌, Option, List, [], ◌∷◌, ◌++◌}
use rrjj.Prelude.Action.{Result, ok, err, Action}
use rrjj.Schema.{Event}
use rrjj.Sinks.Error.{SinkError}

pub record FlushRequest : Type 0 where
  pub shadow_root : String
  pub last_seq : ℕ
  pub last_op : String
  pub checkpoint : Option String

pub record SinkCursor : Type 0 where
  pub delivered_seq : Option ℕ
  pub delivered_op : Option String
  pub checkpoint : Option String

pub record CheckpointRequest : Type 0 where
  pub shadow_root : String
  pub session_id : String
  pub commit : String
  pub last_seq : ℕ
  pub last_op : String

pub record CheckpointPublication : Type 0 where
  pub checkpoint : String

pub record DurableWatermark : Type 0 where
  pub seq : ℕ
  pub op : String
  pub checkpoint : String

pub record EventPublishRequest : Type 0 where
  pub session_id : String
  pub schema_version : ℕ
  pub events : List Event
  pub durable : Option DurableWatermark

pub record EventAcknowledgement : Type 0 where
  pub accepted_through_seq : ℕ
  pub durable_through_seq : Option ℕ

pub record Sink (S : Type 0) : Type 0 where
  pub emit : Event → Action S SinkError Unit
  pub flush : Action S SinkError Unit
  pub flush_session : FlushRequest → Action S SinkError Unit

pub record CheckpointSink (S : Type 0) : Type 0 where
  pub publish_checkpoint : CheckpointRequest → Action S SinkError CheckpointPublication

pub record EventSink (S : Type 0) : Type 0 where
  pub publish_events : EventPublishRequest → Action S SinkError EventAcknowledgement

-- The log after an attempt to append `e` that ended with `r`.
abbrev pub log_after : Result SinkError Unit → Event → List Event → List Event
log_after (ok _) e log = log ++ e ∷ []
log_after (err _) e log = log

-- What the coordinator relies on: the sink's accepted events grow by exactly the events that `emit`
-- acknowledges.
pub record AcceptsLog {S : Type 0} (sink : Sink S) : Type 0 where
  pub accepted : S → List Event
  pub accepted-emit :
      (e : Event) (s : S) → accepted (sink.emit e s).1 ≡ log_after (sink.emit e s).0 e (accepted s)
  pub accepted-flush_session :
      (r : FlushRequest) (s : S) → accepted (sink.flush_session r s).1 ≡ accepted s

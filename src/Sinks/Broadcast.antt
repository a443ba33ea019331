-- ===== src/Sinks/Broadcast.antt =====
-- `BroadcastSink` of crates/rrjj-sinks/src/broadcast.rs. tokio's channel is held as the list of what
-- was sent; that nobody listens is no error.
pub mod Sent
use rrjj.Prelude.{List, [], ◌∷◌, ◌++◌}
use rrjj.Prelude.Action.{Result, ok, err, Action}
use rrjj.Schema.{Event}
use rrjj.Sinks.Error.{SinkError}
use rrjj.Sinks.Traits.{Sink, FlushRequest}

pub record BroadcastSink (S : Type 0) : Type 0 where
  pub durable : S
  pub sent : List Event

module _ {S : Type 0} (inner : Sink S) where
  -- `?` after the durable sink's answer, and then `send`
  abbrev pub after_durable :
      Event → Result SinkError Unit × S → BroadcastSink S → Result SinkError Unit × BroadcastSink S
  after_durable event (ok _, durable) s =
      (ok tt, record { durable = durable; sent = s.sent ++ event ∷ [] })
  after_durable event (err e, durable) s = (err e, record s { durable = durable })

  unfoldable pub emit : Event → Action (BroadcastSink S) SinkError Unit
  emit event s = after_durable event (inner.emit event s.durable) s

  unfoldable pub flush : Action (BroadcastSink S) SinkError Unit
  flush s = ((inner.flush s.durable).0, record s { durable = (inner.flush s.durable).1 })

  unfoldable pub flush_session : FlushRequest → Action (BroadcastSink S) SinkError Unit
  flush_session request s = (
    (inner.flush_session request s.durable).0,
    record s { durable = (inner.flush_session request s.durable).1 },
  )

  unfoldable pub broadcast_sink : Sink (BroadcastSink S)
  unfolding emit flush flush_session
  broadcast_sink = record { emit = emit; flush = flush; flush_session = flush_session }

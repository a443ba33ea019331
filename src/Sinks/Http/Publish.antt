-- ===== src/Sinks/Http/Publish.antt =====
-- `publish_events` of crates/rrjj-sinks/src/http.rs: what has not been delivered is posted batch by
-- batch, and after each acknowledgement the cursor is advanced and written.
pub mod Reaching
use rrjj.Prelude.{
  ℕ, zero, suc, ◌+◌, Bool, true, false, String, Option, none, some, List, [], ◌∷◌, leb, ◌==◌,
  if◌then◌else◌, length, drop, saturating_sub, wrap64,
}
use rrjj.Prelude.Action.{Result, ok, err, Action, map_err, pure, fail, lift, modify, ◌>>=◌, ◌>>◌}
use rrjj.Schema.{Event}
use rrjj.Sinks.Error.{IoError, SinkError, io, invalid_flush, event_conflict}
use rrjj.Sinks.Traits.{DurableWatermark, EventAcknowledgement, EventPublishRequest, SinkCursor}
use rrjj.Sinks.Util.{Encoder}
use rrjj.Sinks.Http.{
  HttpEventBatch, HttpEventSink, HttpError, Network, sink_error, out_of_fuel, as_sink_error,
  post_batch, take_batch, validate_contiguous,
}

module _ {N : Type 0} (net : Network N) where
  -- A call on the server or the disk.
  abbrev pub on_network : {A : Type 0} → Action N HttpError A → Action (HttpEventSink N) HttpError A
  on_network call s = let (r, n) = call s.network in (r, record s { network = n })

  unfoldable pub write_cursor : SinkCursor → Action N HttpError Unit
  write_cursor cursor n =
      let (r, n') = net.write_cursor cursor n in (map_err (λ e. sink_error (io e)) r, n')

  abbrev checkpoint_of : Option DurableWatermark → Option String
  checkpoint_of none = none
  checkpoint_of (some durable) = some durable.checkpoint

  abbrev pub delivered_cursor : EventPublishRequest → ℕ → SinkCursor
  delivered_cursor request seq = record {
    delivered_seq = some seq;
    delivered_op = none;
    checkpoint = checkpoint_of request.durable;
  }

  abbrev pub batch_of : EventPublishRequest → List Event → List Event → HttpEventBatch
  batch_of request remaining batch = record {
    schema_version = request.schema_version;
    session_id = request.session_id;
    events = batch;
    durable = if length batch == length remaining then request.durable else none;
  }

  -- The body of the loop of `publish_events`, on a batch that was taken.
  unfoldable pub publish_batch :
      EventPublishRequest
      → List Event
      → List Event
      → Action (HttpEventSink N) HttpError EventAcknowledgement
  unfolding post_batch write_cursor
  publish_batch request remaining batch = do
    ack ←
        (λ s. on_network (post_batch net s.config.max_retries (batch_of request remaining batch)) s)
    modify (λ s. record s { delivered_seq = some ack.accepted_through_seq })
    on_network (write_cursor (delivered_cursor request ack.accepted_through_seq))
    pure ack

  unfoldable pub publish_from :
      Encoder
      → (fuel : ℕ) → EventPublishRequest
      → List Event
      → EventAcknowledgement
      → Action (HttpEventSink N) HttpError EventAcknowledgement
  unfolding take_batch publish_batch
  publish_from encode fuel request [] last_ack = pure last_ack
  publish_from encode zero request (e ∷ es) last_ack = fail out_of_fuel
  publish_from encode (suc fuel) request (e ∷ es) last_ack = do
    batch ← (λ s. (
      as_sink_error
          (take_batch encode (e ∷ es) s.config.max_events_per_batch s.config.max_bytes_per_batch),
      s,
    ))
    ack ← publish_batch request (e ∷ es) batch
    publish_from encode fuel request (drop (length batch) (e ∷ es)) ack

  -- The events after those that the cursor says were delivered.
  unfoldable pub skip_delivered : ℕ → List Event → List Event
  skip_delivered delivered [] = []
  skip_delivered delivered (e ∷ es) =
      let rest = skip_delivered delivered es in if leb e.seq delivered then rest else e ∷ es

  abbrev pub durable_seq : Option DurableWatermark → Option ℕ
  durable_seq none = none
  durable_seq (some durable) = some durable.seq

  abbrev pub publish_after :
      Encoder
      → EventPublishRequest
      → ℕ
      → List Event
      → Action (HttpEventSink N) HttpError EventAcknowledgement
  publish_after encode request delivered [] = pure (record {
    accepted_through_seq = delivered;
    durable_through_seq = durable_seq request.durable;
  })
  publish_after encode request delivered (e ∷ es) =
      if e.seq == wrap64 (delivered + 1)
      then publish_from encode (length (e ∷ es)) request (e ∷ es)
          (record { accepted_through_seq = saturating_sub delivered 1; durable_through_seq = none })
      else fail (sink_error (event_conflict "HTTP event sink sequence gap"))

  abbrev pub publish_first :
      Encoder
      → EventPublishRequest
      → List Event
      → Action (HttpEventSink N) HttpError EventAcknowledgement
  publish_first encode request [] =
      fail
        (sink_error (invalid_flush "HTTP event sink requires a contiguous non-empty event batch"))
  publish_first encode request (e ∷ es) =
      if e.seq == 0
      then publish_from encode (length (e ∷ es)) request (e ∷ es)
          (record { accepted_through_seq = 0; durable_through_seq = none })
      else fail (sink_error (event_conflict "HTTP event sink requires batches to start at seq 0"))

  abbrev pub publish_by :
      Encoder
      → EventPublishRequest
      → Option ℕ
      → Action (HttpEventSink N) HttpError EventAcknowledgement
  publish_by encode request none = publish_first encode request request.events
  publish_by encode request (some delivered) =
      publish_after encode request delivered (skip_delivered delivered request.events)

  abbrev pub nonempty : List Event → Result SinkError Unit
  nonempty [] = err (invalid_flush "HTTP event sink requires a contiguous non-empty event batch")
  nonempty (e ∷ es) = ok tt

  unfoldable pub publish_events :
      Encoder → EventPublishRequest → Action (HttpEventSink N) HttpError EventAcknowledgement
  unfolding validate_contiguous publish_from skip_delivered
  publish_events encode request = do
    lift (as_sink_error (nonempty request.events))
    lift (as_sink_error (validate_contiguous request.events))
    (λ s. publish_by encode request s.delivered_seq s)

-- ===== src/Sinks/Http.antt =====
-- `HttpEventSink` of crates/rrjj-sinks/src/http.rs: events are posted in batches, a batch is tried
-- again while the server may recover, and a cursor remembers what has been delivered. reqwest, the
-- JSON of serde and the file of the cursor are parameters; the waiting between two attempts is left
-- out, and so is what an error message says.
mod Tests
pub mod Publish
pub mod Batches
pub mod Delivery
use rrjj.Prelude.{
  ℕ, zero, suc, ◌+◌, ◌-◌, ◌%◌, ◌^◌, min, Bool, true, false, ◌&&◌, ◌||◌, not, String, Option, none,
  some, List, [], ◌∷◌, ltb, leb, ◌==◌, if◌then◌else◌, length, take, drop, last, saturating_sub,
  wrap64,
}
use rrjj.Prelude.Action.{
  Result, ok, err, Action, and_then, map_err, pure, fail, lift, modify, ◌>>=◌, ◌>>◌,
}
use rrjj.Schema.{Event}
use rrjj.Sinks.Error.{
  IoError, SinkError, serialize, io, failed, invalid_flush, invalid_config, event_conflict,
  transient,
}
use rrjj.Sinks.Traits.{DurableWatermark, EventAcknowledgement, EventPublishRequest, SinkCursor}
use rrjj.Sinks.Util.{Encoder}

pub record HttpEventConfig : Type 0 where
  pub url : String
  pub authorization : Option String
  pub max_events_per_batch : ℕ
  pub max_bytes_per_batch : ℕ
  pub cursor_path : String
  pub max_retries : ℕ

pub record HttpEventBatch : Type 0 where
  pub schema_version : ℕ
  pub session_id : String
  pub events : List Event
  pub durable : Option DurableWatermark

-- What the sink asks of a response: the tests on its status, and its text.
pub record Response : Type 0 where
  pub is_success : Bool
  pub is_conflict : Bool
  pub is_too_many_requests : Bool
  pub is_server_error : Bool
  pub text : Result String String

-- The server and the disk, as states of `N`, and the decoder of an acknowledgement.
pub record Network (N : Type 0) : Type 0 where
  pub send : HttpEventBatch → Action N String Response
  pub write_cursor : SinkCursor → Action N IoError Unit
  pub decode_ack : String → Result String EventAcknowledgement

pub record HttpEventSink (N : Type 0) : Type 0 where
  pub config : HttpEventConfig
  pub delivered_seq : Option ℕ
  pub network : N

-- An error of the sink, or the model's loop was cut off.
pub data HttpError : Type 0 where
  sink_error : SinkError → HttpError
  out_of_fuel : HttpError

pub data HttpClass : Type 0 where
  success conflict retryable permanent : HttpClass

-- `HttpEventSink::create`, after the cursor was read
unfoldable pub create :
    {N : Type 0}
    → HttpEventConfig
    → Result SinkError (Option ℕ)
    → N
    → Result SinkError (HttpEventSink N)
create config delivered network =
    if config.max_events_per_batch == 0
    then err (invalid_config "event HTTP max batch events must be greater than zero")
    else if config.max_bytes_per_batch == 0
    then err (invalid_config "event HTTP max batch bytes must be greater than zero")
    else and_then delivered λ delivered_seq.
      ok (record { config = config; delivered_seq = delivered_seq; network = network })

unfoldable pub classify_http_status : Response → HttpClass
classify_http_status status =
    if status.is_success
    then HttpClass.success
    else if status.is_conflict
    then HttpClass.conflict
    else if status.is_too_many_requests || status.is_server_error
    then HttpClass.retryable
    else HttpClass.permanent

unfoldable pub validate_contiguous : List Event → Result SinkError Unit
validate_contiguous [] = ok tt
validate_contiguous (a ∷ []) = ok tt
validate_contiguous (a ∷ b ∷ events) =
    if b.seq == wrap64 (a.seq + 1)
    then validate_contiguous (b ∷ events)
    else err (event_conflict "HTTP event batch is not contiguous")

abbrev durable_covered : Option ℕ → DurableWatermark → Result SinkError Unit
durable_covered (some seq) durable =
    if leb durable.seq seq
    then ok tt
    else err (failed "HTTP acknowledgement durable_through_seq is before requested")
durable_covered none durable =
    err (failed "HTTP acknowledgement missing durable_through_seq for final durable batch")

abbrev durable_asked : EventAcknowledgement → Option DurableWatermark → Result SinkError Unit
durable_asked ack none = ok tt
durable_asked ack (some durable) = durable_covered ack.durable_through_seq durable

-- The last event is there, since a batch is not empty.
unfoldable pub validate_ack :
    EventAcknowledgement → Option Event → Option DurableWatermark → Result SinkError Unit
validate_ack ack none durable = err (failed "non-empty batch")
validate_ack ack (some end) durable =
    if ltb ack.accepted_through_seq end.seq
    then err (failed "HTTP acknowledgement accepted_through_seq is before batch end")
    else durable_asked ack durable

-- The loop of `take_batch`; `bytes` and `count` are sizes of what is held in memory.
unfoldable pub fit :
    Encoder → (max_bytes max_events : ℕ) → List Event → (bytes count : ℕ) → Result SinkError ℕ
fit encode max_bytes zero events bytes count = ok count
fit encode max_bytes (suc more) [] bytes count = ok count
fit encode max_bytes (suc more) (event ∷ events) bytes count =
    and_then (map_err serialize (encode event)) λ encoded.
      let extra = length encoded + (if count == 0 then 0 else 1) in
      let rest = fit encode max_bytes more events (bytes + extra) (count + 1) in
      if ltb 0 count && ltb max_bytes (bytes + extra)
      then ok count
      else if count == 0 && ltb max_bytes (length encoded + 2)
      then err (invalid_flush "single event exceeds HTTP batch byte limit")
      else rest

abbrev at_least_one : ℕ → ℕ
at_least_one zero = 1
at_least_one (suc n) = suc n

unfoldable pub take_batch :
    Encoder → List Event → (max_events max_bytes : ℕ) → Result SinkError (List Event)
unfolding fit
take_batch encode events max_events max_bytes =
    and_then (fit encode max_bytes max_events events 2 0)
      λ count. ok (take (min (at_least_one count) (length events)) events)

abbrev pub u32_modulus : ℕ
u32_modulus = 2 ^ 32

-- The error of a conflict keeps its kind, whatever is wrong with the acknowledgement.
abbrev as_conflict : {E A : Type 0} → Result E A → Result SinkError A
as_conflict (ok a) = ok a
as_conflict (err e) = err (event_conflict "HTTP 409 without identical acknowledgement")

abbrev as_failed : {E A : Type 0} → Result E A → Result SinkError A
as_failed (ok a) = ok a
as_failed (err e) = err (failed "HTTP event sink returned malformed acknowledgement")

abbrev pub as_sink_error : {A : Type 0} → Result SinkError A → Result HttpError A
as_sink_error r = map_err sink_error r

module _ {N : Type 0} (net : Network N) where
  -- An acknowledgement that was read and holds for this batch.
  unfoldable pub accept_success : HttpEventBatch → String → Result SinkError EventAcknowledgement
  unfolding validate_ack
  accept_success batch text =
      and_then (as_failed (net.decode_ack text))
        λ ack. and_then (validate_ack ack (last batch.events) batch.durable) λ _. ok ack

  unfoldable pub accept_conflict : HttpEventBatch → String → Result SinkError EventAcknowledgement
  unfolding validate_ack
  accept_conflict batch text =
      and_then (as_conflict (net.decode_ack text)) λ ack.
        and_then (as_conflict (validate_ack ack (last batch.events) batch.durable)) λ _. ok ack

  -- The arms of the `match` on the class of the status; `again` is the next turn of the loop.
  abbrev pub answer :
      (max_retries attempt : ℕ)
      → HttpEventBatch
      → HttpClass
      → String
      → Action N HttpError EventAcknowledgement
      → Action N HttpError EventAcknowledgement
  answer max_retries attempt batch HttpClass.success text again =
      lift (as_sink_error (accept_success batch text))
  answer max_retries attempt batch HttpClass.conflict text again =
      lift (as_sink_error (accept_conflict batch text))
  answer max_retries attempt batch HttpClass.retryable text again =
      if ltb max_retries attempt
      then fail (sink_error (transient "HTTP event sink failed"))
      else again
  answer max_retries attempt batch HttpClass.permanent text again =
      fail (sink_error (failed "HTTP event sink permanently rejected batch"))

  abbrev pub read_text :
      Result String String
      → (String → Action N HttpError EventAcknowledgement)
      → Action N HttpError EventAcknowledgement
  read_text (ok text) k = k text
  read_text (err e) k = fail (sink_error (transient e))

  -- One turn, on what `send` answered.
  abbrev pub turn :
      (max_retries attempt : ℕ)
      → HttpEventBatch
      → Result String Response × N
      → Action N HttpError EventAcknowledgement
      → Result HttpError EventAcknowledgement × N
  turn max_retries attempt batch (err e, n) again =
      (if ltb max_retries attempt then fail (sink_error (transient e)) else again) n
  turn max_retries attempt batch (ok response, n) again =
      read_text response.text
        (λ text. answer max_retries attempt batch (classify_http_status response) text again) n

  -- The loop of `post_batch`, after `attempt` attempts.
  unfoldable pub post_from :
      (fuel max_retries attempt : ℕ) → HttpEventBatch → Action N HttpError EventAcknowledgement
  unfolding classify_http_status accept_success accept_conflict
  post_from zero max_retries attempt batch n = (err out_of_fuel, n)
  post_from (suc fuel) max_retries attempt batch n =
      let now = (attempt + 1) % u32_modulus in
      turn max_retries now batch (net.send batch n) (post_from fuel max_retries now batch)

  unfoldable pub post_batch :
      (max_retries : ℕ) → HttpEventBatch → Action N HttpError EventAcknowledgement
  unfolding post_from
  post_batch max_retries = post_from (max_retries + 1) max_retries 0

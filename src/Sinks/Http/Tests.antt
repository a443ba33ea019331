-- ===== src/Sinks/Http/Tests.antt =====
-- A server in memory that asks for one more attempt, on which the theorems are applied.
use rrjj.Prelude.{ℕ, zero, suc, ◌+◌, ◌≡◌, refl, true, false, none, some, List, [], ◌∷◌, arith, last}
use rrjj.Prelude.Action.{ok, Outcome}
use rrjj.Schema.{Event, EventBody, event_at}
use rrjj.Sinks.Traits.{EventPublishRequest}
use rrjj.Sinks.Util.{Encoder}
use rrjj.Sinks.Http.{HttpEventSink, Network, Response, take_batch}
use rrjj.Sinks.Http.Batches.{IsBatch, take_batch-IsBatch}
use rrjj.Sinks.Http.Delivery.{IsReported}
use rrjj.Sinks.Http.Publish.{publish_events}
use rrjj.Sinks.Http.Publish.Reaching.{Covers, publish_events-Covers}

abbrev event : ℕ → Event
event n = event_at "session" n "now" (EventBody.flush (record { op = "op"; through_seq = 0 }))

-- Every event takes three bytes.
abbrev encode : Encoder
encode e = ok (1 ∷ 2 ∷ 3 ∷ [])

abbrev accepted : Response
accepted = record {
  is_success = true;
  is_conflict = false;
  is_too_many_requests = false;
  is_server_error = false;
  text = ok "ack";
}

abbrev busy : Response
busy = record {
  is_success = false;
  is_conflict = false;
  is_too_many_requests = false;
  is_server_error = true;
  text = ok "busy";
}

abbrev reply : ℕ → Response
reply zero = busy
reply (suc n) = accepted

-- The state is the number of requests.
abbrev server : Network ℕ
server = record {
  send = λ batch n. (ok (reply n), n + 1);
  write_cursor = λ cursor n. (ok tt, n);
  decode_ack = λ text. ok (record { accepted_through_seq = 5; durable_through_seq = some 5 });
}

abbrev events : List Event
events = event 0 ∷ event 1 ∷ event 2 ∷ []

abbrev sink : HttpEventSink ℕ
sink = record {
  config = record {
    url = "http://localhost";
    authorization = none;
    max_events_per_batch = 2;
    max_bytes_per_batch = 9;
    cursor_path = "cursor.json";
    max_retries = 3;
  };
  delivered_seq = none;
  network = 0;
}

abbrev request : EventPublishRequest
request = record { session_id = "session"; schema_version = 0; events = events; durable = none }

two_taken : take_batch encode events 2 9 ≡ ok (event 0 ∷ event 1 ∷ [])
unfolding take_batch
two_taken = refl

take_batch-IsBatch_example : IsBatch encode 2 9 events (event 0 ∷ event 1 ∷ [])
take_batch-IsBatch_example =
    take_batch-IsBatch encode events 2 9 (event 0 ∷ event 1 ∷ []) (λ nil. cc) (omega arith)
      two_taken

-- Two batches after one more attempt: three requests.
request_count : (publish_events server encode request sink).1.network ≡ 3
unfolding publish_events
request_count = refl

publish_events-Covers_example :
    Outcome IsReported
      (λ ack (_ : HttpEventSink ℕ). Covers (last events) ack)
      (publish_events server encode request sink).0
      (publish_events server encode request sink).1
publish_events-Covers_example =
    publish_events-Covers server encode request sink (omega arith) (omega arith)

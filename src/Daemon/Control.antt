-- ===== src/Daemon/Control.antt =====
-- The control socket of crates/rrjj/src/main.rs: a request is a line of JSON, dispatched to the
-- coordinator's handle, and its answer another line. serde's JSON is a parameter.
use Prim.Native.String.{◌++◌}
use rrjj.Prelude.{◌≡◌, Bool, true, false, String, Option, none, some, List}
use rrjj.Prelude.Action.{Result, ok, err, and_then, map_err}
use rrjj.Schema.{Snapshot}
use rrjj.Core.Audit.{Notification}
use rrjj.Core.Coordinator
use rrjj.Core.Coordinator.{Coordinator, CoordinatorError, Services, Status}
use rrjj.Core.Command.{Command, Reply, with_status, with_snapshot, done, resume_capture}
use rrjj.Core.Watcher.{Watch}
use rrjj.Core.System.{System, call}

pub data Request : Type 0 where
  status snap flush pause resume : Request
  mark : (label meta : String) → Request

pub record Response (V : Type 0) : Type 0 where
  pub is_ok : Bool
  pub data_of : Option V
  pub error : Option String

-- serde_json, on values of a type `V`
pub record Json (V : Type 0) : Type 0 where
  pub write_request : Request → Result String String
  pub read_request : String → Result String Request
  pub write_response : Response V → Result String String
  pub read_response : String → Result String (Response V)
  pub status_value : Status → Result String V
  pub snapshot_value : Snapshot → Result String V
  -- `json!({})` and `Value::Null`
  pub empty_object : V
  pub null : V
  pub error_text : CoordinatorError → String

unfoldable pub command_of : Request → Command
command_of Request.status = Command.status
command_of Request.snap = Command.snap
command_of Request.flush = Command.flush
command_of Request.pause = Command.pause
command_of Request.resume = Command.resume
command_of (Request.mark label meta) = Command.mark label meta

module _ {V : Type 0} (json : Json V) where
  unfoldable pub reply_value : Reply → Result String V
  reply_value (with_status r) = and_then (map_err json.error_text r) json.status_value
  reply_value (with_snapshot r) = and_then (map_err json.error_text r) json.snapshot_value
  reply_value (done r) = and_then (map_err json.error_text r) (λ _. ok json.empty_object)

  unfoldable pub response_of : Result String V → Response V
  response_of (ok value) = record { is_ok = true; data_of = some value; error = none }
  response_of (err message) = record { is_ok = false; data_of = none; error = some message }

  abbrev pub end_line : Result String String → Result String String
  end_line line = and_then line (λ text. ok (text ++ "\n"))

  abbrev pub unwrap_or {ℓ} : {A : Type ℓ} → A → Option A → A
  unwrap_or a none = a
  unwrap_or a (some b) = b

  abbrev pub received : Response V → Result String V
  received response = elim response.is_ok [
    | true ↦ ok (unwrap_or json.null response.data_of)
    | false ↦ err (unwrap_or "request failed" response.error)
  ]

  -- `request`, up to its line and from the answer's line
  unfoldable pub request_line : Request → Result String String
  request_line request = end_line (json.write_request request)

  unfoldable pub receive : String → Result String V
  receive line = and_then (json.read_response line) received

  module _ {S R G : Type 0} (io : Services S R) (w : Watch G) where
    unfoldable pub dispatch :
        Request → List (List Notification) → System S R → Result String V × System S R
    unfolding command_of reply_value
    dispatch request arrivals s =
        let (reply, s') = call io w (command_of request) arrivals s in (reply_value reply, s')

    abbrev pub answer : Result String V × System S R → Result String String × System S R
    answer (r, s) = (end_line (json.write_response (response_of r)), s)

    abbrev pub serve_request :
        Result String Request
        → List (List Notification)
        → System S R
        → Result String String × System S R
    serve_request (ok request) arrivals s = answer (dispatch request arrivals s)
    serve_request (err e) arrivals s = (err e, s)

    unfoldable pub handle_connection :
        String → List (List Notification) → System S R → Result String String × System S R
    unfolding dispatch response_of
    handle_connection line arrivals s = serve_request (json.read_request line) arrivals s

-- What is written as a line can be read back; a response whose data is `null` may come back as one
-- with no data.
pub record IsJson {V : Type 0} (json : Json V) : Type 0 where
  pub request_back :
      (r : Request) {text : String}
      → json.write_request r ≡ ok text
      → json.read_request (text ++ "\n") ≡ ok r
  pub response_back :
      (r : Response V) {text : String}
      → json.write_response r ≡ ok text
      → (q : Response V) × (json.read_response (text ++ "\n") ≡ ok q)
        × (q.is_ok ≡ r.is_ok)
        × (unwrap_or json json.null q.data_of ≡ unwrap_or json json.null r.data_of)
        × (q.error ≡ r.error)

module _ {S R : Type 0} (io : Services S R) where
  -- What each request asks of the coordinator
  unfoldable pub asked : Request → Coordinator S R → Reply × Coordinator S R
  asked Request.status c = (with_status (ok (Coordinator.status io c)), c)
  asked Request.snap c =
      (with_snapshot (Coordinator.snapshot io c).0, (Coordinator.snapshot io c).1)
  asked Request.flush c = (with_status (Coordinator.flush io c).0, (Coordinator.flush io c).1)
  asked Request.pause c =
      let d = record c { paused = true } in (with_status (ok (Coordinator.status io d)), d)
  asked Request.resume c =
      let r = resume_capture io (record (Coordinator.drain_audit c) { paused = false }) in
      (with_status r.0, r.1)
  asked (Request.mark label meta) c =
      (done (Coordinator.mark io label meta c).0, (Coordinator.mark io label meta c).1)

-- ===== src/Daemon/Tests.antt =====
-- Options, and requests over a control socket, on which the theorems about the daemon are applied.
use rrjj.Prelude.{
  ◌≡◌, ◌≢◌, refl, ◌⊎◌, ◌↔◌, Bool, true, false, String, Option, none, some, [], ◌∷◌, arith, str_eq,
  if◌then◌else◌,
}
use rrjj.Prelude.Action.{Result, ok, err}
use rrjj.Core.Coordinator
use rrjj.Daemon.Options.{
  DaemonOptions, validate, durable, config_of, checkpoint_of, events_of, panicked,
}
use rrjj.Daemon.Modes.{
  HasLimits, InDirectory, WithServices, SpoolOnly, validate_iff, validate-durable,
}
use rrjj.Daemon.Socket.{ErrorKind, remove_stale_socket}
use rrjj.Daemon.Control.{Request, Response, Json}

-- What `rrjj daemon` is given for a session directory.
abbrev local_options : DaemonOptions
local_options = record {
  root = "/work";
  shadow = "/shadow";
  events = "/events.ndjson";
  session_dir = some "/session";
  socket = "/tmp/rrjj.sock";
  session_id = "s1";
  max_changes = 5000;
  max_spool_bytes = 1073741824;
  quiescence_ms = 1500;
  max_delay_ms = 10000;
  ignore = "target" ∷ ".git" ∷ [];
  checkpoint_backend = none;
  event_backend = none;
  git_remote_url = none;
  git_ref_prefix = "refs/rrjj/sessions";
  event_http_url = none;
  event_max_batch_events = 100;
  event_max_batch_bytes = 1048576;
}

local_accepted : validate local_options ≡ ok tt
unfolding validate
local_accepted = refl

ignores_sorted : (config_of local_options).ignore ≡ ".git" ∷ ".jj" ∷ "target" ∷ []
unfolding config_of
ignores_sorted = refl

local_limits : HasLimits local_options
local_limits = record {
  max_changes = λ h. omega (arith, h);
  quiescence_ms = λ h. omega (arith, h);
  max_delay_ms = λ h. omega (arith, h);
  event_max_batch_events = λ h. omega (arith, h);
  event_max_batch_bytes = λ h. omega (arith, h);
}

validate_iff_example : (validate local_options ≡ ok tt) ↔ (
    HasLimits local_options
    × (InDirectory none none true
        ⊎ (WithServices none none true false false ⊎ SpoolOnly none none true false false)))
validate_iff_example = validate_iff local_options

validate-durable_example :
    durable local_options none [] (checkpoint_of local_options) (events_of local_options) ≢ panicked
validate-durable_example = validate-durable local_options none [] local_accepted

active_kept :
    remove_stale_socket (record { is_socket = ok true; connect = ok tt; remove_file = ok tt })
    ≡ (err "control socket is active", false)
unfolding remove_stale_socket
active_kept = refl

stale_removed :
    remove_stale_socket (record {
      is_socket = ok true;
      connect = err ErrorKind.connection_refused;
      remove_file = ok tt;
    })
    ≡ (ok tt, true)
unfolding remove_stale_socket
stale_removed = refl

-- JSON in which only the request for the status, and the answer that there is one, can be written.
abbrev write_request : Request → Result String String
write_request Request.status = ok "status"
write_request r = err "unused"

abbrev write_response : (is_ok : Bool) → Option (Unit {0}) → Option String → Result String String
write_response true (some value) none = ok "ok"
write_response is_ok value error = err "unused"

abbrev good : Response Unit
good = record { is_ok = true; data_of = some tt; error = none }

abbrev words : Json Unit
words = record {
  write_request = write_request;
  read_request = λ t. if str_eq t "status\n" then ok Request.status else err "unused";
  write_response = λ r. write_response r.is_ok r.data_of r.error;
  read_response = λ t. if str_eq t "ok\n" then ok good else err "unused";
  status_value = λ s. ok tt;
  snapshot_value = λ s. ok tt;
  empty_object = tt;
  null = tt;
  error_text = λ e. "failed";
}

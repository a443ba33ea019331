-- ===== src/Core/Start.antt =====
-- `Coordinator::initialize` of crates/rrjj-core/src/lib.rs: the baseline and the first event. The
-- package's version is fixed when the crate is built.
pub mod Logged
use rrjj.Prelude.{ℕ, true, false, String, none, List, [], ◌∷◌}
use rrjj.Prelude.Action.{Result, ok, err, and_then, map_err}
use rrjj.Schema.{EventBody, Snapshot}
use rrjj.Core.Audit.{Notification, empty_audit}
use rrjj.Core.Coordinator.{Config, Coordinator, CoordinatorError, Services, capture_error, emit}

-- `JJ_LIB_VERSION` and `JJ_STORE_VERSION`
abbrev jj_lib_version : String
jj_lib_version = "0.43.0"

abbrev jj_store_version : String
jj_store_version = "jj-lib-0.43.0/git"

-- The coordinator before its first event; `arrivals` is what the watcher, not yet started, will note.
abbrev pub fresh : {S R : Type 0} → Config → S → R → List (List Notification) → ℕ → Coordinator S R
fresh config sink recorder arrivals clock = record {
  config = config;
  sink = sink;
  recorder = recorder;
  seq = 0;
  snapshots = 0;
  touched_paths = [];
  raw_events = 0;
  audit_started_at = none;
  pending_snapshot = false;
  force_full_scan = false;
  paused = false;
  pending_snapshot_event = none;
  audit = empty_audit;
  pending_overflows = [];
  path_limit_reported = false;
  arrivals = arrivals;
  clock = clock;
}

abbrev pub session_start : String → Config → Snapshot → EventBody
session_start rrjj_version config baseline = EventBody.session_start (record {
  roots = config.watched_root ∷ [];
  baseline_op = baseline.op;
  baseline_tree = baseline.tree;
  ignore = config.ignore;
  rrjj_version = rrjj_version;
  jj_lib_version = jj_lib_version;
  jj_store_version = jj_store_version;
})

module _ {S R : Type 0} (io : Services S R) (rrjj_version : String) where
  -- The coordinator, if the event was emitted.
  abbrev pub started :
      Result CoordinatorError Unit × Coordinator S R → Result CoordinatorError (Coordinator S R)
  started (ok _, c) = ok c
  started (err e, c) = err e

  abbrev pub after_baseline :
      Config
      → S
      → List (List Notification)
      → ℕ
      → Result String Snapshot × R
      → Result CoordinatorError (Coordinator S R)
  after_baseline config sink arrivals clock (ok baseline, recorder) = started (
      emit io (session_start rrjj_version config baseline)
        (fresh config sink recorder arrivals clock))
  after_baseline config sink arrivals clock (err e, recorder) = err (capture_error e)

  -- `initialize`, on the recorder that `JjRecorder::init` has opened
  unfoldable pub initialize :
      Config → S → R → List (List Notification) → ℕ → Result CoordinatorError (Coordinator S R)
  initialize config sink recorder arrivals clock =
      after_baseline config sink arrivals clock
        (io.recorder.capture true config.max_changes_per_event recorder)

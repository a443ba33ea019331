-- ===== src/Core/Coordinator/State.antt =====
-- The state of `Coordinator` in crates/rrjj-core/src/lib.rs and the steps on it that call neither the
-- sink nor the recorder; a call's answer is an argument.
use rrjj.Prelude.{
  ℕ, ◌+◌, Bool, true, false, ◌||◌, not, String, Option, none, some, List, [], ◌∷◌, ◌++◌, ltb,
  if◌then◌else◌, length, is_empty, wrap64, saturating_add,
}
use rrjj.Prelude.Action.{Result, ok, err, Action}
use rrjj.Schema.{Event, EventBody, Snapshot, TouchedPath, full_scan_snapshot}
use rrjj.Sinks.Error.{SinkError}
use rrjj.Sinks.Traits.{Sink}
use rrjj.Core.PathMap.{PathMap, OperationSet, lookup, insert, extend_at}
use rrjj.Core.Audit.{
  OverflowNotice, notice, AuditState, AuditBatch, Notification, notify_all, drain, max_audit_paths,
  path_limit_source,
}

pub record Config : Type 0 where
  pub session_id : String
  pub watched_root : String
  pub shadow_root : String
  pub ignore : List String
  pub excluded_paths : List String
  pub max_changes_per_event : ℕ
  pub quiescence : ℕ
  pub max_delay : ℕ

pub record Status : Type 0 where
  pub session_id : String
  pub seq : ℕ
  pub snapshots : ℕ
  pub last_op : String
  pub pending_snapshot : Bool
  pub paused : Bool

pub data CoordinatorError : Type 0 where
  sink_error : SinkError → CoordinatorError
  -- `ensure!(event.seq == self.seq, …)`
  sequence_changed : CoordinatorError
  capture_error : String → CoordinatorError
  -- `unreachable!`
  not_a_snapshot : CoordinatorError
  -- the command channel has no receiver
  closed : CoordinatorError
  -- the model's loop was cut off
  out_of_fuel : CoordinatorError

-- What the coordinator uses of `JjRecorder`.
pub record Recorder (R : Type 0) : Type 0 where
  pub op_id : R → String
  pub commit_id : R → Option String
  pub capture : Bool → ℕ → Action R String Snapshot

pub record Services (S R : Type 0) : Type 0 where
  pub sink : Sink S
  pub recorder : Recorder R
  -- `Utc::now` at each reading
  pub now : ℕ → String

pub record Coordinator (S R : Type 0) : Type 0 where
  pub config : Config
  pub sink : S
  pub recorder : R
  pub seq : ℕ
  pub snapshots : ℕ
  pub touched_paths : PathMap
  pub raw_events : ℕ
  pub audit_started_at : Option String
  pub pending_snapshot : Bool
  pub force_full_scan : Bool
  pub paused : Bool
  pub pending_snapshot_event : Option Event
  pub audit : AuditState
  pub pending_overflows : List OverflowNotice
  pub path_limit_reported : Bool
  pub arrivals : List (List Notification)
  pub clock : ℕ

-- `if self.audit_started_at.is_none() { self.audit_started_at = batch.started_at; }`
abbrev pub or_started : Option String → Option String → Option String
or_started none started = started
or_started (some t) started = some t

abbrev pub overflow_body : OverflowNotice → EventBody
overflow_body n =
    EventBody.overflow
      (record { source = n.source; raw_events = n.raw_events; recovery = full_scan_snapshot })

module _ {S R : Type 0} where
  -- What the watcher noted before the coordinator takes the lock.
  unfoldable pub arrive : List (List Notification) → Coordinator S R → Coordinator S R
  arrive [] c = c
  arrive (ns ∷ later) c = record c { audit = notify_all ns c.audit; arrivals = later }

  -- The body of the loop of `drain_audit`.
  unfoldable pub merge_path : ℕ → String → OperationSet → Coordinator S R → Coordinator S R
  merge_path raw_events path operations c = elim (lookup path c.touched_paths) [
    | some _ ↦ record c { touched_paths = extend_at path operations c.touched_paths }
    | none ↦
        if ltb (length c.touched_paths) max_audit_paths
        then record c { touched_paths = insert path operations c.touched_paths }
        else if not c.path_limit_reported
        then record c {
          path_limit_reported = true;
          pending_overflows =
              c.pending_overflows
              ++ notice path_limit_source (saturating_add c.raw_events raw_events) ∷ [];
        }
        else c
  ]

  unfoldable pub merge_paths : ℕ → PathMap → Coordinator S R → Coordinator S R
  merge_paths raw_events [] c = c
  merge_paths raw_events ((path, operations) ∷ rest) c =
      merge_paths raw_events rest (merge_path raw_events path operations c)

  -- The last two statements of `drain_audit`.
  unfoldable pub merge_rest : AuditBatch → Coordinator S R → Coordinator S R
  merge_rest batch c =
      let overflows =
        (if is_empty batch.overflows
          then c.pending_overflows
          else c.pending_overflows ++ batch.overflows) in
      record c {
        raw_events = saturating_add c.raw_events batch.raw_events;
        pending_overflows = overflows;
        force_full_scan = if is_empty batch.overflows then c.force_full_scan else true;
        pending_snapshot =
            if not (is_empty c.touched_paths) || not (is_empty overflows)
            then true
            else c.pending_snapshot;
      }

  unfoldable pub take_batch : AuditBatch × AuditState → Coordinator S R → Coordinator S R
  unfolding merge_rest
  take_batch (batch, audit) c = merge_rest batch (
      merge_paths batch.raw_events batch.paths (record c {
        audit = audit;
        audit_started_at = or_started c.audit_started_at batch.started_at;
      }))

  unfoldable pub drain_audit : Coordinator S R → Coordinator S R
  unfolding arrive take_batch
  drain_audit c = let c' = arrive c.arrivals c in take_batch (drain c'.audit) c'

  -- The states in which `snapshot` leaves the coordinator, retried or fresh.
  unfoldable pub after_retry : Coordinator S R → Coordinator S R
  after_retry c = record c {
    pending_snapshot_event = none;
    force_full_scan = not (is_empty c.pending_overflows);
    pending_snapshot = elim c.audit_started_at [
      | some _ ↦ true
      | none ↦ not (is_empty c.pending_overflows)
    ];
    snapshots = wrap64 (c.snapshots + 1);
  }

  unfoldable pub after_snapshot : Coordinator S R → Coordinator S R
  after_snapshot c = record c {
    pending_snapshot_event = none;
    force_full_scan = false;
    pending_snapshot = false;
    snapshots = wrap64 (c.snapshots + 1);
  }

  abbrev pub left_with : List OverflowNotice → Coordinator S R → Coordinator S R
  left_with rest c = record c { pending_overflows = rest }

  abbrev pub tick : Coordinator S R → Coordinator S R
  tick c = record c { clock = c.clock + 1 }

  -- `self.sink.emit(event).await?; self.seq += 1;`
  unfoldable pub after_emit :
      Result SinkError Unit × S → Coordinator S R → Result CoordinatorError Unit × Coordinator S R
  after_emit (ok _, sink) c = (ok tt, record c { sink = sink; seq = wrap64 (c.seq + 1) })
  after_emit (err e, sink) c = (err (sink_error e), record c { sink = sink })

  unfoldable pub after_capture :
      Result String Snapshot × R
      → Coordinator S R
      → Result CoordinatorError Snapshot × Coordinator S R
  after_capture (ok s, recorder) c = (ok s, record c { recorder = recorder })
  after_capture (err e, recorder) c = (err (capture_error e), record c { recorder = recorder })

  unfoldable pub after_flush :
      Result SinkError Unit × S → Coordinator S R → Result CoordinatorError Unit × Coordinator S R
  after_flush (ok _, sink) c = (ok tt, record c { sink = sink })
  after_flush (err e, sink) c = (err (sink_error e), record c { sink = sink })

  unfoldable pub after_audit : Coordinator S R → Coordinator S R
  after_audit c = record c {
    touched_paths = [];
    raw_events = 0;
    audit_started_at = none;
    path_limit_reported = false;
  }

  -- The fuel of the loop.
  abbrev pub rounds : Coordinator S R → ℕ
  rounds c = length c.arrivals + 2

abbrev pub touched_path : String × OperationSet → TouchedPath
touched_path (path, operations) = record { path = path; operations = operations }

-- ===== src/Core/Coordinator.antt =====
-- `Coordinator` of crates/rrjj-core/src/lib.rs: its state and its methods, in the order of the file.
-- The sink and the recorder are reached through their interfaces. The audit accumulator is shared
-- with the watcher, so the state also holds what the watcher will have noted by each time that the
-- coordinator takes the accumulator's lock (`arrivals`), and the reading of the clock.
pub mod State
pub mod Frame
pub mod Invariants
pub mod Logging
pub mod Emitting
pub mod Counting
pub mod Reporting
pub mod Writing
pub mod Rounds
pub mod Settling
pub mod Flushing
pub mod Ending
pub mod Retry
pub mod Started
pub mod Limits
unfoldable pub use rrjj.Core.Coordinator.State.{
  arrive, merge_path, merge_paths, merge_rest, take_batch, drain_audit, after_retry, after_snapshot,
  after_emit, after_capture, after_flush, after_audit,
}
pub use rrjj.Core.Coordinator.State.{
  Config, Status, CoordinatorError, Recorder, Services, Coordinator, or_started, overflow_body,
  left_with, tick, rounds, touched_path, sink_error, sequence_changed, capture_error,
  not_a_snapshot, closed, out_of_fuel,
}
use rrjj.Prelude.{
  ℕ, zero, suc, ◌+◌, ◌-◌, Bool, true, false, ◌||◌, not, String, Option, none, some, List, [], ◌∷◌,
  ◌++◌, map, ltb, ◌==◌, if◌then◌else◌, length, is_empty, wrap64, saturating_add, u64_modulus, ◌%◌,
}
use rrjj.Prelude.Action.{Result, ok, err, Action, pure, fail, gets, modify, when, ◌>>=◌, ◌>>◌}
use rrjj.Schema.{
  Event, EventBody, Snapshot, TouchedPath, OverflowRecovery, event_at, full_scan_snapshot,
}
use rrjj.Sinks.Error.{SinkError}
use rrjj.Sinks.Traits.{FlushRequest, Sink}
use rrjj.Core.PathMap.{PathMap, OperationSet, lookup, insert, extend_at}
use rrjj.Core.Audit.{
  OverflowNotice, notice, AuditState, AuditBatch, Notification, notify_all, drain, is_dirty,
  max_audit_paths, path_limit_source,
}

module _ {S R : Type 0} (io : Services S R) where
  unfoldable pub emit_exact : Event → Action (Coordinator S R) CoordinatorError Unit
  unfolding after_emit
  emit_exact event c =
      if event.seq == c.seq
      then after_emit (io.sink.emit event c.sink) c
      else (err sequence_changed, c)

  unfoldable pub emit : EventBody → Action (Coordinator S R) CoordinatorError Unit
  emit body c = emit_exact (event_at c.config.session_id c.seq (io.now c.clock) body) (tick c)

  abbrev pub window : String → Coordinator S R → EventBody
  window started c = EventBody.touched_paths (record {
    paths = map touched_path c.touched_paths;
    raw_events = c.raw_events;
    window_started_at = started;
    window_ended_at = io.now c.clock;
  })

  -- `emit_audit`, by whether a window is open
  unfoldable pub emit_window : Option String → Action (Coordinator S R) CoordinatorError Unit
  unfolding after_audit
  emit_window none = pure tt
  emit_window (some started) = do
    body ← gets (window started)
    modify tick
    emit body
    modify after_audit

  unfoldable pub emit_audit : Action (Coordinator S R) CoordinatorError Unit
  unfolding emit_window
  emit_audit c = emit_window c.audit_started_at c

  -- The loop of `emit_overflows`, on what is left of the list.
  unfoldable pub emit_each : List OverflowNotice → Action (Coordinator S R) CoordinatorError Unit
  emit_each [] = pure tt
  emit_each (n ∷ rest) = do emit (overflow_body n); modify (left_with rest); emit_each rest

  unfoldable pub emit_overflows : Action (Coordinator S R) CoordinatorError Unit
  unfolding emit_each
  emit_overflows c = emit_each c.pending_overflows c

  -- `self.recorder.capture(self.force_full_scan, …)`
  unfoldable pub capture_tree : Action (Coordinator S R) CoordinatorError Snapshot
  unfolding after_capture
  capture_tree c =
      after_capture
        (io.recorder.capture c.force_full_scan c.config.max_changes_per_event c.recorder) c

  unfoldable pub hold_snapshot : Snapshot → Coordinator S R → Coordinator S R
  hold_snapshot s c = record c {
    pending_snapshot_event =
        some (event_at c.config.session_id c.seq (io.now c.clock) (EventBody.snapshot s));
    clock = c.clock + 1;
  }

  -- `emit_exact` of the event that was just prepared
  unfoldable pub emit_held : Option Event → Action (Coordinator S R) CoordinatorError Unit
  emit_held none = fail not_a_snapshot
  emit_held (some event) = emit_exact event

  -- The retained event emitted and taken for a snapshot.
  unfoldable pub commit : Snapshot → Action (Coordinator S R) CoordinatorError Snapshot
  unfolding emit_held after_snapshot
  commit s = do (λ c. emit_held c.pending_snapshot_event c); modify after_snapshot; pure s

  unfoldable pub drained_snapshot : Action (Coordinator S R) CoordinatorError Snapshot
  unfolding emit_overflows emit_audit capture_tree hold_snapshot commit
  drained_snapshot = do
    emit_overflows
    emit_audit
    s ← capture_tree
    modify (hold_snapshot s)
    commit s

  unfoldable pub fresh_snapshot : Action (Coordinator S R) CoordinatorError Snapshot
  unfolding drain_audit drained_snapshot
  fresh_snapshot c = drained_snapshot (drain_audit c)

  unfoldable pub retry_body : Event → EventBody → Action (Coordinator S R) CoordinatorError Snapshot
  unfolding after_retry
  retry_body event (EventBody.snapshot s) = do emit_exact event; modify after_retry; pure s
  retry_body event _ = fail not_a_snapshot

  -- the branch of `snapshot` for a retained event
  unfoldable pub retry_snapshot : Event → Action (Coordinator S R) CoordinatorError Snapshot
  unfolding retry_body
  retry_snapshot event = retry_body event event.body

  abbrev pub snapshot_from : Option Event → Action (Coordinator S R) CoordinatorError Snapshot
  snapshot_from (some event) = retry_snapshot event
  snapshot_from none = fresh_snapshot

  unfoldable pub snapshot : Action (Coordinator S R) CoordinatorError Snapshot
  snapshot c = snapshot_from c.pending_snapshot_event c

  -- `while self.pending_snapshot { self.snapshot().await?; self.drain_audit(); }`
  unfoldable pub settle : ℕ → Action (Coordinator S R) CoordinatorError Unit
  settle zero c = when c.pending_snapshot (fail out_of_fuel) c
  settle (suc fuel) c = when c.pending_snapshot (do snapshot; modify drain_audit; settle fuel) c

  -- `self.drain_audit()` and the loop, as `mark`, `finish` and `flush` begin.
  unfoldable pub settle_audit : Action (Coordinator S R) CoordinatorError Unit
  unfolding drain_audit
  settle_audit c = settle (rounds c) (drain_audit c)

  unfoldable pub status : Coordinator S R → Status
  unfolding is_dirty arrive
  status c = record {
    session_id = c.config.session_id;
    seq = c.seq;
    snapshots = c.snapshots;
    last_op = io.recorder.op_id c.recorder;
    pending_snapshot = c.pending_snapshot || is_dirty (arrive c.arrivals c).audit;
    paused = c.paused;
  }

  unfoldable pub emit_mark : String → String → Action (Coordinator S R) CoordinatorError Unit
  emit_mark label meta c =
      emit
        (EventBody.mark
          (record { label = label; meta = meta; ref_op = io.recorder.op_id c.recorder }))
        c

  unfoldable pub mark : String → String → Action (Coordinator S R) CoordinatorError Unit
  unfolding settle_audit emit_mark
  mark label meta = do settle_audit; emit_mark label meta

  -- `flush_session`, its error made the coordinator's
  unfoldable pub flush_sink : FlushRequest → Action (Coordinator S R) CoordinatorError Unit
  unfolding after_flush
  flush_sink request c = after_flush (io.sink.flush_session request c.sink) c

  -- The request of `flush_durable`, after its event has advanced `seq`.
  unfoldable pub flush_through :
      String → Option String → Action (Coordinator S R) CoordinatorError Unit
  unfolding flush_sink
  flush_through op checkpoint c =
      flush_sink
        (record {
          shadow_root = c.config.shadow_root;
          last_seq = (c.seq + u64_modulus - 1) % u64_modulus;
          last_op = op;
          checkpoint = checkpoint;
        })
        c

  abbrev pub flush_body : Coordinator S R → EventBody
  flush_body c = EventBody.flush (record { op = io.recorder.op_id c.recorder; through_seq = c.seq })

  unfoldable pub flush_durable : Action (Coordinator S R) CoordinatorError Unit
  unfolding flush_through
  flush_durable c =
      (emit (flush_body c)
          >> flush_through (io.recorder.op_id c.recorder) (io.recorder.commit_id c.recorder))
        c

  unfoldable pub emit_session_end : String → Action (Coordinator S R) CoordinatorError Unit
  emit_session_end reason c =
      emit
        (EventBody.session_end (record {
          final_op = io.recorder.op_id c.recorder;
          reason = reason;
          snapshots = c.snapshots;
          events = c.seq;
        }))
        c

  unfoldable pub finish : String → Action (Coordinator S R) CoordinatorError Unit
  unfolding settle_audit emit_session_end flush_durable
  finish reason = do settle_audit; emit_session_end reason; flush_durable

  unfoldable pub flush : Action (Coordinator S R) CoordinatorError Status
  unfolding settle_audit flush_durable status
  flush = do settle_audit; flush_durable; gets status

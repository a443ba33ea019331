-- ===== src/Core/Tests.antt =====
-- A small session on a sink in memory, on which the theorems about the core are applied.
use rrjj.Prelude.{
  ℕ, ◌+◌, ◌≡◌, refl, true, false, ◌||◌, none, some, List, [], ◌∷◌, ◌++◌, length, arith,
}
use rrjj.Prelude.Action.{ok, err}
use rrjj.Schema.{Event, EventBody, Snapshot, TouchedPath, TouchOperation, event_at, no_changes}
use rrjj.Sinks.Traits.{Sink, AcceptsLog}
use rrjj.Core.PathMap.{lookup, insert}
use rrjj.Core.PathMap.Covers.{saw}
use rrjj.Core.Audit.{
  note, note_all, AuditState, empty_audit, Notification, touched, overflowed, notify_all, drain,
  is_dirty,
}
use rrjj.Core.Audit.Bounds.{
  IsBounded, empty_audit-IsBounded, empty_audit-IsTimed, notify_all-IsBounded,
}
use rrjj.Core.Audit.Retains.{history_reports, saw-notify_all}
use rrjj.Core.Coordinator
use rrjj.Core.Coordinator.{
  Config, Coordinator, CoordinatorError, Recorder, Services, Status, arrive, drain_audit,
  after_retry, snapshot, mark, flush, finish, status, sequence_changed,
}
use rrjj.Core.Coordinator.Flushing.{IsFlushed, IsMarked, flush-IsFlushed, mark-IsMarked}
use rrjj.Core.Coordinator.Ending.{IsEnded, finish-IsFlushed}
use rrjj.Core.Coordinator.Limits.{saw-drain_audit}
use rrjj.Core.Coordinator.Logging.{IsLogged}
use rrjj.Core.Coordinator.Retry.{mark-snapshot_stuck}
use rrjj.Core.Coordinator.Settling.{IsStarted, IsSettled}
use rrjj.Core.Coordinator.Writing.{AreReported}
use rrjj.Core.Coordinator.Counting.{IsCounted, count_snapshots}
use rrjj.Core.Command.{Command, run}
use rrjj.Core.Command.Invariants.{run-IsLogged, run-IsCounted}
use rrjj.Core.Start.{initialize}
use rrjj.Core.Start.Logged.{initialize-IsLogged}
use rrjj.Reader.Timeline.{Text, read}
use rrjj.Reader.Timeline.Written.{IsReadable, written, read-run}

abbrev pub memory_sink : Sink (List Event)
memory_sink = record {
  emit = λ e s. (ok tt, s ++ e ∷ []);
  flush = λ s. (ok tt, s);
  flush_session = λ r s. (ok tt, s);
}

abbrev pub memory_log : AcceptsLog memory_sink
memory_log = record {
  accepted = λ s. s;
  accepted-emit = λ e s. refl;
  accepted-flush_session = λ r s. refl;
}

abbrev pub tree : Snapshot
tree = record {
  op = "op-1";
  parent_op = "op-0";
  commit = "commit-1";
  tree = "tree-1";
  changes = [];
  stats = no_changes;
  truncated = false;
}

abbrev pub memory_recorder : Recorder ℕ
memory_recorder = record {
  op_id = λ n. "op-1";
  commit_id = λ n. some "commit-1";
  capture = λ full max n. (ok tree, n + 1);
}

abbrev pub services : Services (List Event) ℕ
services = record { sink = memory_sink; recorder = memory_recorder; now = λ n. "now" }

abbrev pub config : Config
config = record {
  session_id = "session";
  watched_root = "/work";
  shadow_root = "/shadow";
  ignore = [];
  excluded_paths = [];
  max_changes_per_event = 1000;
  quiescence = 200;
  max_delay = 2000;
}

abbrev edit : TouchedPath
edit = record { path = "a.rs"; operations = TouchOperation.modify ∷ [] }

abbrev pub edits : List Notification
edits = touched 5 "12:00:05" (edit ∷ []) 2 ∷ overflowed 7 "rescan" 0 ∷ []

-- Two batches are still to come.
abbrev pub start : Coordinator (List Event) ℕ
start = record {
  config = config;
  sink = [];
  recorder = 0;
  seq = 0;
  snapshots = 0;
  touched_paths = [];
  raw_events = 0;
  audit_started_at = none;
  pending_snapshot = false;
  force_full_scan = false;
  paused = false;
  pending_snapshot_event = none;
  audit = empty_audit;
  pending_overflows = [];
  path_limit_reported = false;
  arrivals = edits ∷ edits ∷ [];
  clock = 0;
}

pub start-IsStarted : IsStarted start
start-IsStarted = record { stamped = λ ne. absurd (ne refl); timed = empty_audit-IsTimed }

pub start-IsLogged : IsLogged services memory_log "session" start
start-IsLogged = record {
  session_id = refl;
  numbered = tt;
  counted = refl;
  one_session = tt;
  held = tt;
}

start-IsCounted : IsCounted services memory_log start
unfolding count_snapshots
start-IsCounted = record { counted = refl; held = tt }

run-IsCounted_example :
    IsCounted services memory_log (run services (Command.snap ∷ Command.pause ∷ []) start)
run-IsCounted_example =
    run-IsCounted services memory_log (Command.snap ∷ Command.pause ∷ []) start start-IsCounted

run-IsLogged_example :
    IsLogged services memory_log "session"
      (run services (Command.snap ∷ Command.mark "a" "{}" ∷ Command.shutdown "done" ∷ []) start)
run-IsLogged_example =
    run-IsLogged services memory_log "session"
      (Command.snap ∷ Command.mark "a" "{}" ∷ Command.shutdown "done" ∷ []) start start-IsLogged

-- The run of the example writes the batches, the mark and the end.
length-run :
    length
      (run services
        (Command.snap ∷ Command.mark "a" "{}" ∷ Command.shutdown "done" ∷ [])
        start).sink
    ≡ 9
unfolding run finish mark Coordinator.settle Coordinator.merge_paths Coordinator.merge_path drain
    notify_all note_all note lookup insert snapshot Coordinator.fresh_snapshot Coordinator.emit
    Coordinator.emit_exact
length-run = refl

-- A line of the log is its event.
abbrev text : Text Event
text = record { is_blank = λ line. false; decode = λ line. ok line }

text-IsReadable : IsReadable text (λ e. e)
text-IsReadable = record { shown = λ e. refl; round_trip = λ e. refl }

abbrev recorded : List Event
recorded =
    (run services (Command.snap ∷ Command.mark "a" "{}" ∷ Command.shutdown "done" ∷ []) start).sink

read-run_example : read text (written (λ e. e) recorded) ≡ ok (record { events = recorded })
read-run_example =
    read-run text (λ e. e) text-IsReadable services memory_log "session"
      (Command.snap ∷ Command.mark "a" "{}" ∷ Command.shutdown "done" ∷ []) start start-IsLogged
      (omega (arith, length-run))

abbrev flushed : Coordinator (List Event) ℕ
flushed = (flush services start).1

flush_runs : flush services start ≡ (ok (status services flushed), flushed)
unfolding flush Coordinator.settle Coordinator.merge_paths Coordinator.merge_path drain notify_all
    note_all note lookup insert snapshot Coordinator.fresh_snapshot Coordinator.emit
    Coordinator.emit_exact
flush_runs = refl

flush-IsFlushed_example :
    IsFlushed services memory_log flushed
    × IsSettled flushed
    × AreReported services memory_log start flushed
    × (status services flushed ≡ status services flushed)
flush-IsFlushed_example =
    flush-IsFlushed services memory_log "session" start flushed (status services flushed)
      start-IsStarted start-IsLogged flush_runs

abbrev marked : Coordinator (List Event) ℕ
marked = (mark services "a" "{}" start).1

mark_runs : mark services "a" "{}" start ≡ (ok tt, marked)
unfolding mark Coordinator.settle Coordinator.merge_paths Coordinator.merge_path drain notify_all
    note_all note lookup insert snapshot Coordinator.fresh_snapshot Coordinator.emit
    Coordinator.emit_exact
mark_runs = refl

mark-IsMarked_example :
    IsMarked services memory_log "a" "{}" marked
    × IsSettled marked
    × AreReported services memory_log start marked
mark-IsMarked_example =
    mark-IsMarked services memory_log "a" "{}" start marked start-IsStarted mark_runs

abbrev finished : Coordinator (List Event) ℕ
finished = (finish services "done" start).1

finish_runs : finish services "done" start ≡ (ok tt, finished)
unfolding finish Coordinator.settle Coordinator.merge_paths Coordinator.merge_path drain notify_all
    note_all note lookup insert snapshot Coordinator.fresh_snapshot Coordinator.emit
    Coordinator.emit_exact
finish_runs = refl

finish-IsFlushed_example :
    ((f : IsFlushed services memory_log finished) × IsEnded services memory_log "done" f.before
        finished
      × IsSettled finished)
    × AreReported services memory_log start finished
finish-IsFlushed_example =
    finish-IsFlushed services memory_log "session" "done" start finished start-IsStarted
      start-IsLogged start-IsCounted finish_runs

notify_all-IsBounded_example : IsBounded (notify_all edits empty_audit)
notify_all-IsBounded_example = notify_all-IsBounded edits empty_audit empty_audit-IsBounded

abbrev noted : AuditState
noted = notify_all edits empty_audit

noted_dirty : is_dirty noted ≡ true
unfolding is_dirty notify_all note_all note lookup insert
noted_dirty = refl

noted_open : noted.path_limit_reported ≡ false
unfolding notify_all note_all note lookup insert
noted_open = refl

saw-notify_all_example :
    saw noted.paths "a.rs" TouchOperation.modify
    ≡ (saw [] "a.rs" TouchOperation.modify || history_reports edits "a.rs" TouchOperation.modify)
saw-notify_all_example = saw-notify_all edits empty_audit "a.rs" TouchOperation.modify noted_open

drained_open : (drain_audit start).path_limit_reported ≡ false
unfolding drain_audit Coordinator.settle Coordinator.merge_paths Coordinator.merge_path drain
    notify_all note_all note lookup insert snapshot Coordinator.fresh_snapshot Coordinator.emit
    Coordinator.emit_exact
drained_open = refl

saw-drain_audit_example : saw (drain_audit start).touched_paths "a.rs" TouchOperation.modify ≡ (
    saw (arrive start.arrivals start).touched_paths "a.rs" TouchOperation.modify
    || saw (arrive start.arrivals start).audit.paths "a.rs" TouchOperation.modify)
saw-drain_audit_example = saw-drain_audit start "a.rs" TouchOperation.modify drained_open

-- A snapshot whose emission has failed: its event is retained, and nothing is pending.
abbrev retained : Event
retained = event_at "session" 0 "now" (EventBody.snapshot tree)

abbrev failed_snapshot : Coordinator (List Event) ℕ
failed_snapshot = record start { pending_snapshot_event = some retained; arrivals = [] }

failed_idle : (drain_audit failed_snapshot).pending_snapshot ≡ false
unfolding drain_audit Coordinator.merge_paths drain
failed_idle = refl

abbrev mark_after_failure : Coordinator (List Event) ℕ
mark_after_failure = (mark services "a" "{}" failed_snapshot).1

mark_after_failure_runs : mark services "a" "{}" failed_snapshot ≡ (ok tt, mark_after_failure)
unfolding mark Coordinator.settle Coordinator.merge_paths Coordinator.merge_path drain notify_all
    note_all note lookup insert snapshot Coordinator.fresh_snapshot Coordinator.emit
    Coordinator.emit_exact
mark_after_failure_runs = refl

mark-snapshot_stuck_example :
    snapshot services mark_after_failure ≡ (err sequence_changed, mark_after_failure)
mark-snapshot_stuck_example =
    mark-snapshot_stuck services memory_log "a" "{}" retained tree failed_snapshot
      mark_after_failure refl refl refl (omega arith) failed_idle mark_after_failure_runs

-- the coordinator after its first event
abbrev first : Event
first = event_at "session" 0 "now" (
    EventBody.session_start (record {
      roots = "/work" ∷ [];
      baseline_op = "op-1";
      baseline_tree = "tree-1";
      ignore = [];
      rrjj_version = "0.1.0";
      jj_lib_version = "0.43.0";
      jj_store_version = "jj-lib-0.43.0/git";
    }))

abbrev initialized : Coordinator (List Event) ℕ
initialized = record start { sink = first ∷ []; recorder = 1; seq = 1; clock = 1 }

initialize_runs : initialize services "0.1.0" config [] 0 start.arrivals 0 ≡ ok initialized
unfolding initialize Coordinator.emit Coordinator.emit_exact
initialize_runs = refl

initialize-IsLogged_example :
    IsLogged services memory_log "session" initialized × IsStarted initialized
initialize-IsLogged_example =
    initialize-IsLogged services memory_log "0.1.0" config [] 0 start.arrivals 0 initialized refl
      initialize_runs

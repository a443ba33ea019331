-- ===== src/Core/Coordinator/Started.antt =====
-- The timestamp of the coordinator's window of touched paths.
use rrjj.Prelude.{refl, Bool-cases, String, inl, inr, ◌==◌}
use rrjj.Prelude.Action.{Result, ok, err}
use rrjj.Schema.{Event, Snapshot}
use rrjj.Sinks.Error.{SinkError}
use rrjj.Core.Coordinator.{
  Coordinator, Services, after_emit, emit_exact, emit, capture_tree, after_capture, hold_snapshot,
  after_audit, after_snapshot, after_retry, flush_sink, after_flush,
}
use rrjj.Core.Coordinator.Invariants.{IsStable}
use rrjj.Core.Coordinator.Settling.{IsStarted, drain_audit-IsStarted}

module _ {S R : Type 0} (io : Services S R) where
  after_emit-IsStarted :
      (a : Result SinkError Unit × S) (c : Coordinator S R)
      → IsStarted c
      → IsStarted (after_emit a c).1
  unfolding after_emit
  after_emit-IsStarted (ok u, s) c h = record { stamped = h.stamped; timed = h.timed }
  after_emit-IsStarted (err e, s) c h = record { stamped = h.stamped; timed = h.timed }

  emit_exact-IsStarted :
      (e : Event) (c : Coordinator S R) → IsStarted c → IsStarted (emit_exact io e c).1
  unfolding emit_exact
  emit_exact-IsStarted e c h = elim (Bool-cases (e.seq == c.seq)) [
    | inl same ↦ rw same (after_emit-IsStarted (io.sink.emit e c.sink) c h)
    | inr other ↦ rw other h
  ]

  after_capture-IsStarted :
      (a : Result String Snapshot × R) (c : Coordinator S R)
      → IsStarted c
      → IsStarted (after_capture a c).1
  unfolding after_capture
  after_capture-IsStarted (ok s, r) c h = record { stamped = h.stamped; timed = h.timed }
  after_capture-IsStarted (err e, r) c h = record { stamped = h.stamped; timed = h.timed }

  after_flush-IsStarted :
      (a : Result SinkError Unit × S) (c : Coordinator S R)
      → IsStarted c
      → IsStarted (after_flush a c).1
  unfolding after_flush
  after_flush-IsStarted (ok u, s) c h = record { stamped = h.stamped; timed = h.timed }
  after_flush-IsStarted (err e, s) c h = record { stamped = h.stamped; timed = h.timed }

  pub IsStarted-stable : IsStable io IsStarted
  unfolding emit capture_tree flush_sink hold_snapshot after_audit after_snapshot after_retry
  IsStarted-stable = record {
    emit = λ body. record {
      at = λ c h. emit_exact-IsStarted _ _ (record { stamped = h.stamped; timed = h.timed });
    };
    retained = λ e c held h. emit_exact-IsStarted e c h;
    capture_tree = record { at = λ c h. after_capture-IsStarted _ c h };
    flush_sink = λ r. record { at = λ c h. after_flush-IsStarted _ c h };
    drain_audit = drain_audit-IsStarted;
    hold_snapshot = λ s c h. record { stamped = h.stamped; timed = h.timed };
    after_audit = λ c h. record { stamped = λ ne. absurd (ne refl); timed = h.timed };
    after_snapshot = λ c h. record { stamped = h.stamped; timed = h.timed };
    after_retry = λ c h. record { stamped = h.stamped; timed = h.timed };
    left_with = λ ns c h. record { stamped = h.stamped; timed = h.timed };
    tick = λ c h. record { stamped = h.stamped; timed = h.timed };
  }

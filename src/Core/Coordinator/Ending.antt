-- ===== src/Core/Coordinator/Ending.antt =====
-- What `finish` of crates/rrjj-core/src/lib.rs has done when it returns.
use rrjj.Prelude.{◌≡◌, refl, subst, sym, String, List, [], ◌∷◌, ◌++◌, arith, wrap64, length}
use rrjj.Prelude.Action.{ok, Keeps-bind, ◌>>◌, >>=-eq-ok}
use rrjj.Schema.{Event, EventBody, TouchOperation}
use rrjj.Sinks.Traits.{AcceptsLog}
use rrjj.Core.Coordinator.{
  Coordinator, Services, flush_durable, flush_body, finish, emit_session_end, settle_audit,
}
use rrjj.Core.Coordinator.Counting.{IsCounted, IsCounted-steady, count_snapshots}
use rrjj.Core.Coordinator.Invariants.{
  settle_audit-Keeps, flush_durable-Keeps, emit_session_end-Keeps,
}
use rrjj.Core.Coordinator.Logging.{IsLogged}
use rrjj.Core.Coordinator.Reporting.{IsKnown, IsKnown-steady}
use rrjj.Core.Coordinator.Settling.{IsStarted, IsSettled}
use rrjj.Core.Coordinator.Writing.{AreReported, Keeps-eq, settle_audit-ok, written_after}
use rrjj.Core.Coordinator.Flushing.{
  next_event, emit-ok, advanced, flush_durable-ok, IsFlushed, IsLogged-ok,
}

module _ {S R : Type 0} (io : Services S R) (log : AcceptsLog io.sink) where
  -- The log before the last flush ends with the end of the session.
  pub record IsEnded (reason : String) (before : List Event) (d : Coordinator S R) : Type 0 where
    pub earlier : List Event
    pub event : Event
    pub body :
        event.body
        ≡ EventBody.session_end (record {
          final_op = io.recorder.op_id d.recorder;
          reason = reason;
          snapshots = d.snapshots;
          events = event.seq;
        })
    pub last : before ≡ earlier ++ event ∷ []
    -- the counts of the event are those of the log before it
    pub snapshots : d.snapshots ≡ wrap64 (count_snapshots earlier)
    pub events : event.seq ≡ wrap64 (length earlier)

  end_and_flush :
      (session reason : String) (m d : Coordinator S R)
      → IsSettled m
      → IsLogged io log session m
      → IsCounted io log m
      → (emit_session_end io reason >> flush_durable io) m ≡ (ok tt, d)
      → (f : IsFlushed io log d) × IsEnded reason f.before d × IsSettled d
  unfolding emit_session_end
  end_and_flush session reason m d q logged counts rest =
      let (_, x, ended, flushed) =
        >>=-eq-ok (emit_session_end io reason) (λ _. flush_durable io) m rest in
      let (s, same, grown) = emit-ok io log _ m x ended in
      let (j, state, last, asked) =
        flush_durable-ok io log (advanced io log m s) d (omega arith)
          (subst (λ y. flush_durable io y ≡ (ok tt, d)) same flushed) in
      subst (λ y. (f : IsFlushed io log y) × IsEnded reason f.before y × IsSettled y) (sym state)
        (
          record {
            before = log.accepted s;
            event = next_event io log (flush_body io (advanced io log m s)) (advanced io log m s);
            journal = j;
            body = refl;
            last = last;
            durable = asked;
          },
          record {
            earlier = log.accepted m.sink;
            event = _;
            body = refl;
            last = grown;
            snapshots = counts.counted;
            events = logged.counted;
          },
          record { idle = q.idle; touched = q.touched; overflows = q.overflows },
        )

  end-IsKnown :
      (reason : String) (m d : Coordinator S R)
      → (emit_session_end io reason >> flush_durable io) m ≡ (ok tt, d)
      → (path : String) (o : TouchOperation) → IsKnown io log path o m
      → IsKnown io log path o d
  end-IsKnown reason m d h path o =
      let p = IsKnown-steady io log path o in
      Keeps-eq (emit_session_end io reason >> flush_durable io) m
        (Keeps-bind (emit_session_end io reason) (λ _. flush_durable io)
          (emit_session_end-Keeps io p reason) (λ _. flush_durable-Keeps io p))
        h

  -- When `finish` returns without an error, the log ends with the end of the session and a durable
  -- flush, the end of the session gives the number of snapshot events and the number of events in the
  -- log before it, modulo 2 ^ 64, nothing is pending, and every operation at a path that was in the
  -- window, or in the accumulator at the first look, is in the log, unless the coordinator met its
  -- limit on paths.
  pub finish-IsFlushed :
      (session reason : String) (c d : Coordinator S R)
      → IsStarted c
      → IsLogged io log session c
      → IsCounted io log c
      → finish io reason c ≡ (ok tt, d)
      → ((f : IsFlushed io log d) × IsEnded reason f.before d × IsSettled d)
        × AreReported io log c d
  unfolding finish
  finish-IsFlushed session reason c d started logged counts h =
      let (_, m, settled, rest) =
        >>=-eq-ok (settle_audit io) (λ _. emit_session_end io reason >> flush_durable io) c h in
      let counted =
        Keeps-eq (settle_audit io) c (settle_audit-Keeps io (IsCounted-steady io log)) settled
          counts in
      let ends =
        end_and_flush session reason m d (settle_audit-ok io log c m started settled).0
          (IsLogged-ok io log session c m logged settled) counted rest in
      (ends, written_after io log c m d settled ends.2 (end-IsKnown reason m d rest))
